-- ===== src/Resolve/New/Preserves.antt =====
-- The transaction of the querytree that tagsistant_querytree_new() gives, and the database behind
-- it (src/path_resolution.c).
use mathlib.Core.Path.{subst}
use tagsistant.Base.{
  ℕ, Text, Option, none, some, Bool, true, false, ◌&&◌, List, [], ◌∷◌, ◌≡◌, refl, arith,
  if◌then◌else◌, ◌==◌, ◌∙◌,
}
use tagsistant.Sql.{World, Db}
use tagsistant.Query.{QTree, new_qtree}
use tagsistant.Query.Paths.{split_path, join_path, strip_inode, inode_extract_from_path}
use tagsistant.Query.Store.{parse_store}
use tagsistant.Query.Parsing.{Outcome, parsed, failed, segfault}
use tagsistant.Query.Store.Preserves.{holds_transaction, AreKept, OutcomeKeeps, parse_store-keeps}
use tagsistant.Resolve.Archive.{set_inode, rebuild_paths}
use tagsistant.Resolve.New.{
  Settings, resolve_store, resolve_named, resolve_guessed, settle, parse_by_type, resolve_archive,
  build_tokens, querytree_new, finish_new, guess_type, expanded, rest_of,
}
use tagsistant.Resolve.New.Findings.{resolve_named_lem}
use tagsistant.Query.Routes.Preserves.{
  parse_relations-holds, parse_tags-holds, parse_stats-holds, parse_alias-holds,
}

abbrev pub ResultKeeps : Bool → Db → Option (QTree × World) → Type 0
ResultKeeps b d none = Unit
ResultKeeps b d (some r) = AreKept b d r.0 r.1

set_inode-keeps :
    (dir : Text) (i : ℕ) (q : QTree) (w : World)
    → AreKept (holds_transaction q) w.db (set_inode dir i q w).0 (set_inode dir i q w).1
unfolding set_inode rebuild_paths
set_inode-keeps dir i q w = ground arith

resolve_archive-keeps :
    (S : Settings) (tokens : List Text) (q : QTree) (w : World)
    → AreKept
        (holds_transaction q)
        w.db
        (resolve_archive S tokens q w).0
        (resolve_archive S tokens q w).1
unfolding resolve_archive
resolve_archive-keeps S tokens q w =
    let path = join_path tokens in
    let inode = inode_extract_from_path path in
    let q' = record q {
      object_path = some (if inode == 0 then path else strip_inode path);
      inode = inode;
    } in
    ground (arith, set_inode-keeps S.archive_dir inode q' w)

settle-keeps :
    (S : Settings) (q : QTree) (w : World)
    → AreKept (holds_transaction q) w.db (settle S q w).0 (settle S q w).1
unfolding settle
settle-keeps S q w = ground (arith, set_inode-keeps S.archive_dir q.inode q w)

settled-keeps :
    (S : Settings) (b : Bool) (d : Db) (found : Option (QTree × World))
    → ResultKeeps b d found
    → ResultKeeps b d (elim found [ none ↦ none | some r ↦ some (settle S r.0 r.1) ])
settled-keeps S b d none h = tt
settled-keeps S b d (some r) h =
    ((settle-keeps S r.0 r.1).0 ∙ h.0, (settle-keeps S r.0 r.1).1 ∙ h.1)

if-ResultKeeps :
    (b : Bool) (d : Db) (c : Bool) (x y : Option (QTree × World))
    → ResultKeeps b d x
    → ResultKeeps b d y
    → ResultKeeps b d (if c then x else y)
if-ResultKeeps b d true x y h k = h
if-ResultKeeps b d false x y h k = k

resolve_guessed-keeps :
    (S : Settings) (tokens : List Text) (path : Text) (q : QTree) (w : World)
    → ResultKeeps (holds_transaction q) w.db (resolve_guessed S tokens path q w)
unfolding resolve_guessed
resolve_guessed-keeps S tokens path q w = ground arith

resolve_store-keeps :
    (S : Settings) (tokens : List Text) (q : QTree) (w : World)
    → ResultKeeps (holds_transaction q) w.db (resolve_store S tokens q w)
unfolding resolve_store
resolve_store-keeps S tokens q w =
    let path = join_path tokens in
    let inode = inode_extract_from_path path in
    let b = holds_transaction q in
    let named : ResultKeeps b w.db (some (resolve_named S path inode q w)) =
      rw (resolve_named_lem S path inode q w) (refl, refl) in
    if-ResultKeeps b w.db q.complete _ _
      (settled-keeps S b w.db _
        (if-ResultKeeps b w.db (inode == 0) _ _ (resolve_guessed-keeps S tokens path q w) named))
      (refl, refl)

abbrev after_store : Settings → Outcome → Option (QTree × World)
after_store S (parsed q rest w) = resolve_store S rest q w
after_store S (failed q w) = some (q, w)
after_store S segfault = none

after_store-keeps :
    (S : Settings) (b : Bool) (d : Db) (o : Outcome)
    → OutcomeKeeps b d o
    → ResultKeeps b d (after_store S o)
after_store-keeps S b d (parsed q rest w) h =
    subst (λ b'. ResultKeeps b' d (resolve_store S rest q w)) h.0
      (subst (λ d'. ResultKeeps (holds_transaction q) d' (resolve_store S rest q w)) h.1
        (resolve_store-keeps S rest q w))
after_store-keeps S b d (failed q w) h = h
after_store-keeps S b d segfault h = tt

parse_by_type-keeps :
    (S : Settings) (path : Text) (disable : Bool) (tokens : List Text) (q : QTree) (w : World)
    → ResultKeeps (holds_transaction q) w.db (parse_by_type S path disable tokens q w)
unfolding parse_by_type
parse_by_type-keeps S path disable tokens q w = ground (
  arith,
  after_store-keeps S (holds_transaction q) w.db (parse_store S.engine path disable tokens q w)
      (parse_store-keeps S.engine path disable tokens q w),
  parse_tags-holds tokens q,
  parse_relations-holds tokens q,
  parse_stats-holds tokens q,
  parse_alias-holds tokens q,
  resolve_archive-keeps S tokens q w,
)

finish_new-holds : (q : QTree) → holds_transaction (finish_new q) ≡ holds_transaction q
unfolding finish_new
finish_new-holds q = ground arith

finished-keeps :
    (b : Bool) (d : Db) (o : Option (QTree × World))
    → ResultKeeps b d o
    → ResultKeeps b d (elim o [ none ↦ none | some r ↦ some (finish_new r.0, r.1) ])
finished-keeps b d none h = tt
finished-keeps b d (some r) h = (finish_new-holds r.0 ∙ h.0, h.1)

build_tokens-keeps :
    (S : Settings) (path : Text) (disable : Bool) (tokens : List Text) (q : QTree) (w : World)
    → ResultKeeps (holds_transaction q) w.db (build_tokens S path disable tokens q w)
unfolding build_tokens
build_tokens-keeps S path disable [] q w = tt
build_tokens-keeps S path disable (token ∷ rest) q w =
    finished-keeps _ _ _
      (parse_by_type-keeps S path disable rest (record q { type = guess_type token }) w)

and_twice : (a b : Bool) → (a && (a && b)) ≡ (a && b)
and_twice a b = ground arith

-- The query has the transaction that was asked for, if it has a connection, and its resolution
-- changes nothing of the database.
pub querytree_new-keeps :
    (S : Settings) (path : Text) (transaction conn disable : Bool) (w : World)
    → ResultKeeps (conn && transaction) w.db (querytree_new S path transaction conn disable w)
unfolding querytree_new
querytree_new-keeps S path transaction conn disable w =
    elim (expanded S conn path w)
      as (λ o. ResultKeeps (conn && transaction) w.db (elim o [
        | none ↦ none
        | some full ↦ build_tokens S path disable (rest_of (split_path full)) (fresh full) w
      ])) [
        | none ↦ tt
        | some full ↦
            subst
              (λ b.
                ResultKeeps b w.db
                  (build_tokens S path disable (rest_of (split_path full)) (fresh full) w))
              (and_twice conn transaction)
              (build_tokens-keeps S path disable (rest_of (split_path full)) (fresh full) w)
      ]
  where
    fresh : Text → QTree
    fresh full = record new_qtree {
      full_path = path;
      expanded_full_path = full;
      dbi = conn;
      transaction_started = conn && transaction;
    }

-- Resolving a path changes nothing of the database, whatever the path is.
pub querytree_new-db :
    (S : Settings) (path : Text) (transaction conn disable : Bool) (w w' : World) (q : QTree)
    → querytree_new S path transaction conn disable w ≡ some (q, w')
    → w'.db ≡ w.db
querytree_new-db S path transaction conn disable w w' q e =
    (subst (ResultKeeps (conn && transaction) w.db) e
      (querytree_new-keeps S path transaction conn disable w)).1
