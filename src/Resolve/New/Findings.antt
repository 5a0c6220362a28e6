-- ===== src/Resolve/New/Findings.antt =====
-- Paths that name an inode, and paths without a tag (src/path_resolution.c).
use tagsistant.Base.{
  ℕ, ◌≡◌, ◌≢◌, refl, Text, none, some, true, List, ◌∷◌, ◌==◌, arith, Bool-cases, inl, inr,
}
use tagsistant.Sql.{World}
use tagsistant.Query.{QTree, AndNode, null}
use tagsistant.Query.Paths.{join_path, inode_extract_from_path, is_nonempty, strip_inode}
use tagsistant.Resolve.{guess_inode, guess_inode_from_and_set, first_step, second_step}
use tagsistant.Resolve.Archive.{set_inode}
use tagsistant.Resolve.New.{
  Settings, resolve_store, resolve_named, resolve_guessed, settle, is_valid_query,
}

set_inode-zero : (dir : Text) (q : QTree) (w : World) → set_inode dir 0 q w ≡ (q, w)
unfolding set_inode
set_inode-zero dir q w = refl

set_inode-fields :
    (dir : Text) (i : ℕ) (q : QTree) (w : World)
    → q.inode ≡ i
    → ((set_inode dir i q w).0.inode ≡ i) × ((set_inode dir i q w).1.db ≡ w.db)
unfolding set_inode
set_inode-fields dir i q w h = ground arith

-- The validity check of a named inode changes nothing: whatever it finds, the query is the same.
pub resolve_named_lem :
    (S : Settings) (path : Text) (i : ℕ) (q : QTree) (w : World)
    → resolve_named S path i q w
      ≡ (record q { object_path = some (strip_inode path); inode = i }, w)
unfolding resolve_named
resolve_named_lem S path i q w = elim (Bool-cases (is_valid_query S q.dbi q.tree i w)) [
  | inl valid ↦ rw valid
  | inr invalid ↦ rw invalid
]

settle-fields :
    (S : Settings) (q : QTree) (w : World)
    → ((settle S q w).0.inode ≡ q.inode) × ((settle S q w).1.db ≡ w.db)
unfolding settle
settle-fields S q w = ground (arith, set_inode-fields S.archive_dir q.inode q w refl)

-- A complete store/ query whose path names an inode keeps that inode, whether or not the object
-- has the tags of the query.
pub resolve_store-inode :
    (S : Settings) (tokens : List Text) (q : QTree) (w : World)
    → q.complete ≡ true
    → inode_extract_from_path (join_path tokens) ≢ 0
    → (r : QTree × World) × (resolve_store S tokens q w ≡ some r)
      × (r.0.inode ≡ inode_extract_from_path (join_path tokens))
unfolding resolve_store
resolve_store-inode S tokens q w complete named =
    let i = inode_extract_from_path (join_path tokens) in
    let r = resolve_named S (join_path tokens) i q w in
    elim (Bool-cases (i == 0)) [
      | inl zero_inode ↦ ground arith
      | inr nonzero ↦ (
        settle S r.0 r.1,
        rw complete (rw nonzero refl),
        rw ((settle-fields S r.0 r.1).0) (rw (resolve_named_lem S (join_path tokens) i q w) refl),
      )
    ]

-- A query with no tag before the delimiter and an object behind it does not return: the empty
-- and-set is followed.
pub resolve_store_crash :
    (S : Settings) (token : Text) (rest : List Text) (tree : List AndNode) (q : QTree) (w : World)
    → q.complete ≡ true
    → q.tree ≡ null ∷ tree
    → inode_extract_from_path (join_path (token ∷ rest)) ≡ 0
    → is_nonempty (join_path (token ∷ rest)) ≡ true
    → resolve_store S (token ∷ rest) q w ≡ none
unfolding resolve_store resolve_guessed guess_inode guess_inode_from_and_set first_step second_step
resolve_store_crash S token rest tree q w complete empty unnamed path =
    rw complete (rw unnamed (rw path (rw empty refl)))
