-- ===== src/Fuse/Atomic.antt =====
-- The handlers that start a transaction (src/fuse_operations), when they fail.
use tagsistant.Base.{Text, Option, none, some, Bool, true, false, ◌≡◌, arith, ◌∙◌}
use mathlib.Core.Path.{subst}
use tagsistant.Sql.{World}
use tagsistant.Query.{QTree}
use tagsistant.Query.Store.Preserves.{holds_transaction}
use tagsistant.Resolve.{check_tagging_consistency}
use tagsistant.Resolve.New.{Settings, querytree_new}
use tagsistant.Resolve.New.Preserves.{ResultKeeps, querytree_new-keeps}
use tagsistant.Fuse.{Reply, success, failure, is_success, exit_operation, querytree_destroy}
use tagsistant.Fuse.Mkdir.{mkdir, mkdir_body}
use tagsistant.Fuse.Rmdir.{rmdir, rmdir_body}
use tagsistant.Fuse.Unlink.{unlink, unlink_body}
use tagsistant.Fuse.Create.{mknod, mknod_body, symlink, symlink_body}
use tagsistant.Fuse.Rename.{rename, rename_body, resolve_both, resolve_new_path}

-- A failure with the database that was there before; a success may have any database.
abbrev pub KeepsOnFailure : World → Option (Reply × World) → Type 0
KeepsOnFailure before none = Unit
KeepsOnFailure before (some (success n, w)) = Unit
KeepsOnFailure before (some (failure e, w)) = w.db ≡ before.db

exit_operation-keeps :
    (S : Settings) (q : QTree) (before : World) (r : Reply × World)
    → holds_transaction q ≡ true
    → KeepsOnFailure before (some (exit_operation S q before r))
unfolding exit_operation querytree_destroy is_success
exit_operation-keeps S q before (success n, w) h = tt
exit_operation-keeps S q before (failure e, w) h = ground arith

-- What the handlers have in common.
abbrev transact :
    Settings → (QTree → World → Option (Reply × World)) → Text → World → Option (Reply × World)
transact S body path w = elim (querytree_new S path true true false w) [
  | none ↦ none
  | some (q, w1) ↦ elim (body q w1) [
    | none ↦ none
    | some result ↦ some (exit_operation S q w result)
  ]
]

pub transact-keeps :
    (S : Settings) (body : QTree → World → Option (Reply × World)) (path : Text) (w : World)
    → KeepsOnFailure w (transact S body path w)
transact-keeps S body path w =
    elim (querytree_new S path true true false w)
        as (λ o.
          ResultKeeps true w.db o
          → KeepsOnFailure w (elim o [
            | none ↦ none
            | some (q, w1) ↦ elim (body q w1) [
              | none ↦ none
              | some result ↦ some (exit_operation S q w result)
            ]
          ])) [ none ↦ λ h. tt | some (q, w1) ↦ λ h. closed q h.0 (body q w1) ]
      (querytree_new-keeps S path true true false w)
  where
    closed :
        (q : QTree)
        → holds_transaction q ≡ true
        → (r : Option (Reply × World))
        → KeepsOnFailure w
            (elim r [ none ↦ none | some result ↦ some (exit_operation S q w result) ])
    closed q h none = tt
    closed q h (some result) = exit_operation-keeps S q w result h

pub failed-keeps :
    (before w : World) (o : Option (Reply × World)) (reply : Reply)
    → KeepsOnFailure before o
    → o ≡ some (reply, w)
    → is_success reply ≡ false
    → w.db ≡ before.db
unfolding is_success
failed-keeps before w o reply h e f = let k = subst (KeepsOnFailure before) e h in ground arith

-- A mkdir() that fails leaves the database as it was.
mkdir-atomic :
    (S : Settings) (path : Text) (w w' : World) (reply : Reply)
    → mkdir S path w ≡ some (reply, w')
    → is_success reply ≡ false
    → w'.db ≡ w.db
unfolding mkdir
mkdir-atomic S path w w' reply = failed-keeps w w' _ reply (transact-keeps S (mkdir_body S) path w)

-- A rmdir() that fails leaves the database as it was.
rmdir-atomic :
    (S : Settings) (path : Text) (w w' : World) (reply : Reply)
    → rmdir S path w ≡ some (reply, w')
    → is_success reply ≡ false
    → w'.db ≡ w.db
unfolding rmdir
rmdir-atomic S path w w' reply = failed-keeps w w' _ reply (transact-keeps S (rmdir_body S) path w)

-- An unlink() that fails leaves the database as it was.
unlink-atomic :
    (S : Settings) (path : Text) (w w' : World) (reply : Reply)
    → unlink S path w ≡ some (reply, w')
    → is_success reply ≡ false
    → w'.db ≡ w.db
unfolding unlink
unlink-atomic S path w w' reply =
    failed-keeps w w' _ reply (transact-keeps S (unlink_body S) path w)

-- A mknod() that fails leaves the database as it was.
mknod-atomic :
    (S : Settings) (path : Text) (w w' : World) (reply : Reply)
    → mknod S path w ≡ some (reply, w')
    → is_success reply ≡ false
    → w'.db ≡ w.db
unfolding mknod
mknod-atomic S path w w' reply = failed-keeps w w' _ reply (transact-keeps S (mknod_body S) path w)

-- A symlink() that fails leaves the database as it was.
symlink-atomic :
    (S : Settings) (from to : Text) (w w' : World) (reply : Reply)
    → symlink S from to w ≡ some (reply, w')
    → is_success reply ≡ false
    → w'.db ≡ w.db
unfolding symlink
symlink-atomic S from to w w' reply =
    failed-keeps w w' _ reply (transact-keeps S (symlink_body S from) to w)

abbrev CheckedHolds : Bool → Option QTree → Type 0
CheckedHolds b none = Unit
CheckedHolds b (some q) = holds_transaction q ≡ b

check_tagging_consistency-holds :
    (S : Settings) (q : QTree) (w : World)
    → CheckedHolds (holds_transaction q) (check_tagging_consistency S.engine q w)
unfolding check_tagging_consistency
check_tagging_consistency-holds S q w = ground arith

abbrev BothHold : Option ((QTree × QTree) × World) → Type 0
BothHold none = Unit
BothHold (some (qs, w)) = holds_transaction qs.0 ≡ true

resolve_new_path-holds :
    (S : Settings) (from : QTree) (to : Text) (w : World)
    → holds_transaction from ≡ true
    → BothHold (resolve_new_path S from to w)
unfolding resolve_new_path
resolve_new_path-holds S from to w h = ground arith

resolve_both-holds :
    (S : Settings) (from to : Text) (w : World) → BothHold (resolve_both S from to w)
unfolding resolve_both
resolve_both-holds S from to w =
    elim (querytree_new S from true true false w)
        as (λ o.
          ResultKeeps true w.db o
          → BothHold (elim o [
            | none ↦ none
            | some (f, w1) ↦ elim (check_tagging_consistency S.engine f w1) [
              | none ↦ none
              | some f' ↦ resolve_new_path S f' to w1
            ]
          ])) [ none ↦ λ h. tt | some (f, w1) ↦ λ h. checked f w1 h.0 ]
      (querytree_new-keeps S from true true false w)
  where
    checked :
        (f : QTree) (w1 : World)
        → holds_transaction f ≡ true
        → BothHold (elim (check_tagging_consistency S.engine f w1) [
          | none ↦ none
          | some f' ↦ resolve_new_path S f' to w1
        ])
    checked f w1 h =
        elim (check_tagging_consistency S.engine f w1)
            as (λ o.
              CheckedHolds (holds_transaction f) o
              → BothHold (elim o [ none ↦ none | some f' ↦ resolve_new_path S f' to w1 ])) [
                | none ↦ λ k. tt
                | some f' ↦ λ k. resolve_new_path-holds S f' to w1 (k ∙ h)
              ]
          (check_tagging_consistency-holds S f w1)

pub rename-keeps :
    (S : Settings) (from to : Text) (w : World) → KeepsOnFailure w (rename S from to w)
unfolding rename querytree_destroy is_success
rename-keeps S from to w =
    elim (resolve_both S from to w)
        as (λ o.
          BothHold o
          → KeepsOnFailure w (elim o [
            | none ↦ none
            | some (qs, w1) ↦
                let (reply, w2) = rename_body S qs.0 qs.1 w1 in
                let w3 = querytree_destroy S (is_success reply) qs.0 w w2 in
                some
                  (reply, querytree_destroy S (is_success reply) (record qs.1 { dbi = false }) w w3)
          ])) [ none ↦ λ h. tt | some (qs, w1) ↦ λ h. ended qs h (rename_body S qs.0 qs.1 w1) ]
      (resolve_both-holds S from to w)
  where
    ended :
        (qs : QTree × QTree)
        → holds_transaction qs.0 ≡ true
        → (r : Reply × World)
        → KeepsOnFailure w (
            some (
              r.0,
              querytree_destroy S
                  (is_success r.0)
                  (record qs.1 { dbi = false })
                  w
                  (querytree_destroy S (is_success r.0) qs.0 w r.1),
            ))
    ended qs h (success n, w2) = tt
    ended qs h (failure e, w2) = ground arith

-- A rename() that fails leaves the database as it was.
rename-atomic :
    (S : Settings) (from to : Text) (w w' : World) (reply : Reply)
    → rename S from to w ≡ some (reply, w')
    → is_success reply ≡ false
    → w'.db ≡ w.db
rename-atomic S from to w w' reply = failed-keeps w w' _ reply (rename-keeps S from to w)
