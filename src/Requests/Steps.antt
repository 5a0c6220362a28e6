-- ===== src/Requests/Steps.antt =====
-- What the handlers without a transaction do to the database (src/fuse_operations).
use tagsistant.Base.{
  ℕ, ◌≡◌, refl, ◌∙◌, Text, Option, none, some, Bool, true, false, ◌∷◌, arith, Option-cases, inl,
  inr,
}
use tagsistant.Sql.{World, SysCall, returned, failed_with, sys_open, sys_pwrite}
use tagsistant.Query.{QTree}
use tagsistant.Resolve.{check_tagging_consistency}
use tagsistant.Resolve.New.{Settings, querytree_new}
use tagsistant.Resolve.New.Preserves.{ResultKeeps, querytree_new-keeps}
use tagsistant.Fuse.{Reply, success, failure, errno, is_success, exit_operation, querytree_destroy}
use tagsistant.Fuse.Atomic.{KeepsOnFailure}
use tagsistant.Fuse.ReadOnly.{KeepsDb}
use tagsistant.Fuse.Files.{run_handler, truncate, truncate_body}
use tagsistant.Fuse.Filler.{Sources}
use tagsistant.Fuse.Listing.{readdir, readdir_body, readdir_on_object}
use tagsistant.Fuse.Handles.{
  FileInfo, Handled, opened, open_list, open_archived, call_int, open_object, open_stats,
  open_alias, open_body, open_file, exit_handled, run_with_handle, transfer_on, transfer_anew,
  transfer_cached,
}
use tagsistant.Fuse.Writing.{write, write_body, write_object, write_alias}
use tagsistant.Requests.{of_handled, of_entries}

pub KeepsDb-failure : (w : World) (o : Option (Reply × World)) → KeepsDb w o → KeepsOnFailure w o
KeepsDb-failure w none h = tt
KeepsDb-failure w (some (success n, w')) h = tt
KeepsDb-failure w (some (failure e, w')) h = h

-- Only the database of the world before matters.
shift :
    (w w1 : World) (o : Option (Reply × World))
    → w1.db ≡ w.db
    → KeepsOnFailure w1 o
    → KeepsOnFailure w o
shift w w1 none e h = tt
shift w w1 (some (success n, w')) e h = tt
shift w w1 (some (failure x, w')) e h = h ∙ e

exit-keeps :
    (S : Settings) (q : QTree) (before : World) (r : Reply × World)
    → KeepsOnFailure before (some r)
    → KeepsOnFailure before (some (exit_operation S q before r))
unfolding exit_operation querytree_destroy is_success
exit-keeps S q before (success n, w) h = tt
exit-keeps S q before (failure e, w) h = ground arith

run_handler-keeps :
    (S : Settings) (body : QTree → World → Reply × World) (path : Text) (w : World)
    → ((q : QTree) (w1 : World) → KeepsOnFailure w1 (some (body q w1)))
    → KeepsOnFailure w (run_handler S body path w)
unfolding run_handler
run_handler-keeps S body path w kept =
    elim (querytree_new S path false true true w)
        as (λ o.
          ResultKeeps false w.db o
          → KeepsOnFailure w
              (elim o [ none ↦ none | some (q, w1) ↦ some (exit_operation S q w (body q w1)) ])) [
                | none ↦ λ h. tt
                | some (q, w1) ↦ λ h.
                    exit-keeps S q w (body q w1) (shift w w1 (some (body q w1)) h.1 (kept q w1))
              ]
      (querytree_new-keeps S path false true true w)

truncate_body-keeps :
    (S : Settings) (q : QTree) (w : World) → KeepsOnFailure w (some (truncate_body S q w))
unfolding truncate_body
truncate_body-keeps S q w = ground arith

pub truncate-keeps : (S : Settings) (path : Text) (w : World) → KeepsOnFailure w (truncate S path w)
unfolding truncate
truncate-keeps S path w = run_handler-keeps S (truncate_body S) path w (truncate_body-keeps S)

exit_handled-keeps :
    (S : Settings) (q : QTree) (w w1 : World) (o : Option Handled)
    → w1.db ≡ w.db
    → KeepsOnFailure w1 (of_handled o)
    → KeepsOnFailure w (of_handled (elim o [ none ↦ none | some r ↦ some (exit_handled S q w r) ]))
unfolding of_handled exit_handled
exit_handled-keeps S q w w1 none e h = tt
exit_handled-keeps S q w w1 (some (reply, (fi, w2))) e h =
    exit-keeps S q w (reply, w2) (shift w w1 (some (reply, w2)) e h)

run_with_handle-keeps :
    (S : Settings) (disable : Bool) (body : QTree → FileInfo → World → Option Handled) (path : Text)
    (fi : FileInfo) (w : World)
    → ((q : QTree) (w1 : World) → KeepsOnFailure w1 (of_handled (body q fi w1)))
    → KeepsOnFailure w (of_handled (run_with_handle S disable body path fi w))
unfolding run_with_handle
run_with_handle-keeps S disable body path fi w kept =
    elim (querytree_new S path false true disable w)
        as (λ o.
          ResultKeeps false w.db o
          → KeepsOnFailure w (
              of_handled (elim o [
                | none ↦ none
                | some (q, w1) ↦ elim (body q fi w1) [
                  | none ↦ none
                  | some r ↦ some (exit_handled S q w r)
                ]
              ]))) [
                | none ↦ λ h. unfold of_handled in tt
                | some (q, w1) ↦ λ h. exit_handled-keeps S q w w1 (body q fi w1) h.1 (kept q w1)
              ]
      (querytree_new-keeps S path false true disable w)

opened-keeps :
    (S : Settings) (fd : ℕ) (q : QTree) (fi : FileInfo) (w w' : World)
    → KeepsOnFailure w' (of_handled (opened S fd q fi w))
unfolding opened of_handled
opened-keeps S fd q fi w w' = elim (Option-cases (check_tagging_consistency S.engine q w)) [
  | inl crash ↦ ground arith
  | inr (q1, checked) ↦ ground arith
]

open_list-keeps :
    (S : Settings) (fi : FileInfo) (w : World)
    → KeepsOnFailure w (of_handled (some (open_list S fi w)))
unfolding open_list of_handled
open_list-keeps S fi w = ground arith

open_archived-keeps :
    (S : Settings) (q : QTree) (fi : FileInfo) (w : World)
    → KeepsOnFailure w (of_handled (open_archived S q fi w))
unfolding open_archived
open_archived-keeps S q fi w =
    let w1 = record w { calls = sys_open q.full_archive_path ∷ w.calls } in
    elim (S.system w.calls (sys_open q.full_archive_path))
      as (λ r. KeepsOnFailure w (
        of_handled (elim r [
          | returned fd ↦ opened S fd q fi w1
          | failed_with e ↦ some (failure (errno e), (record fi { fh = 0 }, w1))
        ]))) [
          | returned fd ↦ opened-keeps S fd q fi w1 w
          | failed_with e ↦ unfold of_handled in refl
        ]

open_object-keeps :
    (S : Settings) (q : QTree) (fi : FileInfo) (w : World)
    → KeepsOnFailure w (of_handled (open_object S q fi w))
unfolding open_object of_handled
open_object-keeps S q fi w = ground (arith, open_list-keeps S fi w, open_archived-keeps S q fi w)

open_body-keeps :
    (S : Settings) (path : Text) (q : QTree) (fi : FileInfo) (w : World)
    → KeepsOnFailure w (of_handled (open_body S path q fi w))
unfolding open_body open_stats open_alias of_handled
open_body-keeps S path q fi w = ground (arith, open_object-keeps S q fi w)

pub open_file-keeps :
    (S : Settings) (path : Text) (fi : FileInfo) (w : World)
    → KeepsOnFailure w (of_handled (open_file S path fi w))
unfolding open_file
open_file-keeps S path fi w =
    run_with_handle-keeps S false (open_body S path) path fi w
      (λ q w1. open_body-keeps S path q fi w1)

pub transfer_cached-db :
    (S : Settings) (transfer : ℕ → SysCall) (q : QTree) (fi : FileInfo) (w : World)
    → (transfer_cached S transfer q fi w).1.1.db ≡ w.db
unfolding transfer_cached transfer_anew transfer_on call_int
transfer_cached-db S transfer q fi w = ground arith

write_body-keeps :
    (S : Settings) (buf : Text) (size : ℕ) (q : QTree) (fi : FileInfo) (w : World)
    → KeepsOnFailure w (of_handled (write_body S buf size q fi w))
unfolding write_body write_alias write_object of_handled
write_body-keeps S buf size q fi w = ground (arith, transfer_cached-db S sys_pwrite q fi w)

pub write-keeps :
    (S : Settings) (path buf : Text) (size : ℕ) (fi : FileInfo) (w : World)
    → KeepsOnFailure w (of_handled (write S path buf size fi w))
unfolding write
write-keeps S path buf size fi w =
    run_with_handle-keeps S true (write_body S buf size) path fi w
      (λ q w1. write_body-keeps S buf size q fi w1)

readdir_body-keeps :
    (S : Settings) (X : Sources) (q : QTree) (w : World)
    → KeepsOnFailure w (some ((readdir_body S X q w).0.0, (readdir_body S X q w).1))
unfolding readdir_body readdir_on_object
readdir_body-keeps S X q w = ground arith

pub readdir-keeps :
    (S : Settings) (X : Sources) (path : Text) (w : World)
    → KeepsOnFailure w (of_entries (readdir S X path w))
unfolding readdir readdir_body exit_operation
readdir-keeps S X path w =
    elim (querytree_new S path false true false w)
        as (λ o.
          ResultKeeps false w.db o
          → KeepsOnFailure w (
              of_entries (elim o [
                | none ↦ none
                | some (q, w1) ↦
                    let (r, w2) = readdir_body S X q w1 in
                    some (r, (exit_operation S q w (r.0, w2)).1)
              ]))) [
                | none ↦ λ h. unfold of_entries in tt
                | some (q, w1) ↦ λ h.
                    let r = readdir_body S X q w1 in
                    unfold of_entries in
                    exit-keeps S q w (r.0.0, r.1)
                      (shift w w1 (some (r.0.0, r.1)) h.1 (readdir_body-keeps S X q w1))
              ]
      (querytree_new-keeps S path false true false w)
