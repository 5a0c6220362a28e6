-- ===== src/Fuse/ReadOnly.antt =====
-- The handlers that act on a file only (src/fuse_operations).
use mathlib.Core.Path.{subst}
use tagsistant.Base.{Text, Option, none, some, true, false, ◌≡◌, ◌∙◌, arith}
use tagsistant.Sql.{World, SysCall}
use tagsistant.Query.{QTree}
use tagsistant.Resolve.New.{Settings, querytree_new}
use tagsistant.Resolve.New.Preserves.{ResultKeeps, querytree_new-keeps}
use tagsistant.Fuse.{Reply, exit_operation, querytree_destroy}
use tagsistant.Fuse.Files.{
  run_handler, change_object, chmod, utime, utime_body, readlink, readlink_body,
}

abbrev pub KeepsDb : World → Option (Reply × World) → Type 0
KeepsDb before none = Unit
KeepsDb before (some r) = r.1.db ≡ before.db

pub exit_operation-db :
    (S : Settings) (q : QTree) (before : World) (r : Reply × World)
    → r.1.db ≡ before.db
    → (exit_operation S q before r).1.db ≡ before.db
unfolding exit_operation querytree_destroy
exit_operation-db S q before r h = ground arith

pub run_handler-db :
    (S : Settings) (body : QTree → World → Reply × World) (path : Text) (w : World)
    → ((q : QTree) (w1 : World) → (body q w1).1.db ≡ w1.db)
    → KeepsDb w (run_handler S body path w)
unfolding run_handler
run_handler-db S body path w kept =
    elim (querytree_new S path false true true w)
        as (λ o.
          ResultKeeps false w.db o
          → KeepsDb w
              (elim o [ none ↦ none | some (q, w1) ↦ some (exit_operation S q w (body q w1)) ])) [
                | none ↦ λ h. tt
                | some (q, w1) ↦ λ h. exit_operation-db S q w (body q w1) (kept q w1 ∙ h.1)
              ]
      (querytree_new-keeps S path false true true w)

pub change_object-db :
    (S : Settings) (call : Option Text → SysCall) (q : QTree) (w : World)
    → (change_object S call q w).1.db ≡ w.db
unfolding change_object
change_object-db S call q w = ground arith

pub utime_body-db : (S : Settings) (q : QTree) (w : World) → (utime_body S q w).1.db ≡ w.db
unfolding utime_body
utime_body-db S q w = ground arith

pub readlink_body-db : (S : Settings) (q : QTree) (w : World) → (readlink_body S q w).1.db ≡ w.db
unfolding readlink_body
readlink_body-db S q w = ground arith

-- chmod() changes nothing of the database, whether it fails or not.
chmod-db :
    (S : Settings) (path : Text) (w w' : World) (reply : Reply)
    → chmod S path w ≡ some (reply, w')
    → w'.db ≡ w.db
unfolding chmod
chmod-db S path w w' reply e =
    subst (KeepsDb w) e (run_handler-db S (change_object S _) path w (change_object-db S _))

-- readlink() changes nothing of the database, whether it fails or not.
readlink-db :
    (S : Settings) (path : Text) (w w' : World) (reply : Reply)
    → readlink S path w ≡ some (reply, w')
    → w'.db ≡ w.db
unfolding readlink
readlink-db S path w w' reply e =
    subst (KeepsDb w) e (run_handler-db S (readlink_body S) path w (readlink_body-db S))

-- utime() changes nothing of the database, whether it fails or not.
utime-db :
    (S : Settings) (path : Text) (w w' : World) (reply : Reply)
    → utime S path w ≡ some (reply, w')
    → w'.db ≡ w.db
unfolding utime
utime-db S path w w' reply e =
    subst (KeepsDb w) e (run_handler-db S (utime_body S) path w (utime_body-db S))
