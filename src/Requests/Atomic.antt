-- ===== src/Requests/Atomic.antt =====
-- What a request that fails, and a request that only reads, leave of the database.
use mathlib.Core.Path.{subst}
use tagsistant.Base.{◌≡◌, refl, Option, none, some, Bool, true, false}
use tagsistant.Sql.{World}
use tagsistant.Resolve.New.{Settings}
use tagsistant.Fuse.{Reply, is_success}
use tagsistant.Fuse.Mkdir.{mkdir, mkdir_body}
use tagsistant.Fuse.Rmdir.{rmdir, rmdir_body}
use tagsistant.Fuse.Unlink.{unlink, unlink_body}
use tagsistant.Fuse.Create.{mknod, mknod_body, symlink, symlink_body}
use tagsistant.Fuse.Files.{chmod, chown, utime, readlink, change_object, utime_body, readlink_body}
use tagsistant.Sql.{sys_chmod, sys_chown}
use tagsistant.Fuse.Atomic.{KeepsOnFailure, transact-keeps, rename-keeps, failed-keeps}
use tagsistant.Fuse.ReadOnly.{
  KeepsDb, run_handler-db, change_object-db, utime_body-db, readlink_body-db,
}
use tagsistant.Fuse.Getattr.{Stat}
use tagsistant.Fuse.Getattr.Preserves.{StatKeeps, getattr-keeps, access-keeps}
use tagsistant.Requests
use tagsistant.Requests.{Request, Environment, handle, of_stat}
use tagsistant.Requests.Steps.{
  KeepsDb-failure, truncate-keeps, open_file-keeps, write-keeps, readdir-keeps,
}
use tagsistant.Requests.Reads.{read-keeps, flush-keeps}

-- The requests that only read the database.
unfoldable pub is_read_only : Request → Bool
is_read_only (Requests.getattr_request path) = true
is_read_only (Requests.readlink_request path) = true
is_read_only (Requests.chmod_request path) = true
is_read_only (Requests.chown_request path) = true
is_read_only (Requests.utime_request path) = true
is_read_only (Requests.access_request path) = true
is_read_only (Requests.read_request path size offset fi) = true
is_read_only _ = false

unfoldable pub is_link : Request → Bool
is_link (Requests.link_request from to) = true
is_link _ = false

of_stat-keeps : (w : World) (o : Option (Stat × World)) → StatKeeps w.db o → KeepsDb w (of_stat o)
unfolding of_stat
of_stat-keeps w none h = tt
of_stat-keeps w (some (stat, w')) h = h

handle-KeepsDb :
    (S : Settings) (X : Environment) (r : Request) (w : World)
    → is_read_only r ≡ true
    → KeepsDb w (handle S X r w)
unfolding handle is_read_only
handle-KeepsDb S X (Requests.getattr_request path) w h = of_stat-keeps w _ (getattr-keeps S path w)
handle-KeepsDb S X (Requests.readlink_request path) w h =
    unfold readlink in run_handler-db S (readlink_body S) path w (readlink_body-db S)
handle-KeepsDb S X (Requests.chmod_request path) w h =
    unfold chmod in
    run_handler-db S (change_object S sys_chmod) path w (change_object-db S sys_chmod)
handle-KeepsDb S X (Requests.chown_request path) w h =
    unfold chown in
    run_handler-db S (change_object S sys_chown) path w (change_object-db S sys_chown)
handle-KeepsDb S X (Requests.utime_request path) w h =
    unfold utime in run_handler-db S (utime_body S) path w (utime_body-db S)
handle-KeepsDb S X (Requests.access_request path) w h = access-keeps S path w
handle-KeepsDb S X (Requests.read_request path size offset fi) w h =
    read-keeps S X.texts path size offset fi w
handle-KeepsDb S X (Requests.readdir_request path) w h = cc
handle-KeepsDb S X (Requests.mknod_request path) w h = cc
handle-KeepsDb S X (Requests.mkdir_request path) w h = cc
handle-KeepsDb S X (Requests.unlink_request path) w h = cc
handle-KeepsDb S X (Requests.rmdir_request path) w h = cc
handle-KeepsDb S X (Requests.truncate_request path) w h = cc
handle-KeepsDb S X (Requests.symlink_request from to) w h = cc
handle-KeepsDb S X (Requests.rename_request from to) w h = cc
handle-KeepsDb S X (Requests.link_request from to) w h = cc
handle-KeepsDb S X (Requests.open_request path fi) w h = cc
handle-KeepsDb S X (Requests.flush_request path fi) w h = cc
handle-KeepsDb S X (Requests.write_request path buf size fi) w h = cc

-- getattr(), readlink(), chmod(), chown(), utime(), access() and read() change nothing of the
-- database, whether they fail or not.
pub handle-db :
    (S : Settings) (X : Environment) (r : Request) (w w' : World) (reply : Reply)
    → is_read_only r ≡ true
    → handle S X r w ≡ some (reply, w')
    → w'.db ≡ w.db
handle-db S X r w w' reply h e = subst (KeepsDb w) e (handle-KeepsDb S X r w h)

handle-KeepsOnFailure :
    (S : Settings) (X : Environment) (r : Request) (w : World)
    → is_link r ≡ false
    → KeepsOnFailure w (handle S X r w)
unfolding handle is_link is_read_only
handle-KeepsOnFailure S X (Requests.getattr_request path) w h =
    KeepsDb-failure w _ (handle-KeepsDb S X (Requests.getattr_request path) w refl)
handle-KeepsOnFailure S X (Requests.readlink_request path) w h =
    KeepsDb-failure w _ (handle-KeepsDb S X (Requests.readlink_request path) w refl)
handle-KeepsOnFailure S X (Requests.readdir_request path) w h = readdir-keeps S X.sources path w
handle-KeepsOnFailure S X (Requests.chmod_request path) w h =
    KeepsDb-failure w _ (handle-KeepsDb S X (Requests.chmod_request path) w refl)
handle-KeepsOnFailure S X (Requests.chown_request path) w h =
    KeepsDb-failure w _ (handle-KeepsDb S X (Requests.chown_request path) w refl)
handle-KeepsOnFailure S X (Requests.utime_request path) w h =
    KeepsDb-failure w _ (handle-KeepsDb S X (Requests.utime_request path) w refl)
handle-KeepsOnFailure S X (Requests.access_request path) w h =
    KeepsDb-failure w _ (handle-KeepsDb S X (Requests.access_request path) w refl)
handle-KeepsOnFailure S X (Requests.read_request path size offset fi) w h =
    KeepsDb-failure w _ (handle-KeepsDb S X (Requests.read_request path size offset fi) w refl)
handle-KeepsOnFailure S X (Requests.mknod_request path) w h =
    unfold mknod in transact-keeps S (mknod_body S) path w
handle-KeepsOnFailure S X (Requests.mkdir_request path) w h =
    unfold mkdir in transact-keeps S (mkdir_body S) path w
handle-KeepsOnFailure S X (Requests.unlink_request path) w h =
    unfold unlink in transact-keeps S (unlink_body S) path w
handle-KeepsOnFailure S X (Requests.rmdir_request path) w h =
    unfold rmdir in transact-keeps S (rmdir_body S) path w
handle-KeepsOnFailure S X (Requests.truncate_request path) w h = truncate-keeps S path w
handle-KeepsOnFailure S X (Requests.symlink_request from to) w h =
    unfold symlink in transact-keeps S (symlink_body S from) to w
handle-KeepsOnFailure S X (Requests.rename_request from to) w h = rename-keeps S from to w
handle-KeepsOnFailure S X (Requests.link_request from to) w h = cc
handle-KeepsOnFailure S X (Requests.open_request path fi) w h = open_file-keeps S path fi w
handle-KeepsOnFailure S X (Requests.flush_request path fi) w h = flush-keeps S X.digest path fi w
handle-KeepsOnFailure S X (Requests.write_request path buf size fi) w h =
    write-keeps S path buf size fi w

-- A request that fails leaves the database as it was, whatever the request is, unless it is a link().
pub handle-atomic :
    (S : Settings) (X : Environment) (r : Request) (w w' : World) (reply : Reply)
    → is_link r ≡ false
    → handle S X r w ≡ some (reply, w')
    → is_success reply ≡ false
    → w'.db ≡ w.db
handle-atomic S X r w w' reply h e = failed-keeps w w' _ reply (handle-KeepsOnFailure S X r w h) e
