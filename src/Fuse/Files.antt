-- ===== src/Fuse/Files.antt =====
-- The handlers that act on the file of an object: chmod, chown, truncate, utime and readlink
-- (src/fuse_operations).
use tagsistant.Base.{Text, Option, none, some, true, false, [], if◌then◌else◌, is_some}
use tagsistant.Sql.{World, SysCall, sys_chmod, sys_chown, sys_truncate, sys_utime, sys_readlink}
use tagsistant.Sql.Aliases.{alias_set}
use tagsistant.Sql.Tags.{printf_s}
use tagsistant.Query.{QTree, malformed, store, archive, alias}
use tagsistant.Resolve.New.{Settings, querytree_new}
use tagsistant.Fuse.{Reply, success, failure, enoent, einval, erofs, system_call, exit_operation}

-- A handler that never follows a NULL pointer, between the creation and the end of its query.
unfoldable pub run_handler :
    Settings → (QTree → World → Reply × World) → Text → World → Option (Reply × World)
unfolding querytree_new exit_operation
run_handler S body path w = elim (querytree_new S path false true true w) [
  | none ↦ none
  | some (q, w1) ↦ some (exit_operation S q w (body q w1))
]

-- chmod() and chown(): only objects have a mode and an owner.
unfoldable pub change_object : Settings → (Option Text → SysCall) → QTree → World → Reply × World
unfolding system_call
change_object S call q w =
    let on_object =
      if q.points_to_object
      then system_call S (call q.full_archive_path) w
      else (failure erofs, w) in
    elim q.type [ malformed ↦ (failure enoent, w) | _ ↦ on_object ]

unfoldable pub chmod : Settings → Text → World → Option (Reply × World)
unfolding run_handler change_object
chmod S = run_handler S (change_object S sys_chmod)

unfoldable pub chown : Settings → Text → World → Option (Reply × World)
unfolding run_handler change_object
chown S = run_handler S (change_object S sys_chown)

-- truncate() empties an alias.
unfoldable pub truncate_body : Settings → QTree → World → Reply × World
unfolding system_call alias_set printf_s
truncate_body S q w =
    let on_alias =
      if is_some q.alias
      then (success 0, alias_set q.dbi (printf_s q.alias) [] w)
      else (failure erofs, w) in
    let other : Reply × World = elim q.type [ alias ↦ on_alias | _ ↦ (failure erofs, w) ] in
    let checked =
      if q.points_to_object then system_call S (sys_truncate q.full_archive_path) w else other in
    elim q.type [ malformed ↦ (failure enoent, w) | _ ↦ checked ]

unfoldable pub truncate : Settings → Text → World → Option (Reply × World)
unfolding run_handler truncate_body
truncate S = run_handler S (truncate_body S)

-- utime() on anything but an object sets the times of archive/.
unfoldable pub utime_body : Settings → QTree → World → Reply × World
unfolding system_call
utime_body S q w =
    let path = if q.points_to_object then q.full_archive_path else some S.archive_dir in
    elim q.type [ malformed ↦ (failure enoent, w) | _ ↦ system_call S (sys_utime path) w ]

unfoldable pub utime : Settings → Text → World → Option (Reply × World)
unfolding run_handler utime_body
utime S = run_handler S (utime_body S)

unfoldable pub readlink_body : Settings → QTree → World → Reply × World
unfolding system_call
readlink_body S q w =
    let read = system_call S (sys_readlink q.full_archive_path) w in
    elim q.type [
      | malformed ↦ (failure enoent, w)
      | archive ↦ read
      | store ↦ if q.complete then read else (failure einval, w)
      | _ ↦ (failure einval, w)
    ]

unfoldable pub readlink : Settings → Text → World → Option (Reply × World)
unfolding run_handler readlink_body
readlink S = run_handler S (readlink_body S)
