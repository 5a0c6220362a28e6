-- ===== src/Fuse/Unlink.antt =====
-- tagsistant_unlink() of src/fuse_operations/unlink.c.
use tagsistant.Base.{Text, Option, none, some, Bool, true, false, if◌then◌else◌}
use tagsistant.Sql.{World, sys_unlink}
use tagsistant.Sql.Tags.{untag_object, execute, printf_s}
use tagsistant.Sql.Objects.{object_is_tagged, delete_object, full_untag_object}
use tagsistant.Sql.Aliases.{alias_delete}
use tagsistant.Query.{QTree, malformed, store, alias}
use tagsistant.Query.Paths.{is_all_path}
use tagsistant.Resolve.{check_tagging_consistency}
use tagsistant.Resolve.New.{Settings, querytree_new}
use tagsistant.Fuse.{
  Reply, success, failure, enoent, erofs, system_call, querytree_traverse, exit_operation,
}

-- The object loses the tags of the path, and its row too if no tag is left. The flag is do_unlink.
unfoldable pub untag_path : Settings → QTree → World → Bool × World
unfolding querytree_traverse untag_object object_is_tagged delete_object execute
untag_path S q w =
    let w1 = querytree_traverse (λ n k v. untag_object S.engine q.dbi n k v q.inode) q.tree w in
    if object_is_tagged S.engine q.dbi q.inode w1
    then (false, w1)
    else (true, execute q.dbi (delete_object q.inode) w1)

-- Under ALL the object goes with all its taggings.
unfoldable unlink_rows : Settings → QTree → World → Bool × World
unfolding untag_path full_untag_object delete_object execute
unlink_rows S q w =
    if is_all_path q.full_path
    then (true, execute q.dbi (full_untag_object q.inode) (execute q.dbi (delete_object q.inode) w))
    else untag_path S q w

unfoldable unlink_store : Settings → QTree → World → Option (Reply × World)
unfolding unlink_rows system_call
unlink_store S q w = elim (check_tagging_consistency S.engine q w) [
  | none ↦ none
  | some q1 ↦
      let (do_unlink, untagged) = unlink_rows S q1 w in
      let file = system_call S (sys_unlink q1.full_archive_path) in
      some (
        if q1.is_taggable
        then (if do_unlink then file untagged else (success 0, untagged))
        else file w)
]

unfoldable pub unlink_body : Settings → QTree → World → Option (Reply × World)
unfolding unlink_store alias_delete printf_s
unlink_body S q w = elim q.type [
  | malformed ↦ some (failure enoent, w)
  | store ↦ unlink_store S q w
  | alias ↦ some (success 0, alias_delete q.dbi (printf_s q.alias) w)
  | _ ↦ some (failure erofs, w)
]

unfoldable pub unlink : Settings → Text → World → Option (Reply × World)
unfolding unlink_body exit_operation querytree_new
unlink S path w = elim (querytree_new S path true true false w) [
  | none ↦ none
  | some (q, w1) ↦ elim (unlink_body S q w1) [
    | none ↦ none
    | some result ↦ some (exit_operation S q w result)
  ]
]
