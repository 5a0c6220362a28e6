-- ===== src/Fuse/Rmdir.antt =====
-- tagsistant_rmdir() of src/fuse_operations/rmdir.c.
use tagsistant.Base.{
  Text, Option, none, some, Bool, true, false, ◌&&◌, not, ◌==◌, if◌then◌else◌, is_some,
}
use tagsistant.Sql.{World, sys_rmdir}
use tagsistant.Sql.Tags.{delete_tag, untag_object, get_tag_id, execute, printf_s}
use tagsistant.Sql.Objects.{object_is_tagged, delete_object, delete_relation}
use tagsistant.Query.{QTree, malformed, store, tags, relations}
use tagsistant.Query.Paths.{is_valid_relation}
use tagsistant.Resolve.{check_tagging_consistency}
use tagsistant.Resolve.New.{Settings, querytree_new}
use tagsistant.Fuse.{
  Reply, success, failure, enoent, efault, erofs, system_call, querytree_traverse, exit_operation,
}

-- The object loses the tags of the path, and its row too if no tag is left. The flag is do_rmdir.
unfoldable untag_directory : Settings → QTree → World → Bool × World
unfolding querytree_traverse untag_object object_is_tagged delete_object execute
untag_directory S q w =
    let w1 = querytree_traverse (λ n k v. untag_object S.engine q.dbi n k v q.inode) q.tree w in
    if object_is_tagged S.engine q.dbi q.inode w1
    then (false, w1)
    else (true, execute q.dbi (delete_object q.inode) w1)

-- An incomplete query deletes the tags of its path.
unfoldable rmdir_store : Settings → QTree → World → Option (Reply × World)
unfolding untag_directory querytree_traverse delete_tag system_call
rmdir_store S q w = elim (check_tagging_consistency S.engine q w) [
  | none ↦ none
  | some q1 ↦
      let deleted = querytree_traverse (λ n k v. delete_tag S.engine q1.dbi n k v) q1.tree w in
      let (do_rmdir, untagged) = untag_directory S q1 w in
      let directory = system_call S (sys_rmdir q1.full_archive_path) in
      some (
        if not q1.complete
        then (success 0, deleted)
        else if not q1.is_taggable
        then directory w
        else if do_rmdir
        then directory untagged
        else (success 0, untagged))
]

unfoldable rmdir_relation : Settings → QTree → World → Reply × World
unfolding get_tag_id execute delete_relation printf_s
rmdir_relation S q w =
    let (tag1, w1) = get_tag_id S.engine q.dbi q.first_tag none none w in
    let (tag2, w2) = get_tag_id S.engine q.dbi q.second_tag none none w1 in
    if not (is_some q.second_tag)
    then (failure erofs, w)
    else if not (tag1 == 0) && not (tag2 == 0) && is_valid_relation q.relation
    then (success 0, execute q.dbi (delete_relation tag1 tag2 (printf_s q.relation)) w2)
    else (failure efault, w2)

unfoldable rmdir_tag : Settings → QTree → World → Reply × World
unfolding delete_tag
rmdir_tag S q w =
    if not (is_some q.first_tag) && not (is_some q.namespace)
    then (failure erofs, w)
    else if is_some q.first_tag
    then (success 0, delete_tag S.engine q.dbi q.first_tag none none w)
    else (success 0, delete_tag S.engine q.dbi q.namespace q.key q.value w)

unfoldable pub rmdir_body : Settings → QTree → World → Option (Reply × World)
unfolding rmdir_store rmdir_relation rmdir_tag
rmdir_body S q w = elim q.type [
  | malformed ↦ some (failure enoent, w)
  | store ↦ rmdir_store S q w
  | relations ↦ some (rmdir_relation S q w)
  | tags ↦ some (rmdir_tag S q w)
  | _ ↦ some (failure erofs, w)
]

unfoldable pub rmdir : Settings → Text → World → Option (Reply × World)
unfolding rmdir_body exit_operation querytree_new
rmdir S path w = elim (querytree_new S path true true false w) [
  | none ↦ none
  | some (q, w1) ↦ elim (rmdir_body S q w1) [
    | none ↦ none
    | some result ↦ some (exit_operation S q w result)
  ]
]
