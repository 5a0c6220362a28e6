-- ===== src/Tests/Flush.antt =====
-- open() for writing and the flush() behind it (src/fuse_operations/open.c, flush.c) at a concrete
-- object.
use tagsistant.Base.{
  ◌∷◌, [], codes, some, none, true, false, ◌≡◌, refl, arith, any, str_eq, Option, is_some, select,
}
use mathlib.Core.Bool.{false≢true}
use tagsistant.Query.Parsing.{append_next}
use tagsistant.Base.Dict.{lookup, insert}
use tagsistant.Sql.{World}
use tagsistant.Sql.Engine.{sample_engine, return_integer}
use tagsistant.Sql.Tags.{get_tag_id}
use tagsistant.Sql.Objects.{object_inodes, inodes_of}
use tagsistant.Query.{QTree, new_qtree, null, node, empty_tag}
use tagsistant.Query.Paths.{
  inode_extract_from_path, join_path, split_path, is_triple_token, has_substring, starts_with,
  ends_with,
}
use tagsistant.Query.Store.{parse_store}
use tagsistant.Resolve.{
  guess_inode, guess_inode_from_and_set, check_node, check_single_tagging, is_open_triple,
  has_tagging, check_related, check_tagging_consistency,
}
use tagsistant.Resolve.Expand.{expand_path}
use tagsistant.Resolve.Archive.{rebuild_paths, set_object_path, set_inode}
use tagsistant.Resolve.New.{querytree_new, build_tokens, parse_by_type}
use tagsistant.Fuse.{success, exit_operation}
use tagsistant.Fuse.Handles.{FileInfo, opened, invalidate_checksum, close_handle}
use tagsistant.Dedup.Flush.{flush, deduplicate}
use tagsistant.Dedup.Flush.Scheduling.{flush-opened}
use tagsistant.Tests.{sample_settings, sample_world, sample_environment}

abbrev file : FileInfo
file = record { o_wronly = true; o_rdwr = false; fh = 0; keep_cache = false }

-- The first object below its tag.
abbrev opening : QTree
opening = record new_qtree {
  dbi = true;
  inode = 1;
  object_path = some (codes "a");
  tree = node (record empty_tag { tag = some (codes "rock"); tag_id = 1 }) null null null ∷ [];
}

opening_lem :
    check_tagging_consistency sample_engine opening sample_world
    ≡ some (record opening { exists = true; is_taggable = true })
unfolding check_tagging_consistency guess_inode guess_inode_from_and_set check_node
    check_single_tagging is_open_triple has_tagging check_related object_inodes inodes_of
    return_integer lookup select str_eq any get_tag_id
opening_lem = refl

-- The world that open() leaves.
abbrev written : World
written = invalidate_checksum true 1 sample_world

opened_lem :
    opened sample_settings 7 opening file sample_world
    ≡ some (success 0, (record file { fh = 7 }, written))
unfolding opened check_tagging_consistency guess_inode guess_inode_from_and_set check_node
    check_single_tagging is_open_triple has_tagging check_related object_inodes inodes_of
    return_integer lookup select str_eq any get_tag_id
opened_lem = refl

abbrev flushing : Option (QTree × World)
flushing = querytree_new sample_settings (codes "/store/rock/@/a") false true true written

abbrev result_of : Option (QTree × World) → QTree × World
result_of none = (new_qtree, sample_world)
result_of (some r) = r

result_of_lem :
    (o : Option (QTree × World)) → is_some o ≡ true → o ≡ some ((result_of o).0, (result_of o).1)
result_of_lem none h = absurd (false≢true h)
result_of_lem (some r) h = refl

flush-opened_example :
    let (q2, w3) = result_of flushing in
    let (fi3, w4) = close_handle (record file { fh = 7 }) w3 in
    let ended = (exit_operation sample_settings q2 written (success 0, w4)).1 in
    flush sample_settings sample_environment.digest
      (codes "/store/rock/@/a")
      (record file { fh = 7 })
      ([], written)
    ≡ (elim (deduplicate sample_settings sample_environment.digest
        (codes "/store/rock/@/a")
        ([], ended)) [ none ↦ none | some queued ↦ some ((success 0, fi3), queued) ])
unfolding querytree_new expand_path split_path str_eq parse_store is_triple_token
    inode_extract_from_path join_path guess_inode guess_inode_from_and_set append_next get_tag_id
    lookup return_integer select insert any has_substring starts_with ends_with build_tokens
    parse_by_type check_node check_single_tagging is_open_triple has_tagging rebuild_paths
    set_object_path set_inode invalidate_checksum
flush-opened_example =
    flush-opened sample_settings sample_environment.digest 7 (codes "a") (codes "/store/rock/@/a")
      opening (record opening { exists = true; is_taggable = true }) (result_of flushing).0 file
      (record file { fh = 7 }) (record file { fh = 7 }) [] sample_world written written
      (result_of flushing).1 (success 0) opening_lem refl refl refl (ground arith) opened_lem refl
      (result_of_lem flushing refl) (ground arith) refl refl refl
