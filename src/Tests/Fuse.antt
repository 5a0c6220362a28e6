-- ===== src/Tests/Fuse.antt =====
-- The handlers at concrete paths, on a system on which every call fails.
use mathlib.Core.Bool.{false≢true}
use tagsistant.Base.{
  codes, Option, some, none, true, false, [], ◌∷◌, ◌≡◌, refl, is_some, select, any, str_eq,
}
use tagsistant.Base.Dict.{lookup, insert}
use tagsistant.Sql.Engine.{return_integer}
use tagsistant.Sql.Tags.{get_tag_id, tag_object, delete_tagging}
use tagsistant.Sql.Objects.{object_inodes, inodes_of, insert_object}
use tagsistant.Query.Paths.{
  is_all_path, split_path, is_triple_token, inode_extract_from_path, join_path,
}
use tagsistant.Query.Store.{parse_store}
use tagsistant.Query.Parsing.{append_next}
use tagsistant.Reasoner.{reasoner}
use tagsistant.Resolve.{
  guess_inode, guess_inode_from_and_set, check_node, check_single_tagging, is_open_triple,
  has_tagging, check_related, check_tagging_consistency,
}
use tagsistant.Resolve.Archive.{set_inode}
use tagsistant.Resolve.Expand.{expand_path}
use tagsistant.Sql.{World, failed_with}
use tagsistant.Query.{QTree, new_qtree, null, node, empty_tag}
use tagsistant.Resolve.New.{Settings}
use tagsistant.Fuse.{Reply, success, is_success, querytree_traverse}
use tagsistant.Fuse.Mkdir.{mkdir}
use tagsistant.Fuse.Files.{chmod}
use tagsistant.Requests.{handle, mkdir_request, chmod_request}
use tagsistant.Requests.Atomic.{handle-atomic, handle-db, is_link, is_read_only}
use tagsistant.Tests.{sample_settings, sample_environment, sample_world}

abbrev pub failing_settings : Settings
failing_settings = record sample_settings { system = λ calls call. failed_with 13 }

abbrev pub outcome : Option (Reply × World) → Reply × World
outcome none = (success 0, sample_world)
outcome (some r) = r

pub outcome_lem :
    (o : Option (Reply × World)) → is_some o ≡ true → o ≡ some ((outcome o).0, (outcome o).1)
outcome_lem none h = absurd (false≢true h)
outcome_lem (some r) h = refl

-- The object is created and tagged before the call fails.
abbrev failed_mkdir : Option (Reply × World)
failed_mkdir =
    handle failing_settings sample_environment (mkdir_request (codes "/store/rock/@/c"))
      sample_world

failed_mkdir_lem : (is_some failed_mkdir ≡ true) × (is_success (outcome failed_mkdir).0 ≡ false)
unfolding handle mkdir is_success lookup insert select any str_eq expand_path split_path parse_store
    is_triple_token inode_extract_from_path join_path guess_inode guess_inode_from_and_set
    append_next reasoner get_tag_id return_integer check_node check_single_tagging is_open_triple
    has_tagging check_related object_inodes inodes_of tag_object insert_object set_inode
    querytree_traverse check_tagging_consistency delete_tagging is_all_path
failed_mkdir_lem = (refl, refl)

handle-atomic_example : (outcome failed_mkdir).1.db ≡ sample_world.db
handle-atomic_example =
    handle-atomic failing_settings sample_environment (mkdir_request (codes "/store/rock/@/c"))
      sample_world (outcome failed_mkdir).1 (outcome failed_mkdir).0 (unfold is_link in refl)
      (outcome_lem failed_mkdir failed_mkdir_lem.0) failed_mkdir_lem.1

abbrev done_chmod : Option (Reply × World)
done_chmod =
    handle sample_settings sample_environment (chmod_request (codes "/store/rock/@/a")) sample_world

done_chmod_lem : is_some done_chmod ≡ true
unfolding handle chmod is_success lookup insert select any str_eq expand_path split_path parse_store
    is_triple_token inode_extract_from_path join_path guess_inode guess_inode_from_and_set
    append_next reasoner get_tag_id return_integer check_node check_single_tagging is_open_triple
    has_tagging check_related object_inodes inodes_of tag_object insert_object set_inode
    querytree_traverse check_tagging_consistency delete_tagging is_all_path
done_chmod_lem = refl

handle-db_example : (outcome done_chmod).1.db ≡ sample_world.db
handle-db_example =
    handle-db sample_settings sample_environment (chmod_request (codes "/store/rock/@/a"))
      sample_world (outcome done_chmod).1 (outcome done_chmod).0 (unfold is_read_only in refl)
      (outcome_lem done_chmod done_chmod_lem)

-- The first object has the tag of the path only.
abbrev first_object : QTree
first_object = record new_qtree {
  dbi = true;
  inode = 1;
  tree = node (record empty_tag { tag = some (codes "rock"); tag_id = 1 }) null null null ∷ [];
}
