-- ===== src/Tests/Linking.antt =====
-- link() at concrete paths, on a system on which every call fails.
use mathlib.Core.Bool.{false≢true}
use tagsistant.Base.{
  codes, Option, some, none, true, false, ◌≡◌, refl, is_some, select, any, str_eq,
}
use tagsistant.Base.Dict.{lookup, insert}
use tagsistant.Sql.Engine.{return_integer}
use tagsistant.Sql.Tags.{get_tag_id, tag_object, delete_tagging}
use tagsistant.Sql.Objects.{object_inodes, inodes_of, insert_object}
use tagsistant.Query.Paths.{
  is_all_path, split_path, is_triple_token, inode_extract_from_path, join_path,
}
use tagsistant.Query.Store.{parse_store}
use tagsistant.Query.Parsing.{append_next}
use tagsistant.Reasoner.{reasoner}
use tagsistant.Resolve.{
  guess_inode, guess_inode_from_and_set, check_node, check_single_tagging, is_open_triple,
  has_tagging, check_related, check_tagging_consistency,
}
use tagsistant.Resolve.Archive.{set_inode}
use tagsistant.Resolve.Expand.{expand_path}
use tagsistant.Sql.{World}
use tagsistant.Query.{QTree, new_qtree}
use tagsistant.Resolve.New.{querytree_new}
use tagsistant.Fuse.{Reply, querytree_traverse}
use tagsistant.Fuse.Create.{link, link_body, inner_path}
use tagsistant.Fuse.Linking.{link-db}
use tagsistant.Tests.{sample_world}
use tagsistant.Tests.Fuse.{failing_settings, outcome, outcome_lem}

abbrev query_result : Option (QTree × World) → QTree × World
query_result none = (new_qtree, sample_world)
query_result (some r) = r

query_result_lem :
    (o : Option (QTree × World))
    → is_some o ≡ true
    → o ≡ some ((query_result o).0, (query_result o).1)
query_result_lem none h = absurd (false≢true h)
query_result_lem (some r) h = refl

-- The query of the source, without a connection, and the query of the link.
abbrev source_query : Option (QTree × World)
source_query =
    querytree_new failing_settings (inner_path failing_settings (codes "/store/rock/@/a")) true
      false false sample_world

abbrev link_query : Option (QTree × World)
link_query =
    querytree_new failing_settings (codes "/store/rock/@/c") false true false
      (query_result source_query).1

abbrev linked : Option (Reply × World)
linked =
    link_body failing_settings (codes "/store/rock/@/a") (query_result source_query).0
      (query_result link_query).0 (query_result link_query).1

linked_lem : (is_some source_query ≡ true) × ((is_some link_query ≡ true) × (is_some linked ≡ true))
unfolding querytree_new inner_path link_body lookup insert select any str_eq expand_path split_path
    parse_store is_triple_token inode_extract_from_path join_path guess_inode
    guess_inode_from_and_set append_next reasoner get_tag_id return_integer check_node
    check_single_tagging is_open_triple has_tagging check_related object_inodes inodes_of tag_object
    insert_object set_inode querytree_traverse check_tagging_consistency delete_tagging is_all_path
linked_lem = (refl, (refl, refl))

-- The object of the link stays in the database, though the call of link() fails.
link-db_example :
    (w' : World) × ((link failing_settings
          (codes "/store/rock/@/a")
          (codes "/store/rock/@/c")
          sample_world
        ≡ some ((outcome linked).0, w'))
      × (w'.db ≡ (outcome linked).1.db))
link-db_example =
    link-db failing_settings (codes "/store/rock/@/a") (codes "/store/rock/@/c") sample_world
      (query_result source_query).1 (query_result link_query).1 (outcome linked).1
      (query_result source_query).0 (query_result link_query).0 (outcome linked).0
      (query_result_lem source_query linked_lem.0) (query_result_lem link_query linked_lem.1.0)
      (outcome_lem linked linked_lem.1.1)
