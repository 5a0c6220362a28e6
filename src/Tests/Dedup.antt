-- ===== src/Tests/Dedup.antt =====
-- The merge of the two sample objects, which share a tag.
use tagsistant.Base.{true, false, not, ◌&&◌, ◌||◌, ◌==◌, if◌then◌else◌, ◌≡◌, arith}
use tagsistant.Sql.Tags.Tagging.{is_tagged}
use tagsistant.Query.{QTree, new_qtree}
use tagsistant.Dedup.{merge_objects}
use tagsistant.Dedup.Merge.{is_refused, merge_objects-is_tagged}
use tagsistant.Tests.{sample_world}

merge_objects-is_tagged_example : is_tagged 1 2 (merge_objects true 1 2 sample_world) ≡ (
    if 1 == 2
    then false
    else if 1 == 1
    then is_tagged 1 2 sample_world
      || (is_tagged 2 2 sample_world && not (is_refused 1 2 sample_world))
    else is_tagged 1 2 sample_world)
merge_objects-is_tagged_example = merge_objects-is_tagged 1 2 1 2 sample_world (ground arith)

abbrev second_object : QTree
second_object = record new_qtree { dbi = true; inode = 2 }
