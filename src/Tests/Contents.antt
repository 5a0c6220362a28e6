-- ===== src/Tests/Contents.antt =====
-- What directories, files and aliases hold, at concrete queries.
use tagsistant.Base.{
  codes, some, true, false, [], ◌∷◌, ◌≡◌, ◌≤◌, ◌<◌, refl, arith, any, str_eq, length, ◌&&◌, ◌||◌,
  if◌then◌else◌,
}
use tagsistant.Sql.{World}
use tagsistant.Sql.Engine.{sample_engine}
use tagsistant.Sql.Objects.{is_relation}
use tagsistant.Sql.Aliases.{alias_exists, alias_create}
use tagsistant.Query.{QTree, new_qtree, null, node, empty_tag}
use tagsistant.Query.Paths.{is_valid_relation, is_all_path, has_substring, ends_with, starts_with}
use tagsistant.Fuse.{success}
use tagsistant.Fuse.Target.{valid_relation}
use tagsistant.Fuse.Getattr.Relations.{valid_relation_iff}
use tagsistant.Fuse.Filler.{fill_all}
use tagsistant.Fuse.NextTokens.{readdir_on_store, dots}
use tagsistant.Fuse.Listing.{readdir_on_relations}
use tagsistant.Fuse.Listing.Tags.{lists, readdir_on_relations_empty}
use tagsistant.Fuse.Listing.Store.{is_listed_tag, is_listed_alias, lists-readdir_on_store}
use tagsistant.Fuse.Handles.{FileInfo}
use tagsistant.Fuse.Reading.{read_alias}
use tagsistant.Fuse.Writing.{alias_value, alias_max_length, write_alias}
use tagsistant.Fuse.Writing.Aliases.{alias_value_bounds, read_alias-write_alias, is_plain_query}
use tagsistant.Tests.{sample_settings, sample_sources, sample_world}

abbrev connected : QTree
connected = record new_qtree { dbi = true }

-- Two and-sets, of the tag rock and of no tag.
abbrev second_set : QTree
second_set = record connected {
  full_path = codes "/store/rock/+";
  tree =
      node (record empty_tag { tag = some (codes "rock"); tag_id = 1 }) null null null ∷ null ∷ [];
}

lists-readdir_on_store_example :
    lists (readdir_on_store sample_settings sample_sources second_set sample_world).0 (codes "rock")
    ≡ (str_eq (codes "rock") (codes "ALL")
        || any (is_listed_tag null (codes "rock")) sample_world.tags
        || any (is_listed_alias null (codes "rock")) sample_world.aliases)
unfolding any is_all_path has_substring ends_with starts_with str_eq
lists-readdir_on_store_example =
    lists-readdir_on_store sample_settings sample_sources second_set
      (node (record empty_tag { tag = some (codes "rock"); tag_id = 1 }) null null null ∷ []) null
      sample_world (codes "rock") (λ buf entry. refl) refl refl refl refl refl refl refl refl refl

-- The sample relation of rock to live.
abbrev including : QTree
including = record connected { relation = some (codes "includes") }

readdir_on_relations_empty_example :
    readdir_on_relations sample_settings sample_sources including sample_world
    ≡ fill_all sample_sources dots []
readdir_on_relations_empty_example =
    readdir_on_relations_empty sample_settings sample_sources including sample_world refl

valid_relation_iff_example : valid_relation sample_engine including 1 2 sample_world ≡ (
    if is_valid_relation (some (codes "includes"))
      && any (is_relation 1 2 (codes "includes")) sample_world.relations
    then 1
    else 0)
valid_relation_iff_example =
    valid_relation_iff sample_engine including (codes "includes") 1 2 sample_world refl refl

alias_value_bounds_example :
    (length (alias_value (codes "a//b\n") 5) < alias_max_length)
    × (length (alias_value (codes "a//b\n") 5) ≤ 5)
alias_value_bounds_example = alias_value_bounds (codes "a//b\n") 5

abbrev query_alias : QTree
query_alias = record connected { alias = some (codes "x") }

abbrev file : FileInfo
file = record { o_wronly = true; o_rdwr = false; fh = 0; keep_cache = false }

abbrev aliased : World
aliased = alias_create true (codes "x") sample_world

read_alias-write_alias_example :
    let w' = (write_alias (codes "rock/+/") 7 (codes "x") query_alias file aliased).1.1 in
    read_alias 4096 query_alias file w'
    ≡ some ((success (length (codes "rock/+/")), some (codes "rock/+/")), (file, w'))
unfolding alias_exists alias_create any is_plain_query str_eq
read_alias-write_alias_example =
    read_alias-write_alias (codes "rock/+/") (codes "x") 7 4096 query_alias file file aliased refl
      refl (ground arith) (ground arith) (ground arith) (ground arith) (ground arith)
