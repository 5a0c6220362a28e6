-- ===== src/Tests/Resolve.antt =====
-- Queries and their objects at concrete paths.
use tagsistant.Base.{
  ℕ, Text, codes, Option, some, none, true, false, [], ◌∷◌, ◌≡◌, refl, arith, is_some, str_eq,
  select, any,
}
use mathlib.Core.Bool.{false≢true}
use tagsistant.Base.Dict.{lookup, insert}
use tagsistant.Resolve.Expand.{expand_path}
use tagsistant.Query.Store.{parse_store}
use tagsistant.Query.Parsing.{append_next}
use tagsistant.Sql.Tags.{get_tag_id}
use tagsistant.Sql.Objects.{object_inodes}
use tagsistant.Reasoner.{reasoner}
use tagsistant.Sql.{World}
use tagsistant.Sql.Engine.{sample_engine, return_integer}
use tagsistant.Query.{QTree, AndTag, AndNode, null, node, empty_tag, new_qtree}
use tagsistant.Query.Paths.{
  inode_extract_from_path, join_path, split_path, is_triple_token, has_substring, starts_with,
  ends_with,
}
use tagsistant.Resolve.{
  guess_inode, guess_inode_from_and_set, check_node, check_single_tagging, is_open_triple,
  has_tagging, check_related,
}
use tagsistant.Resolve.New.{querytree_new, resolve_store, build_tokens, parse_by_type}
use tagsistant.Resolve.New.Preserves.{querytree_new-db}
use tagsistant.Resolve.New.Findings.{resolve_store-inode, resolve_store_crash}
use tagsistant.Resolve.Guess.{is_ordinary, satisfies, guess-satisfies, guess_inode-satisfies}
use tagsistant.Resolve.Exclusions.{guess-excludes, guess-ignores, first_exclusion_only}
use tagsistant.Tests.{sample_settings, sample_world}

abbrev result_of : Option (QTree × World) → QTree × World
result_of none = (new_qtree, sample_world)
result_of (some r) = r

abbrev store_query : Option (QTree × World)
store_query = querytree_new sample_settings (codes "/store/rock/@/a") true true false sample_world

result_of_lem :
    (o : Option (QTree × World)) → is_some o ≡ true → o ≡ some ((result_of o).0, (result_of o).1)
result_of_lem none h = absurd (false≢true h)
result_of_lem (some r) h = refl

store_query-is_some : is_some store_query ≡ true
unfolding querytree_new expand_path split_path str_eq parse_store is_triple_token
    inode_extract_from_path join_path guess_inode guess_inode_from_and_set append_next reasoner
    get_tag_id lookup return_integer select insert any has_substring starts_with ends_with
    build_tokens parse_by_type check_node check_single_tagging is_open_triple has_tagging
store_query-is_some = refl

querytree_new-db_example : (result_of store_query).1.db ≡ sample_world.db
querytree_new-db_example =
    querytree_new-db sample_settings (codes "/store/rock/@/a") true true false sample_world
      (result_of store_query).1 (result_of store_query).0
      (result_of_lem store_query store_query-is_some)

abbrev tag_node : Text → ℕ → AndNode → AndNode → AndNode
tag_node name id negated next =
    node (record empty_tag { tag = some name; tag_id = id }) null negated next

-- The first object does not have the tag of the query.
abbrev live_query : QTree
live_query = record new_qtree {
  complete = true;
  dbi = true;
  tree = tag_node (codes "live") 2 null null ∷ [];
}

resolve_store-inode_example :
    (r : QTree × World) × (resolve_store sample_settings
        (codes "1___a" ∷ [])
        live_query
        sample_world
      ≡ some r)
    × (r.0.inode ≡ inode_extract_from_path (join_path (codes "1___a" ∷ [])))
unfolding inode_extract_from_path join_path
resolve_store-inode_example =
    resolve_store-inode sample_settings (codes "1___a" ∷ []) live_query sample_world refl
      (ground arith)

resolve_store_crash_example :
    resolve_store sample_settings
      (codes "a" ∷ [])
      (record new_qtree { complete = true; dbi = true; tree = null ∷ [] })
      sample_world
    ≡ none
unfolding inode_extract_from_path join_path
resolve_store_crash_example =
    resolve_store_crash sample_settings (codes "a") [] []
      (record new_qtree { complete = true; dbi = true; tree = null ∷ [] }) sample_world refl refl
      refl refl

guess-satisfies_example :
    satisfies (codes "a") 1 (tag_node (codes "rock") 1 null null) sample_world ≡ true
unfolding guess_inode_from_and_set check_node check_single_tagging is_open_triple has_tagging str_eq
    return_integer select any is_ordinary object_inodes
guess-satisfies_example =
    guess-satisfies sample_engine (tag_node (codes "rock") 1 null null) 1 (codes "a") sample_world
      (ground arith) refl refl (ground arith)

guess-excludes_example :
    check_node sample_engine true
      (record empty_tag { tag = some (codes "live"); tag_id = 2 })
      null
      (codes "a")
      sample_world
    ≡ 0
unfolding guess_inode_from_and_set check_node check_single_tagging is_open_triple has_tagging str_eq
    return_integer select any is_ordinary check_related
guess-excludes_example =
    guess-excludes sample_engine (record empty_tag { tag = some (codes "rock"); tag_id = 1 })
      (record empty_tag { tag = some (codes "live"); tag_id = 2 }) null null null null null 1
      (codes "a") sample_world refl refl (ground arith)

abbrev rock : AndTag
rock = record empty_tag { tag = some (codes "rock"); tag_id = 1 }

abbrev live : AndTag
live = record empty_tag { tag = some (codes "live"); tag_id = 2 }

-- The tag live is excluded behind the second tag, and as the second exclusion of the first one.
abbrev excluding : AndNode
excluding =
    node rock null (node empty_tag null (node live null null null) null)
      (node rock null (node live null null null) null)

guess-ignores_example :
    guess_inode_from_and_set sample_engine true excluding (codes "b") sample_world
    ≡ guess_inode_from_and_set sample_engine true
        (first_exclusion_only excluding)
        (codes "b")
        sample_world
guess-ignores_example = guess-ignores sample_engine true excluding (codes "b") sample_world

guess_inode-satisfies_example :
    any
      (λ (c : AndNode). satisfies (codes "a") 1 c sample_world)
      (node live null null null ∷ node rock null null null ∷ [])
    ≡ true
unfolding guess_inode check_related guess_inode_from_and_set check_node check_single_tagging
    is_open_triple has_tagging str_eq return_integer select any is_ordinary object_inodes
guess_inode-satisfies_example =
    guess_inode-satisfies sample_engine (node live null null null ∷ node rock null null null ∷ []) 1
      (codes "a") sample_world (ground arith) (refl, (refl, tt)) refl (ground arith)
