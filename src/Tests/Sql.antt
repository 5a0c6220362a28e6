-- ===== src/Tests/Sql.antt =====
-- The theorems on src/sql.c at concrete tables.
use tagsistant.Base.{
  List, ◌∷◌, codes, some, true, false, [], ◌≡◌, refl, arith, ◌≢◌, ◌&&◌, ◌||◌, not, ◌==◌, str_eq,
  contains, any, is_some,
}
use tagsistant.Base.Dict.{lookup}
use tagsistant.Sql.Engine.{sample_engine}
use tagsistant.Sql.Tags.{tag_object, untag_object, get_tag_id, tag_ids, delete_tag}
use tagsistant.Sql.Tags.Consistency.{IsConsistent, has_id}
use tagsistant.Sql.Tags.Cache.{key_of}
use tagsistant.Sql.Tags.Creation.{tag_object-IsConsistent}
use tagsistant.Sql.Tags.Deletion.{is_used, delete_tag-is_used}
use tagsistant.Sql.Tags.Tagging.{is_tagged, tag_object-is_tagged, untag_object-is_tagged}
use tagsistant.Sql.Aliases.Refinement.{
  AliasOp, create, set, delete, alias_map, run_aliases, change_all, run_aliases-change_all,
}
use tagsistant.Query.{QTree, new_qtree}
use tagsistant.Fuse.{querytree_destroy}
use tagsistant.Fuse.Rollback.{get_after_rollback}
use tagsistant.Sql.Tags.{is_tag}
use tagsistant.Tests.{sample_settings, sample_world}

sample_world-IsConsistent : IsConsistent sample_world
unfolding tag_ids contains any lookup
sample_world-IsConsistent = record {
  ids = ground arith;
  below = ground arith;
  cached = λ key id h. ground (arith, h);
  tagged = (refl, (refl, (refl, tt)));
}

-- Tagging the first object with the second tag.
tag_object-IsConsistent_example :
    IsConsistent
      (tag_object sample_engine true (some (codes "live")) (some []) (some []) 1 sample_world)
tag_object-IsConsistent_example =
    tag_object-IsConsistent sample_engine (codes "live") [] [] 1 sample_world
      sample_world-IsConsistent (ground arith)

tag_object-is_tagged_example :
    let w' =
      tag_object sample_engine true (some (codes "live")) (some []) (some []) 1 sample_world in
    let id = (get_tag_id sample_engine true (some (codes "live")) (some []) (some []) w').0 in
    (id ≢ 0)
    × (has_id id w' ≡ true)
    × ((is_some (lookup (key_of (some (codes "live")) (some []) (some [])) sample_world.tag_cache)
          || any (is_tag (codes "live") [] []) w'.tags)
        ≡ true)
    × (is_tagged 1 2 w' ≡ (is_tagged 1 2 sample_world || (1 == 1 && 2 == id)))
tag_object-is_tagged_example =
    tag_object-is_tagged sample_engine (codes "live") [] [] 1 1 2 sample_world
      sample_world-IsConsistent (ground arith)

untag_object-is_tagged_example :
    let id =
      (get_tag_id sample_engine true (some (codes "live")) (some []) (some []) sample_world).0 in
    is_tagged 2 2
      (untag_object sample_engine true (some (codes "live")) (some []) (some []) 2 sample_world)
    ≡ (is_tagged 2 2 sample_world && not (2 == 2 && 2 == id))
untag_object-is_tagged_example =
    untag_object-is_tagged sample_engine (codes "live") [] [] 2 2 2 sample_world

-- The second object has the tag that is deleted.
delete_tag-is_used_example :
    let w' = delete_tag sample_engine true (some (codes "live")) (some []) (some []) sample_world in
    let id =
      (get_tag_id sample_engine true (some (codes "live")) (some []) (some []) sample_world).0 in
    ((get_tag_id sample_engine true (some (codes "live")) (some []) (some []) w').0 ≡ 0)
    × (is_used id w' ≡ false)
delete_tag-is_used_example = delete_tag-is_used sample_engine (codes "live") [] [] sample_world

abbrev alias_ops : List AliasOp
alias_ops = create (codes "x") ∷ set (codes "x") (codes "rock/") ∷ delete (codes "y") ∷ []

run_aliases-change_all_example :
    alias_map (run_aliases alias_ops sample_world) ≡ change_all alias_ops (alias_map sample_world)
run_aliases-change_all_example = run_aliases-change_all alias_ops sample_world

abbrev transaction : QTree
transaction = record new_qtree { dbi = true; transaction_started = true }

-- A new tag whose object is not created after all.
get_after_rollback_example :
    let w =
      tag_object sample_engine true (some (codes "jazz")) (some []) (some []) 1 sample_world in
    let w' = querytree_destroy sample_settings false transaction sample_world w in
    ((get_tag_id sample_engine true (some (codes "jazz")) (some []) (some []) w').0 ≢ 0)
    × (any (is_tag (codes "jazz") [] []) w'.tags ≡ false)
unfolding any is_tag str_eq
get_after_rollback_example =
    get_after_rollback sample_settings transaction (codes "jazz") [] [] 1 sample_world refl refl
      sample_world-IsConsistent (ground arith) refl
