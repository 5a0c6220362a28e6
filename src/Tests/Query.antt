-- ===== src/Tests/Query.antt =====
-- The parser, the reasoner and the tags of archive/ at concrete paths.
use tagsistant.Base.{
  ◌+◌, codes, some, true, List, [], ◌∷◌, ◌++◌, ◌≡◌, refl, arith, map, str_eq, length, is_some,
}
use tagsistant.Sql.{World}
use tagsistant.Sql.Engine.{sample_engine}
use tagsistant.Query.{QTree, null, node, empty_tag, new_qtree}
use tagsistant.Query.Paths.{is_triple_token, ends_with, inode_extract_from_path, strip_inode}
use tagsistant.Query.Store.{parse_store, parse_tokens}
use tagsistant.Query.Parsing.{Parsing, parsed, segfault, idle, add_to_node, dont_add}
use tagsistant.Query.Store.Steps.{is_plain}
use tagsistant.Query.Store.Grammar.{Element, print_query, elements, alone}
use tagsistant.Query.Store.RoundTrip.{parse_store-print_query}
use tagsistant.Query.Store.Errors.{parse_tokens-crash}
use tagsistant.Reasoner.{reasoner, reasoner_inner}
use tagsistant.Reasoner.Distinct.{is_distinct, reasoner-is_distinct}
use tagsistant.Reasoner.Termination.{reasoner_ends}
use tagsistant.Resolve.Archive.{archive_name}
use tagsistant.Resolve.Archive.RoundTrip.{inode_extract-archive_name}
use tagsistant.Tests.{sample_world}

-- {rock/live}, without jazz, or blues.
abbrev first_set : List Element
first_set =
    record { tag = codes "rock"; related = codes "live" ∷ []; excluded = codes "jazz" ∷ [] } ∷ []

abbrev second_set : List Element
second_set = alone (codes "blues") ∷ []

abbrev grouping : Parsing
grouping = record {
  qtree = new_qtree;
  closed = [];
  current = node empty_tag null null null;
  group = add_to_node;
  world = sample_world;
}

parse_store-print_query_example :
    (q' : QTree) × ((w' : World) × ((parse_store sample_engine
            (codes "/store/blues/@/x")
            true
            (print_query first_set (second_set ∷ []) ++ codes "@" ∷ codes "x" ∷ [])
            new_qtree
            sample_world
          ≡ parsed q' (codes "x" ∷ []) w')
        × (map elements q'.tree ≡ first_set ∷ second_set ∷ [])))
unfolding is_plain is_triple_token ends_with str_eq
parse_store-print_query_example =
    parse_store-print_query sample_engine (codes "/store/blues/@/x") (codes "@") first_set
      (second_set ∷ []) (codes "x" ∷ []) new_qtree sample_world
      (((refl, (refl, tt)), (refl, tt)), tt) ((((refl, tt), tt), tt), tt) refl refl refl

abbrev negating : Parsing
negating = record grouping {
  qtree = record new_qtree { negate_next_tag = true };
  current = null;
  group = dont_add;
}

parse_tokens-crash_example :
    parse_tokens sample_engine idle [] (codes "+" ∷ codes "rock" ∷ []) grouping ≡ segfault
unfolding is_plain is_triple_token ends_with str_eq
parse_tokens-crash_example =
    parse_tokens-crash sample_engine [] (codes "rock") [] grouping refl refl refl

reasoner_ends_example :
    is_some (
      reasoner_inner
        (length sample_world.tags + 2)
        sample_engine
        true
        0
        (node (record empty_tag { tag = some (codes "rock"); tag_id = 1 }) null null null)
        sample_world)
    ≡ true
reasoner_ends_example =
    reasoner_ends sample_engine true (record empty_tag { tag = some (codes "rock"); tag_id = 1 })
      sample_world

inode_extract-archive_name_example :
    (inode_extract_from_path (archive_name 307 (codes "song")) ≡ 307)
    × (strip_inode (archive_name 307 (codes "song")) ≡ codes "song")
inode_extract-archive_name_example = inode_extract-archive_name 307 (codes "song") (ground arith)

reasoner-is_distinct_example :
    is_distinct
      (reasoner sample_engine true
        (node (record empty_tag { tag = some (codes "rock"); tag_id = 1 }) null null null)
        sample_world).0
    ≡ true
reasoner-is_distinct_example =
    reasoner-is_distinct sample_engine true
      (record empty_tag { tag = some (codes "rock"); tag_id = 1 }) sample_world
