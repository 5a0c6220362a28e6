-- ===== src/Query/Routes.antt =====
-- The parsers of src/path_resolution.c for the paths under tags/, relations/, stats/ and alias/.
-- A list of tokens stands for the token pointer: its head is the current token.
pub mod Preserves
use tagsistant.Base.{Text, none, some, Bool, true, false, List, [], ◌∷◌, if◌then◌else◌}
use tagsistant.Query.{QTree, malformed}
use tagsistant.Query.Paths.{is_triple_token, matches_relation_pattern}

-- tagsistant_querytree_parse_tags()
unfoldable pub parse_tags : List Text → QTree → QTree
parse_tags [] q = q
parse_tags (token ∷ rest) q =
    let flat : QTree = record q {
      namespace = none;
      key = none;
      value = none;
      first_tag = some token;
      second_tag = elim rest [ [] ↦ q.second_tag | t ∷ r ↦ some t ];
    } in
    let cleared = record q {
      first_tag = none;
      second_tag = none;
      last_tag = none;
      namespace = some token;
    } in
    let triple : QTree = elim rest [
      | [] ↦ cleared
      | k ∷ r ↦ elim r [
        | [] ↦ record cleared { key = some k }
        | v ∷ r' ↦ record cleared { key = some k; value = some v }
      ]
    ] in
    if is_triple_token token then triple else flat

-- What is left once a triple has been consumed, the current token not included.
unfoldable pub after_triple : List Text → List Text
after_triple [] = []
after_triple (k ∷ []) = []
after_triple (k ∷ v ∷ rest) = rest

-- tagsistant_querytree_parse_relations_consume_triple(), from the tokens behind the namespace.
unfoldable pub consume_triple : Bool → Text → List Text → QTree → QTree
consume_triple false ns [] q = record q { namespace = some ns; key = none; value = none }
consume_triple false ns (k ∷ []) q = record q { namespace = some ns; key = some k; value = none }
consume_triple false ns (k ∷ v ∷ rest) q = record q {
  namespace = some ns;
  key = some k;
  value = some v;
}
consume_triple true ns [] q = record q {
  related_namespace = some ns;
  related_key = none;
  related_value = none;
}
consume_triple true ns (k ∷ []) q = record q {
  related_namespace = some ns;
  related_key = some k;
  related_value = none;
}
consume_triple true ns (k ∷ v ∷ rest) q = record q {
  related_namespace = some ns;
  related_key = some k;
  related_value = some v;
  complete = true;
}

-- A relations/ path ends here, or it is malformed.
unfoldable pub check_end : List Text → QTree → QTree
check_end [] q = q
check_end (t ∷ rest) q = record q { type = malformed }

-- The right tag of a relation.
unfoldable pub parse_right_tag : List Text → QTree → QTree
unfolding after_triple consume_triple check_end
parse_right_tag [] q = q
parse_right_tag (token ∷ rest) q =
    if is_triple_token token
    then check_end (after_triple rest) (consume_triple true token rest q)
    else check_end rest (record q { second_tag = some token; complete = true })

-- The relation and what follows it. A relation that the pattern refuses ends the parse with 0.
unfoldable pub parse_relation : List Text → QTree → QTree
unfolding parse_right_tag
parse_relation [] q = q
parse_relation (token ∷ rest) q =
    if matches_relation_pattern token
    then parse_right_tag rest (record q { relation = some token })
    else q

-- tagsistant_querytree_parse_relations()
unfoldable pub parse_relations : List Text → QTree → QTree
unfolding parse_relation after_triple consume_triple
parse_relations [] q = q
parse_relations (token ∷ rest) q =
    if is_triple_token token
    then parse_relation (after_triple rest) (consume_triple false token rest q)
    else parse_relation rest (record q { first_tag = some token })

-- tagsistant_querytree_parse_stats()
unfoldable pub parse_stats : List Text → QTree → QTree
parse_stats [] q = q
parse_stats (token ∷ rest) q = record q { stats_path = some token; complete = true }

-- tagsistant_querytree_parse_alias()
unfoldable pub parse_alias : List Text → QTree → QTree
parse_alias [] q = q
parse_alias (token ∷ []) q = record q { alias = some token }
parse_alias (token ∷ t ∷ rest) q = record q { alias = some token; valid = false }
