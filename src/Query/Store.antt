-- ===== src/Query/Store.antt =====
-- tagsistant_querytree_parse_store() of src/path_resolution.c: the query between store/ and @/.
-- The loop walks the tokens; `Pending` is the point inside the nested ifs of a triple tag at which
-- the next token is awaited. `last_and` is the last node of the current and-set, or NULL with it.
pub mod Signs
pub mod Errors
pub mod Preserves
pub mod Steps
pub mod Grammar
pub mod Reading
pub mod RoundTrip
use tagsistant.Base.{
  ℕ, Text, codes, Option, none, some, Bool, true, false, ◌&&◌, ◌||◌, not, List, [], ◌∷◌, ◌++◌,
  str_eq, ◌==◌, if◌then◌else◌, is_some,
}
use tagsistant.Sql.{World}
use tagsistant.Sql.Engine.{Engine}
use tagsistant.Sql.Tags.{get_tag_id}
use tagsistant.Query.{
  QTree, AndTag, AndNode, null, node, empty_tag, Operator, greater_than, smaller_than, equal_to,
  contains_text, ErrorMessage, nested_tag_group, close_tag_group_not_opened, double_negation,
  negation_inside_tag_group, negation_on_first_position,
}
use tagsistant.Query.Paths.{has_substring, is_triple_token}
use tagsistant.Reasoner.{append_related, append_negated, reasoner}
use tagsistant.Query.Parsing.{
  TagGroup, dont_add, add_to_node, add_new_node, Parsing, Progress, going, aborted, crashed,
  Outcome, parsed, failed, segfault, Pending, idle, want_key, want_operator, want_value, abort,
  at_last, append_next, is_null, wants_reasoning, reason_if_wanted, add_node,
}

unfoldable pub finish_triple : Engine → AndTag → Parsing → Progress
unfolding add_node
finish_triple E t p =
    let (id, w) = get_tag_id E p.qtree.dbi t.namespace t.key t.value p.world in
    add_node E (record t { tag_id = id }) (record p { world = w })

unfoldable pub flat_tag : Engine → Text → Parsing → Progress
unfolding add_node
flat_tag E token p =
    let (id, w) = get_tag_id E p.qtree.dbi (some token) none none p.world in
    add_node E (record empty_tag { tag = some token; tag_id = id }) (record p { world = w })

-- The branches on one token that is no triple tag.
unfoldable pub on_token : Engine → Text → Parsing → Progress
unfolding abort flat_tag
on_token E token p =
    let in_group : Bool = elim p.group [
      | dont_add ↦ false
      | add_to_node ↦ true
      | add_new_node ↦ true
    ] in
    if str_eq token []
    then going p
    else if str_eq token (codes "-")
    then (if p.qtree.negate_next_tag
        then abort double_negation p
        else if in_group
        then abort negation_inside_tag_group p
        else going (record p { qtree = record p.qtree { negate_next_tag = true } }))
    else if str_eq token (codes "+")
    then going (record p { closed = p.closed ++ (p.current ∷ []); current = null })
    else if str_eq token (codes "{")
    then (if in_group then abort nested_tag_group p else going (record p { group = add_new_node }))
    else if str_eq token (codes "}")
    then (if in_group
        then going (record p { group = dont_add })
        else abort close_tag_group_not_opened p)
    else flat_tag E token p

-- A token that ends with a colon: the old triple of the querytree is dropped.
unfoldable pub begin_triple : Text → Parsing → Parsing
begin_triple token p = record p {
  qtree = record p.qtree { namespace = some token; key = none; value = none };
}

-- The operator of a triple tag; an unknown one is skipped. All but `eq` ask for inodes in names.
unfoldable pub parse_operator : Text → Option Operator
parse_operator token =
    if str_eq token (codes "gt")
    then some greater_than
    else if str_eq token (codes "lt")
    then some smaller_than
    else if str_eq token (codes "eq")
    then some equal_to
    else if str_eq token (codes "inc")
    then some contains_text
    else none

unfoldable pub set_operator : Option Operator → QTree → QTree
set_operator none q = q
set_operator (some equal_to) q = record q { operator = equal_to }
set_operator (some op) q = record q { operator = op; force_inode_in_filenames = true }

unfoldable pub operator_or : Operator → Option Operator → Operator
operator_or op none = op
operator_or op (some op') = op'

abbrev pub save_last_tag : Text → Parsing → Parsing
save_last_tag token p = record p { qtree = record p.qtree { last_tag = some token } }

abbrev pub finished : Parsing → QTree
finished p = record p.qtree { tree = p.closed ++ (p.current ∷ []) }

abbrev pub starts_query_delimiter : Text → Bool
starts_query_delimiter [] = false
starts_query_delimiter (c ∷ s) = c == b'@'

-- What follows the last token of a tag.
unfoldable pub at_end : Text → Progress → Outcome
at_end token (going p) = parsed (finished (save_last_tag token p)) [] p.world
at_end token (aborted p) = failed (finished p) p.world
at_end token crashed = segfault

-- The loop. The last token is the text argument, for the end of the path inside a triple tag.
unfoldable pub parse_tokens : Engine → Pending → Text → List Text → Parsing → Outcome
unfolding at_end on_token finish_triple begin_triple parse_operator set_operator operator_or
parse_tokens E idle last [] p = parsed (finished p) [] p.world
parse_tokens E idle last (token ∷ rest) p =
    let stop = parsed (finished p) rest p.world in
    let triple =
      parse_tokens E (want_key (record empty_tag { namespace = some token })) token rest
        (begin_triple token p) in
    let other : Outcome = elim (on_token E token p) [
      | going p' ↦ parse_tokens E idle token rest (save_last_tag token p')
      | aborted p' ↦ failed (finished p') p'.world
      | crashed ↦ segfault
    ] in
    if starts_query_delimiter token then stop else if is_triple_token token then triple else other
parse_tokens E (want_key t) last [] p = at_end last (finish_triple E t p)
parse_tokens E (want_key t) last (token ∷ rest) p =
    parse_tokens E (want_operator (record t { key = some token })) token rest
      (record p { qtree = record p.qtree { key = some token } })
parse_tokens E (want_operator t) last [] p = at_end last (finish_triple E t p)
parse_tokens E (want_operator t) last (token ∷ rest) p =
    parse_tokens E
      (want_value (record t { operator = operator_or t.operator (parse_operator token) })) token
      rest (record p { qtree = set_operator (parse_operator token) p.qtree })
parse_tokens E (want_value t) last [] p = at_end last (finish_triple E t p)
parse_tokens E (want_value t) last (token ∷ rest) p =
    let t' = record t { value = some token } in
    let p' = record p { qtree = record p.qtree { value = some token } } in
    elim (finish_triple E t' p') [
      | going p'' ↦ parse_tokens E idle token rest (save_last_tag token p'')
      | aborted p'' ↦ failed (finished p'') p''.world
      | crashed ↦ segfault
    ]

-- The guess whether the query is complete, read from the path as it was given.
unfoldable pub guess_complete : Text → Bool → QTree → QTree
unfolding has_substring
guess_complete path disable_reasoner q =
    if has_substring path (codes "/@")
    then record q {
      complete = true;
      do_reasoning = if disable_reasoner then false else not (has_substring path (codes "/@@"));
    }
    else q

unfoldable pub parse_store : Engine → Text → Bool → List Text → QTree → World → Outcome
unfolding parse_tokens guess_complete
parse_store E path disable_reasoner tokens q w = parse_tokens E idle [] tokens (record {
  qtree = record (guess_complete path disable_reasoner q) { valid = true };
  closed = [];
  current = null;
  group = dont_add;
  world = w;
})
