-- ===== src/Query/Parsing.antt =====
-- The state of tagsistant_querytree_parse_store() and the nodes that it links
-- (src/path_resolution.c).
use tagsistant.Base.{Text, some, Bool, true, false, ◌&&◌, ◌||◌, List, if◌then◌else◌, is_some}
use tagsistant.Sql.{World}
use tagsistant.Sql.Engine.{Engine}
use tagsistant.Query.{QTree, AndTag, AndNode, null, node, ErrorMessage, negation_on_first_position}
use tagsistant.Reasoner.{append_related, append_negated, reasoner}

-- The tag_group variable.
pub data TagGroup : Type 0 where
  dont_add add_to_node add_new_node : TagGroup

-- The local variables: the querytree, the and-sets of the closed or-nodes, the current and-set.
pub record Parsing : Type 0 where
  pub qtree : QTree
  pub closed : List AndNode
  pub current : AndNode
  pub group : TagGroup
  pub world : World

-- A step goes on, returns 0 with an error message, or follows a NULL pointer.
pub data Progress : Type 0 where
  going : Parsing → Progress
  aborted : Parsing → Progress
  crashed : Progress

-- The end of the parse: 1 with the tokens that are left, 0, or a crash.
pub data Outcome : Type 0 where
  parsed : QTree → List Text → World → Outcome
  failed : QTree → World → Outcome
  segfault : Outcome

pub data Pending : Type 0 where
  idle : Pending
  want_key : AndTag → Pending
  want_operator : AndTag → Pending
  want_value : AndTag → Pending

unfoldable pub abort : ErrorMessage → Parsing → Progress
abort message p = aborted (record p { qtree = record p.qtree { error_message = some message } })

-- The last node of the `next` chain, changed in place.
unfoldable pub at_last : (AndNode → AndNode) → AndNode → AndNode
at_last change null = null
at_last change (node t related negated null) = change (node t related negated null)
at_last change (node t related negated (node t' r' n' next')) =
    node t related negated (at_last change (node t' r' n' next'))

unfoldable pub append_next : AndNode → AndNode → AndNode
append_next new null = new
append_next new (node t related negated next) = node t related negated (append_next new next)

abbrev pub is_null : AndNode → Bool
is_null null = true
is_null (node t related negated next) = false

-- The tags that are reasoned about.
unfoldable pub wants_reasoning : QTree → AndTag → Bool
wants_reasoning q t =
    q.do_reasoning && (is_some t.tag || (is_some t.namespace && is_some t.key && is_some t.value))

unfoldable pub reason_if_wanted : Engine → QTree → AndTag → World → AndNode × World
unfolding wants_reasoning
reason_if_wanted E q t w =
    let fresh = node t null null null in
    if wants_reasoning q t then reasoner E q.dbi fresh w else (fresh, w)

-- The three ways to link a new node, the change of tag_group and the reasoning behind it.
unfoldable pub add_node : Engine → AndTag → Parsing → Progress
unfolding reason_if_wanted abort
add_node E t p =
    let next_group : TagGroup = elim p.group [
      | dont_add ↦ dont_add
      | add_to_node ↦ add_to_node
      | add_new_node ↦ add_to_node
    ] in
    let link = λ (t' : AndTag) (change : AndNode → AndNode → AndNode).
      let (new, w) = reason_if_wanted E p.qtree t' p.world in
      going (record p {
        qtree = record p.qtree { negate_next_tag = false };
        current = change new p.current;
        group = next_group;
        world = w;
      }) in
    let p' = record p { qtree = record p.qtree { negate_next_tag = false } } in
    if p.qtree.negate_next_tag
    then (if is_null p.current
        then abort negation_on_first_position p'
        else link (record t { negate = true }) (λ new. at_last (append_negated new)))
    else elim p.group [
      | add_to_node ↦
          if is_null p.current then crashed else link t (λ new. at_last (append_related new))
      | dont_add ↦ link t append_next
      | add_new_node ↦ link t append_next
    ]

-- The tag id of the node, and the node itself.
