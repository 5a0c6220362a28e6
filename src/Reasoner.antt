-- ===== src/Reasoner.antt =====
-- The reasoner of src/reasoner.c: the tags that the relations of a tag lead to are hung on its
-- and-node. The reasoner cache is compiled out (TAGSISTANT_ENABLE_REASONER_CACHE is 0).
pub mod Chain
pub mod Distinct
pub mod Preserves
pub mod Termination
use tagsistant.Base.{
  ℕ, zero, suc, ◌+◌, Text, codes, Option, none, some, Bool, true, false, ◌&&◌, ◌||◌, List, [], ◌∷◌,
  ◌++◌, str_eq, ◌==◌, if◌then◌else◌, select, any, length,
}
use tagsistant.Sql.{World, TagRow, RelationRow}
use tagsistant.Sql.Engine.{Engine}
use tagsistant.Sql.Tags.{get_tag_id}
use tagsistant.Query.{AndTag, AndNode, null, node, empty_tag}
use tagsistant.Query.Paths.{is_triple_token, is_nonempty}

-- The links `related` and `negated` of the dynamic checks: the ids along one chain.
unfoldable pub on_related : ℕ → AndNode → Bool
on_related id null = false
on_related id (node t related negated next) = t.tag_id == id || on_related id related

unfoldable on_negated : ℕ → AndNode → Bool
on_negated id null = false
on_negated id (node t related negated next) = t.tag_id == id || on_negated id negated

-- The check for duplicates of tagsistant_add_reasoned_tag().
unfoldable pub is_known : ℕ → AndNode → Bool
unfolding on_related on_negated
is_known id null = false
is_known id (node t related negated next) =
    t.tag_id == id || on_related id related || on_negated id negated || is_known id next

-- The walk to the end of a chain, where the new node is linked.
unfoldable pub append_related : AndNode → AndNode → AndNode
append_related new null = new
append_related new (node t related negated next) = node t (append_related new related) negated next

unfoldable pub append_negated : AndNode → AndNode → AndNode
append_negated new null = new
append_negated new (node t related negated next) = node t related (append_negated new negated) next

-- The node at a position of the chain of related nodes, changed in place.
unfoldable pub at_position : ℕ → (AndNode → AndNode) → AndNode → AndNode
at_position pos change null = null
at_position zero change (node t related negated next) = change (node t related negated next)
at_position (suc pos) change (node t related negated next) =
    node t (at_position pos change related) negated next

-- The node that tagsistant_add_reasoned_tag_callback() describes by a row and
-- tagsistant_add_reasoned_tag() allocates: the texts it does not set are empty.
unfoldable pub reasoned_node : TagRow → Bool → AndNode
reasoned_node r negate =
    let triple = is_triple_token r.tagname in
    node
      (record {
        negate = negate;
        tag = some (if triple then [] else r.tagname);
        tag_id = r.tag_id;
        namespace = some (if triple then r.tagname else []);
        key = some (if triple then r.key else []);
        operator = empty_tag.operator;
        value = some (if triple then r.value else []);
      })
      null null null

-- tagsistant_add_reasoned_tag(): `pos` is the current node, a position on the chain of the start.
unfoldable pub add_reasoned_tag : ℕ → Bool → TagRow → AndNode → AndNode
unfolding is_known append_related append_negated at_position reasoned_node
add_reasoned_tag pos negate r start =
    let new = reasoned_node r negate in
    if is_known r.tag_id start
    then start
    else if negate
    then at_position pos (append_negated new) start
    else at_position pos (append_related new) start

unfoldable pub add_reasoned_tags : ℕ → Bool → List TagRow → AndNode → AndNode
unfolding add_reasoned_tag
add_reasoned_tags pos negate [] start = start
add_reasoned_tags pos negate (r ∷ rows) start =
    add_reasoned_tags pos negate rows (add_reasoned_tag pos negate r start)

-- The tag at a position of the chain of related nodes, or none past its end.
unfoldable pub tag_at : ℕ → AndNode → Option AndTag
tag_at pos null = none
tag_at zero (node t related negated next) = some t
tag_at (suc pos) (node t related negated next) = tag_at pos related

-- The relations that the two positive queries follow, and the ones of the negative query.
unfoldable pub is_included : ℕ → TagRow → RelationRow → Bool
is_included id r rel =
    (rel.tag1_id == id
      && rel.tag2_id == r.tag_id
      && (str_eq rel.relation (codes "includes") || str_eq rel.relation (codes "is_equivalent")))
    || (rel.tag2_id == id && rel.tag1_id == r.tag_id && str_eq rel.relation (codes "is_equivalent"))

unfoldable pub is_excluded : ℕ → TagRow → RelationRow → Bool
is_excluded id r rel =
    rel.tag1_id == id && rel.tag2_id == r.tag_id && str_eq rel.relation (codes "excludes")

unfoldable pub related_rows :
    Engine → Bool → (ℕ → TagRow → RelationRow → Bool) → ℕ → World → List TagRow
related_rows E conn follows id w =
    if conn then E.arrange (select (λ r. any (follows id r) w.relations) w.tags) else []

-- The id of the current node: its tag, or its triple if all of it is there.
unfoldable pub node_id : Engine → Bool → AndTag → World → ℕ × World
node_id E conn t w =
    let triple : ℕ × World = elim t.namespace [
      | none ↦ (0, w)
      | some n ↦ elim t.key [
        | none ↦ (0, w)
        | some k ↦ elim t.value [
          | none ↦ (0, w)
          | some v ↦ get_tag_id E conn (some n) (some k) (some v) w
        ]
      ]
    ] in
    elim t.tag [
      | none ↦ triple
      | some name ↦ if is_nonempty name then get_tag_id E conn (some name) none none w else triple
    ]

-- The two queries of one call of tagsistant_reasoner_inner().
unfoldable pub reason_about : Engine → Bool → ℕ → AndTag → AndNode → World → AndNode × World
unfolding node_id related_rows add_reasoned_tags is_included is_excluded
reason_about E conn pos t start w =
    let (id, w1) = node_id E conn t w in
    let positive = add_reasoned_tags pos false (related_rows E conn is_included id w1) start in
    (add_reasoned_tags pos true (related_rows E conn is_excluded id w1) positive, w1)

-- tagsistant_reasoner_inner() and its call on the next related node. `none` means that the fuel
-- ran out.
unfoldable pub reasoner_inner : ℕ → Engine → Bool → ℕ → AndNode → World → Option (AndNode × World)
unfolding reason_about tag_at
reasoner_inner zero E conn pos start w = none
reasoner_inner (suc fuel) E conn pos start w = elim (tag_at pos start) [
  | none ↦ some (start, w)
  | some t ↦
      reasoner_inner fuel E conn (suc pos) (reason_about E conn pos t start w).0
        (reason_about E conn pos t start w).1
]

-- tagsistant_reasoner(), with one round for each tag of the database and two to see the end.
unfoldable pub reasoner : Engine → Bool → AndNode → World → AndNode × World
unfolding reasoner_inner
reasoner E conn start w = elim (reasoner_inner (length w.tags + 2) E conn 0 start w) [
  | none ↦ (start, w)
  | some result ↦ result
]
