-- ===== src/Reasoner/Distinct.antt =====
-- The ids on the chain of related nodes that the reasoner leaves (src/reasoner.c).
use tagsistant.Base.{
  ℕ, zero, suc, ◌+◌, ◌≡◌, refl, Option, none, some, Bool, true, false, ◌&&◌, ◌||◌, not, List, [],
  ◌∷◌, ◌==◌, length, arith, Bool-cases, inl, inr,
}
use tagsistant.Sql.{World, TagRow}
use tagsistant.Sql.Engine.{Engine}
use tagsistant.Query.{AndTag, AndNode, null, node}
use tagsistant.Reasoner.{
  on_related, is_known, append_related, append_negated, at_position, reasoned_node,
  add_reasoned_tag, add_reasoned_tags, tag_at, node_id, related_rows, is_included, is_excluded,
  reason_about, reasoner_inner, reasoner,
}
use tagsistant.Reasoner.Chain.{is_known-on_related, at_position-negated}

-- No id stands twice on the chain.
unfoldable pub is_distinct : AndNode → Bool
unfolding on_related
is_distinct null = true
is_distinct (node t related negated next) = not (on_related t.tag_id related) && is_distinct related

on_related-append_other :
    (t : AndTag) (id : ℕ) (c : AndNode)
    → (on_related id c || t.tag_id == id) ≡ false
    → on_related id (append_related (node t null null null) c) ≡ false
unfolding on_related append_related
on_related-append_other t id null h = ground arith
on_related-append_other t id (node a r n x) h = ground (arith, on_related-append_other t id r)

on_related-at_position :
    (t : AndTag) (pos id : ℕ) (c : AndNode)
    → (on_related id c || t.tag_id == id) ≡ false
    → on_related id (at_position pos (append_related (node t null null null)) c) ≡ false
unfolding on_related at_position
on_related-at_position t pos id null h = refl
on_related-at_position t zero id (node a r n x) h = on_related-append_other t id (node a r n x) h
on_related-at_position t (suc pos) id (node a r n x) h =
    ground (arith, on_related-at_position t pos id r)

is_distinct-append :
    (t : AndTag) (c : AndNode)
    → on_related t.tag_id c ≡ false
    → is_distinct c ≡ true
    → is_distinct (append_related (node t null null null) c) ≡ true
unfolding is_distinct append_related on_related
is_distinct-append t null h d = refl
is_distinct-append t (node a r n x) h d =
    ground (arith, is_distinct-append t r, on_related-append_other t a.tag_id r)

is_distinct-related :
    (t : AndTag) (pos : ℕ) (c : AndNode)
    → on_related t.tag_id c ≡ false
    → is_distinct c ≡ true
    → is_distinct (at_position pos (append_related (node t null null null)) c) ≡ true
unfolding is_distinct at_position on_related
is_distinct-related t pos null h d = refl
is_distinct-related t zero (node a r n x) h d = is_distinct-append t (node a r n x) h d
is_distinct-related t (suc pos) (node a r n x) h d =
    ground (arith, is_distinct-related t pos r, on_related-at_position t pos a.tag_id r)

is_distinct-negated :
    (new : AndNode) (pos : ℕ) (c : AndNode)
    → is_distinct (at_position pos (append_negated new) c) ≡ is_distinct c
unfolding is_distinct at_position append_negated
is_distinct-negated new pos null = refl
is_distinct-negated new zero (node a r n x) = refl
is_distinct-negated new (suc pos) (node a r n x) =
    ground (arith, is_distinct-negated new pos r, (at_position-negated new pos a.tag_id r).1)

add_reasoned_tag-is_distinct :
    (pos : ℕ) (negate : Bool) (r : TagRow) (start : AndNode)
    → is_distinct start ≡ true
    → is_distinct (add_reasoned_tag pos negate r start) ≡ true
unfolding add_reasoned_tag reasoned_node
add_reasoned_tag-is_distinct pos true r start d =
    ground (arith, is_distinct-negated (reasoned_node r true) pos start)
add_reasoned_tag-is_distinct pos false r start d = elim (Bool-cases (is_known r.tag_id start)) [
  | inl known ↦ rw known d
  | inr new ↦ rw new (is_distinct-related _ pos start (is_known-on_related r.tag_id start new) d)
]

add_reasoned_tags-is_distinct :
    (pos : ℕ) (negate : Bool) (rows : List TagRow) (start : AndNode)
    → is_distinct start ≡ true
    → is_distinct (add_reasoned_tags pos negate rows start) ≡ true
unfolding add_reasoned_tags
add_reasoned_tags-is_distinct pos negate [] start d = d
add_reasoned_tags-is_distinct pos negate (r ∷ rows) start d =
    add_reasoned_tags-is_distinct pos negate rows (add_reasoned_tag pos negate r start)
      (add_reasoned_tag-is_distinct pos negate r start d)

reason_about-is_distinct :
    (E : Engine) (conn : Bool) (pos : ℕ) (t : AndTag) (start : AndNode) (w : World)
    → is_distinct start ≡ true
    → is_distinct (reason_about E conn pos t start w).0 ≡ true
unfolding reason_about
reason_about-is_distinct E conn pos t start w d =
    let (id, w1) = node_id E conn t w in
    let included = related_rows E conn is_included id w1 in
    add_reasoned_tags-is_distinct pos true (related_rows E conn is_excluded id w1)
      (add_reasoned_tags pos false included start)
      (add_reasoned_tags-is_distinct pos false included start d)

abbrev IsDistinctResult : Option (AndNode × World) → Type 0
IsDistinctResult none = Unit
IsDistinctResult (some r) = is_distinct r.0 ≡ true

reasoner_inner-IsDistinctResult :
    (fuel : ℕ) (E : Engine) (conn : Bool) (pos : ℕ) (start : AndNode) (w : World)
    → is_distinct start ≡ true
    → IsDistinctResult (reasoner_inner fuel E conn pos start w)
unfolding reasoner_inner
reasoner_inner-IsDistinctResult zero E conn pos start w d = tt
reasoner_inner-IsDistinctResult (suc fuel) E conn pos start w d =
    elim (tag_at pos start)
      as (λ o. IsDistinctResult (elim o [
        | none ↦ some (start, w)
        | some t ↦
            reasoner_inner fuel E conn (suc pos) (reason_about E conn pos t start w).0
              (reason_about E conn pos t start w).1
      ])) [
        | none ↦ d
        | some t ↦
            let r = reason_about E conn pos t start w in
            reasoner_inner-IsDistinctResult fuel E conn (suc pos) r.0 r.1
              (reason_about-is_distinct E conn pos t start w d)
      ]

-- The reasoner leaves no id twice among the tag that it starts from and its related tags, whatever
-- the relations are.
pub reasoner-is_distinct :
    (E : Engine) (conn : Bool) (t : AndTag) (w : World)
    → is_distinct (reasoner E conn (node t null null null) w).0 ≡ true
unfolding reasoner is_distinct on_related
reasoner-is_distinct E conn t w = ground (
  arith,
  reasoner_inner-IsDistinctResult (length w.tags + 2) E conn 0 (node t null null null) w refl,
)
