-- ===== src/Reasoner/Termination.antt =====
-- The termination of tagsistant_reasoner_inner() (src/reasoner.c): every node that it hangs on the
-- chain of related nodes has the id of a tag that is not on the chain yet.
use tagsistant.Base.{
  ℕ, zero, suc, ◌+◌, ◌≤◌, ◌<◌, ◌≡◌, refl, sym, ap, ◌∙◌, Option, none, some, Bool, true, false, ◌&&◌,
  not, List, [], ◌∷◌, is_some, ◌==◌, any, any-select, select, length, All, arith, Bool-cases, inl,
  inr,
}
use mathlib.Core.Path.{subst}
use tagsistant.Sql.{World, Db, TagRow, RelationRow}
use tagsistant.Sql.Engine.{Engine}
use tagsistant.Query.{AndTag, AndNode, null, node}
use tagsistant.Reasoner.{
  on_related, is_known, reasoned_node, add_reasoned_tag, add_reasoned_tags, tag_at, related_rows,
  node_id, reason_about, is_included, is_excluded, reasoner_inner,
}
use tagsistant.Reasoner.Preserves.{node_id-db}
use tagsistant.Reasoner.Chain.{
  chain_length, has_tag, tag_at_some, count-length, measure, is_known-on_related, related-measure,
  negated-measure,
}

add_reasoned_tag-measure :
    (pos : ℕ) (negate : Bool) (r : TagRow) (start : AndNode) (tags : List TagRow)
    → pos < chain_length start
    → has_tag r.tag_id tags ≡ true
    → let start' = add_reasoned_tag pos negate r start in
      (measure start' tags ≤ measure start tags) × (chain_length start ≤ chain_length start')
unfolding add_reasoned_tag reasoned_node
add_reasoned_tag-measure pos true r start tags h m = elim (Bool-cases (is_known r.tag_id start)) [
  | inl known ↦ rw known (omega arith, omega arith)
  | inr new ↦ rw new (negated-measure _ pos start tags)
]
add_reasoned_tag-measure pos false r start tags h m = elim (Bool-cases (is_known r.tag_id start)) [
  | inl known ↦ rw known (omega arith, omega arith)
  | inr new ↦ rw new (related-measure _ pos start tags h m (is_known-on_related r.tag_id start new))
]

add_reasoned_tags-measure :
    (pos : ℕ) (negate : Bool) (rows : List TagRow) (start : AndNode) (tags : List TagRow)
    → pos < chain_length start
    → All (λ (r : TagRow). has_tag r.tag_id tags ≡ true) rows
    → let start' = add_reasoned_tags pos negate rows start in
      (measure start' tags ≤ measure start tags) × (chain_length start ≤ chain_length start')
unfolding add_reasoned_tags
add_reasoned_tags-measure pos negate [] start tags h m = (omega arith, omega arith)
add_reasoned_tags-measure pos negate (r ∷ rows) start tags h m =
    let first = add_reasoned_tag-measure pos negate r start tags h m.0 in
    let second =
      add_reasoned_tags-measure pos negate rows (add_reasoned_tag pos negate r start) tags
        (omega (arith, first.1, h)) m.1 in
    (omega (arith, first.0, second.0), omega (arith, first.1, second.1))

-- Rows whose ids a list has.
rows-All :
    (rows tags : List TagRow)
    → ((id : ℕ) → has_tag id rows ≡ true → has_tag id tags ≡ true)
    → All (λ (r : TagRow). has_tag r.tag_id tags ≡ true) rows
unfolding any
rows-All [] tags h = tt
rows-All (r ∷ rows) tags h =
    (h r.tag_id (ground arith), rows-All rows tags (λ id k. h id (ground (arith, k))))

any_of_select :
    (p q : TagRow → Bool) (rows : List TagRow)
    → any (λ r. p r && q r) rows ≡ true
    → any p rows ≡ true
unfolding any
any_of_select p q [] h = h
any_of_select p q (r ∷ rows) h = ground (arith, any_of_select p q rows)

related_rows-have :
    (E : Engine) (conn : Bool) (follows : ℕ → TagRow → RelationRow → Bool) (id : ℕ) (w : World)
    → All (λ (r : TagRow). has_tag r.tag_id w.tags ≡ true) (related_rows E conn follows id w)
unfolding related_rows
related_rows-have E false follows id w = tt
related_rows-have E true follows id w =
    let q = λ (r : TagRow). any (follows id r) w.relations in
    rows-All (E.arrange (select q w.tags)) w.tags (λ i k.
      any_of_select (λ (r : TagRow). r.tag_id == i) q w.tags
        (sym (any-select (λ (r : TagRow). r.tag_id == i) q w.tags)
          ∙ sym (E.any-arrange (λ (r : TagRow). r.tag_id == i) (select q w.tags))
          ∙ k))

reason_about-measure :
    (E : Engine) (conn : Bool) (pos : ℕ) (t : AndTag) (start : AndNode) (w : World)
    → pos < chain_length start
    → let start' = (reason_about E conn pos t start w).0 in
      (measure start' w.tags ≤ measure start w.tags) × (chain_length start ≤ chain_length start')
unfolding reason_about
reason_about-measure E conn pos t start w h =
    let (id, w1) = node_id E conn t w in
    let same = ap (λ (d : Db). d.tags) (node_id-db E conn t w) in
    let positive = related_rows E conn is_included id w1 in
    let first =
      add_reasoned_tags-measure pos false positive start w1.tags h
        (related_rows-have E conn is_included id w1) in
    let second =
      add_reasoned_tags-measure pos true (related_rows E conn is_excluded id w1)
        (add_reasoned_tags pos false positive start) w1.tags (omega (arith, first.1, h))
        (related_rows-have E conn is_excluded id w1) in
    subst
      (λ tags.
        (measure (reason_about E conn pos t start w).0 tags ≤ measure start tags)
        × (chain_length start ≤ chain_length (reason_about E conn pos t start w).0))
      same (omega (arith, first.0, second.0), omega (arith, first.1, second.1))

reason_about-db :
    (E : Engine) (conn : Bool) (pos : ℕ) (t : AndTag) (start : AndNode) (w : World)
    → (reason_about E conn pos t start w).1.db ≡ w.db
unfolding reason_about
reason_about-db E conn pos t start w = node_id-db E conn t w

round_ends :
    (o : Option AndTag) (f : AndTag → Option (AndNode × World)) (r : AndNode × World)
    → ((t : AndTag) → o ≡ some t → is_some (f t) ≡ true)
    → is_some (elim o as (λ x. Option (AndNode × World)) [ none ↦ some r | some t ↦ f t ]) ≡ true
round_ends none f r h = refl
round_ends (some t) f r h = h t refl

-- The recursion ends within the measure.
reasoner_inner_ends :
    (fuel : ℕ) (E : Engine) (conn : Bool) (pos : ℕ) (start : AndNode) (w : World)
    → 1 ≤ fuel
    → measure start w.tags + 1 ≤ fuel + pos
    → is_some (reasoner_inner fuel E conn pos start w) ≡ true
unfolding reasoner_inner
reasoner_inner_ends zero E conn pos start w h k = absurd (omega (arith, h))
reasoner_inner_ends (suc fuel) E conn pos start w h k =
    round_ends (tag_at pos start) _ (start, w)
      λ t e.
        let on_chain : pos < chain_length start = ground (arith, e, tag_at_some pos start) in
        let r = reason_about E conn pos t start w in
        let m = (reason_about-measure E conn pos t start w on_chain).0 in
        let same = ap (λ (d : Db). measure r.0 d.tags) (reason_about-db E conn pos t start w) in
        reasoner_inner_ends fuel E conn (suc pos) r.0 r.1 (omega (arith, k, on_chain))
          (omega (arith, k, m, same))

-- The rounds that the reasoner is given are enough, whatever the relations are.
pub reasoner_ends :
    (E : Engine) (conn : Bool) (t : AndTag) (w : World)
    → is_some (reasoner_inner (length w.tags + 2) E conn 0 (node t null null null) w) ≡ true
reasoner_ends E conn t w =
    let few =
      count-length (λ (r : TagRow). not (on_related r.tag_id (node t null null null))) w.tags in
    reasoner_inner_ends (length w.tags + 2) E conn 0 (node t null null null) w (omega arith)
      (omega (arith, few))
