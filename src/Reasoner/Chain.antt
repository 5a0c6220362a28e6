-- ===== src/Reasoner/Chain.antt =====
-- The chain of related nodes of the reasoner, and the tags that are not on it (src/reasoner.c).
use tagsistant.Base.{
  ℕ, zero, suc, ◌+◌, ◌≤◌, ◌<◌, ◌≡◌, refl, none, Bool, true, false, ◌||◌, not, List, [], ◌∷◌, ◌==◌,
  any, count, length, arith, ==_iff, inl, inr, ◌⊎◌,
}
use tagsistant.Sql.{TagRow}
use tagsistant.Query.{AndTag, AndNode, null, node}
use tagsistant.Reasoner.{on_related, is_known, append_related, append_negated, at_position, tag_at}

-- The nodes on the chain of related nodes, and the tags of the database that are not on it.
abbrev pub chain_length : AndNode → ℕ
chain_length null = 0
chain_length (node t related negated next) = suc (chain_length related)

abbrev pub unknown : AndNode → List TagRow → ℕ
unknown start = count (λ (r : TagRow). not (on_related r.tag_id start))

abbrev pub has_tag : ℕ → List TagRow → Bool
has_tag id = any (λ (r : TagRow). r.tag_id == id)

pub tag_at_some : (pos : ℕ) (c : AndNode) → (tag_at pos c ≡ none) ⊎ (pos < chain_length c)
unfolding tag_at
tag_at_some pos null = inl refl
tag_at_some zero (node t r n x) = inr (omega arith)
tag_at_some (suc pos) (node t r n x) = ground (arith, tag_at_some pos r)

on_related-append :
    (t : AndTag) (id : ℕ) (c : AndNode)
    → on_related id (append_related (node t null null null) c) ≡ (on_related id c || t.tag_id == id)
unfolding on_related append_related
on_related-append t id null = ground arith
on_related-append t id (node a r n x) = ground (arith, on_related-append t id r)

chain_length-append :
    (t : AndTag) (c : AndNode)
    → chain_length (append_related (node t null null null) c) ≡ suc (chain_length c)
unfolding append_related
chain_length-append t null = refl
chain_length-append t (node a r n x) = omega (arith, chain_length-append t r)

-- At a position that is on the chain, the chain grows by the new node.
at_position-related :
    (t : AndTag) (pos id : ℕ) (c : AndNode)
    → pos < chain_length c
    → let c' = at_position pos (append_related (node t null null null)) c in
      (chain_length c' ≡ suc (chain_length c))
      × (on_related id c' ≡ (on_related id c || t.tag_id == id))
unfolding at_position on_related append_related
at_position-related t pos id null h = absurd (omega (arith, h))
at_position-related t zero id (node a r n x) h =
    ground (arith, chain_length-append t r, on_related-append t id r)
at_position-related t (suc pos) id (node a r n x) h = ground (arith, at_position-related t pos id r)

pub at_position-negated :
    (new : AndNode) (pos id : ℕ) (c : AndNode)
    → let c' = at_position pos (append_negated new) c in
      (chain_length c' ≡ chain_length c) × (on_related id c' ≡ on_related id c)
unfolding at_position on_related append_negated
at_position-negated new pos id null = (refl, refl)
at_position-negated new zero id (node a r n x) = (refl, refl)
at_position-negated new (suc pos) id (node a r n x) =
    ground (arith, at_position-negated new pos id r)

count-le :
    (p q : TagRow → Bool) (rows : List TagRow)
    → ((r : TagRow) → q r ≡ true → p r ≡ true)
    → count q rows ≤ count p rows
unfolding count
count-le p q [] h = omega arith
count-le p q (r ∷ rows) h = ground (arith, count-le p q rows h, h r)

-- A row that satisfies the one test and not the other makes the difference.
count-less :
    (p q : TagRow → Bool) (id : ℕ) (rows : List TagRow)
    → ((r : TagRow) → q r ≡ true → p r ≡ true)
    → ((r : TagRow) → (r.tag_id == id) ≡ true → (p r ≡ true) × (q r ≡ false))
    → has_tag id rows ≡ true
    → suc (count q rows) ≤ count p rows
unfolding count any
count-less p q id [] h k m = ground arith
count-less p q id (r ∷ rows) h k m =
    ground (arith, count-le p q rows h, count-less p q id rows h k, h r, k r)

pub count-length : (p : TagRow → Bool) (rows : List TagRow) → count p rows ≤ length rows
unfolding count
count-length p [] = omega arith
count-length p (r ∷ rows) = ground (arith, count-length p rows)

unknown-same :
    (c c' : AndNode) (tags : List TagRow)
    → ((id : ℕ) → on_related id c' ≡ on_related id c)
    → unknown c' tags ≡ unknown c tags
unfolding count
unknown-same c c' [] h = refl
unknown-same c c' (r ∷ rows) h = rw (h r.tag_id) (rw (unknown-same c c' rows h) refl)

-- The measure of the recursion.
abbrev pub measure : AndNode → List TagRow → ℕ
measure start tags = chain_length start + unknown start tags

pub is_known-on_related : (id : ℕ) (c : AndNode) → is_known id c ≡ false → on_related id c ≡ false
unfolding is_known on_related
is_known-on_related id null h = refl
is_known-on_related id (node t r n x) h = ground arith

pub related-measure :
    (t : AndTag) (pos : ℕ) (start : AndNode) (tags : List TagRow)
    → pos < chain_length start
    → has_tag t.tag_id tags ≡ true
    → on_related t.tag_id start ≡ false
    → let start' = at_position pos (append_related (node t null null null)) start in
      (measure start' tags ≤ measure start tags) × (chain_length start ≤ chain_length start')
related-measure t pos start tags h m new =
    let start' = at_position pos (append_related (node t null null null)) start in
    let grows = (at_position-related t pos 0 start h).0 in
    let fewer =
      count-less (λ (r : TagRow). not (on_related r.tag_id start))
        (λ (r : TagRow). not (on_related r.tag_id start')) t.tag_id tags
        (λ r k. ground (arith, at_position-related t pos r.tag_id start h))
        (λ r k.
          ground (
            arith,
            at_position-related t pos r.tag_id start h,
            new,
            (==_iff r.tag_id t.tag_id).0 k,
          ))
        m in
    (omega (arith, grows, fewer), omega (arith, grows))

pub negated-measure :
    (new : AndNode) (pos : ℕ) (start : AndNode) (tags : List TagRow)
    → let start' = at_position pos (append_negated new) start in
      (measure start' tags ≤ measure start tags) × (chain_length start ≤ chain_length start')
negated-measure new pos start tags =
    let start' = at_position pos (append_negated new) start in
    let same = (at_position-negated new pos 0 start).0 in
    let rest = unknown-same start start' tags (λ id. (at_position-negated new pos id start).1) in
    (omega (arith, same, rest), omega (arith, same))
