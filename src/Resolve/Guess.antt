-- ===== src/Resolve/Guess.antt =====
-- The inode that is guessed for the name of an object (src/path_resolution.c).
use mathlib.Core.Path.{subst}
use tagsistant.Base.{
  ℕ, ◌≡◌, ◌≢◌, refl, sym, ap, ◌∙◌, Text, Option, some, Bool, true, false, ◌&&◌, ◌||◌, not, List, [],
  ◌∷◌, ◌==◌, if◌then◌else◌, select, any, contains, All, arith, Bool-cases, ==_iff, inl, inr, str_eq,
}
use tagsistant.Sql.{World, ObjectRow}
use tagsistant.Sql.Engine.{Engine, IsId, return_integer, return_integer-contains}
use tagsistant.Sql.Tags.{query_integer, is_tagging}
use tagsistant.Sql.Tags.Tagging.{is_tagged}
use tagsistant.Sql.Objects.{object_inodes}
use tagsistant.Query.{AndTag, AndNode, null, node}
use tagsistant.Resolve.{
  is_open_triple, has_tagging, check_single_tagging, check_related, check_node, FirstStep, guessed,
  break_lookup, is_all_tag, first_step, second_step, guess_inode, guess_inode_from_and_set,
}

-- No negated or special tag on the way, and no triple tag with an operator but `eq`.
unfoldable is_closed_chain : AndNode → Bool
is_closed_chain null = true
is_closed_chain (node t related negated next) = not (is_open_triple t) && is_closed_chain related

unfoldable pub is_ordinary : AndNode → Bool
unfolding is_closed_chain
is_ordinary null = true
is_ordinary (node t related negated next) =
    not (is_all_tag t)
    && not t.negate
    && not (is_open_triple t)
    && is_closed_chain related
    && is_ordinary next

-- An object has that name and that tag.
abbrev pub is_named : Text → ℕ → World → Bool
is_named name i w = any (λ (o : ObjectRow). o.inode == i && str_eq o.objectname name) w.objects

abbrev pub has_tag : Text → ℕ → ℕ → World → Bool
has_tag name id i w = is_named name i w && is_tagged i id w

-- What a query means: the object has each tag of the and-set, or one that is related to it.
unfoldable has_one_of : Text → ℕ → AndNode → World → Bool
has_one_of name i null w = false
has_one_of name i (node t related negated next) w =
    has_tag name t.tag_id i w || has_one_of name i related w

unfoldable pub satisfies : Text → ℕ → AndNode → World → Bool
unfolding has_one_of
satisfies name i null w = true
satisfies name i (node t related negated next) w =
    (has_tag name t.tag_id i w || has_one_of name i related w) && satisfies name i next w

All-select_inodes :
    (p : ObjectRow → Bool) (rows : List ObjectRow)
    → All IsId (object_inodes rows)
    → All IsId (object_inodes (select p rows))
unfolding object_inodes select
All-select_inodes p [] h = tt
All-select_inodes p (r ∷ rows) h = elim (Bool-cases (p r)) [
  | inl kept ↦ rw kept (h.0, All-select_inodes p rows h.1)
  | inr dropped ↦ rw dropped (All-select_inodes p rows h.1)
]

-- An inode among the selected rows belongs to a row that the test accepts.
selected_inode :
    (name : Text) (id i : ℕ) (w : World) (rows : List ObjectRow)
    → contains i (object_inodes (select (has_tagging name id w) rows)) ≡ true
    → (any (λ (o : ObjectRow). o.inode == i && str_eq o.objectname name) rows
        && any (is_tagging i id) w.tagging)
      ≡ true
unfolding object_inodes select contains any has_tagging
selected_inode name id i w [] h = ground arith
selected_inode name id i w (r ∷ rows) h = elim (Bool-cases (has_tagging name id w r)) [
  | inl kept ↦ elim (Bool-cases (i == r.inode)) [
    | inl same ↦
        let tagged : any (is_tagging i id) w.tagging ≡ true =
          subst (λ x. any (is_tagging x id) w.tagging ≡ true) (sym ((==_iff i r.inode).0 same))
            (ground arith) in
        ground (arith, tagged)
    | inr other ↦ ground (arith, selected_inode name id i w rows)
  ]
  | inr dropped ↦ ground (arith, selected_inode name id i w rows)
]

query_integer-contains :
    (E : Engine) (xs : List ℕ)
    → All IsId xs
    → query_integer E true xs ≢ 0
    → contains (query_integer E true xs) xs ≡ true
unfolding query_integer return_integer
query_integer-contains E [] h ne = absurd (ne refl)
query_integer-contains E (x ∷ xs) h ne = return_integer-contains E x xs h

check_single-has_tag :
    (E : Engine) (t : AndTag) (name : Text) (w : World)
    → All IsId (object_inodes w.objects)
    → is_open_triple t ≡ false
    → check_single_tagging E true t name w ≢ 0
    → has_tag name t.tag_id (check_single_tagging E true t name w) w ≡ true
unfolding check_single_tagging
check_single-has_tag E t name w ids closed =
    let rows = object_inodes (select (has_tagging name t.tag_id w) w.objects) in
    let found : query_integer E true rows ≢ 0
        → has_tag name t.tag_id (query_integer E true rows) w ≡ true =
      λ ne.
        selected_inode name t.tag_id _ w w.objects
          (query_integer-contains E rows (All-select_inodes _ w.objects ids) ne) in
    rw closed found

check_related-has_one_of :
    (E : Engine) (c : AndNode) (name : Text) (w : World)
    → All IsId (object_inodes w.objects)
    → is_closed_chain c ≡ true
    → check_related E true c name w ≢ 0
    → has_one_of name (check_related E true c name w) c w ≡ true
unfolding check_related has_one_of is_closed_chain
check_related-has_one_of E null name w ids closed ne = absurd (ne refl)
check_related-has_one_of E (node t r n x) name w ids closed ne =
    ground (arith, check_single-has_tag E t name w ids, check_related-has_one_of E r name w ids)

check_node-has_tag :
    (E : Engine) (t : AndTag) (r : AndNode) (name : Text) (w : World)
    → All IsId (object_inodes w.objects)
    → is_open_triple t ≡ false
    → is_closed_chain r ≡ true
    → check_node E true t r name w ≢ 0
    → (has_tag name t.tag_id (check_node E true t r name w) w
        || has_one_of name (check_node E true t r name w) r w)
      ≡ true
unfolding check_node
check_node-has_tag E t r name w ids single closed ne =
    ground (arith, check_single-has_tag E t name w ids, check_related-has_one_of E r name w ids)

-- The first loop: it jumps with 0, or it has found one inode that every node gives.
first_step-satisfies :
    (E : Engine) (c : AndNode) (guess i : ℕ) (name : Text) (w : World)
    → All IsId (object_inodes w.objects)
    → is_ordinary c ≡ true
    → first_step E true c guess name w ≡ guessed i
    → i ≢ 0
    → ((guess == 0 || guess == i) && satisfies name i c w) ≡ true
unfolding first_step satisfies is_ordinary
first_step-satisfies E null guess i name w ids o h ne = ground arith
first_step-satisfies E (node t r n x) guess i name w ids o h ne =
    let single = check_node E true t r name w in
    let guess' = if guess == 0 then single else guess in
    let later = first_step-satisfies E x guess' i name w ids (ground arith) (ground arith) ne in
    let same : single ≡ i = ground (arith, later) in
    let tagged : (has_tag name t.tag_id i w || has_one_of name i r w) ≡ true =
      subst (λ j. (has_tag name t.tag_id j w || has_one_of name j r w) ≡ true) same
        (check_node-has_tag E t r name w ids (ground arith) (ground arith)
          (ground (arith, same))) in
    ground (arith, later, tagged)

second_step_cases :
    (E : Engine) (c : AndNode) (inode i : ℕ) (name : Text) (w : World)
    → second_step E true c inode name w ≡ some i
    → i ≢ 0
    → i ≡ inode
unfolding second_step
second_step_cases E null inode i name w h ne = ground arith
second_step_cases E (node t r n x) inode i name w h ne = ground arith

pub first_step_break :
    (E : Engine) (c : AndNode) (guess j : ℕ) (name : Text) (w : World)
    → is_ordinary c ≡ true
    → first_step E true c guess name w ≡ break_lookup j
    → j ≡ 0
unfolding first_step is_ordinary
first_step_break E null guess j name w o h = ground arith
first_step_break E (node t r n x) guess j name w o h =
    let single = check_node E true t r name w in
    ground (arith, first_step_break E x (if guess == 0 then single else guess) j name w)

-- The end of the first loop, with the inode that the second one leaves.
step_satisfies :
    (E : Engine) (c : AndNode) (i : ℕ) (name : Text) (w : World) (s : FirstStep)
    → All IsId (object_inodes w.objects)
    → is_ordinary c ≡ true
    → i ≢ 0
    → first_step E true c 0 name w ≡ s
    → (elim s as (λ x. Option ℕ) [
      | break_lookup inode ↦ some inode
      | guessed inode ↦ second_step E true c inode name w
    ])
      ≡ some i
    → satisfies name i c w ≡ true
step_satisfies E c i name w (break_lookup j) ids o ne e h =
    ground (arith, h, first_step_break E c 0 j name w o e)
step_satisfies E c i name w (guessed j) ids o ne e h =
    let same : i ≡ j = second_step_cases E c j i name w h ne in
    ground (arith, first_step-satisfies E c 0 i name w ids o (e ∙ ap guessed (sym same)) ne)

-- The inode that is guessed for a name in an and-set is that of an object with the name, which has
-- each tag of the and-set or a tag related to it, if the and-set has no ALL, and no triple tag with
-- another operator than equality.
pub guess-satisfies :
    (E : Engine) (c : AndNode) (i : ℕ) (name : Text) (w : World)
    → All IsId (object_inodes w.objects)
    → is_ordinary c ≡ true
    → guess_inode_from_and_set E true c name w ≡ some i
    → i ≢ 0
    → satisfies name i c w ≡ true
unfolding guess_inode_from_and_set
guess-satisfies E c i name w ids o h ne =
    step_satisfies E c i name w (first_step E true c 0 name w) ids o ne refl h

-- The inode that is guessed for a name over the and-sets of a query is that of an object with the
-- name which has, for some and-set, each tag of it or a tag related to it, under the same conditions
-- on every and-set.
pub guess_inode-satisfies :
    (E : Engine) (tree : List AndNode) (i : ℕ) (name : Text) (w : World)
    → All IsId (object_inodes w.objects)
    → All (λ c. is_ordinary c ≡ true) tree
    → guess_inode E true tree name w ≡ some i
    → i ≢ 0
    → any (λ c. satisfies name i c w) tree ≡ true
unfolding guess_inode any
guess_inode-satisfies E [] i name w ids o h ne = ground arith
guess_inode-satisfies E (c ∷ tree) i name w ids o h ne =
    ground
      (arith, guess-satisfies E c i name w ids o.0, guess_inode-satisfies E tree i name w ids o.1)
