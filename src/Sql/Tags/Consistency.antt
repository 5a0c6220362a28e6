-- ===== src/Sql/Tags/Consistency.antt =====
-- The invariant that ties the tables of src/sql.c and the tag cache together, and the operations
-- that keep it.
use tagsistant.Base.{
  ℕ, ◌≤◌, ◌≡◌, ◌≢◌, ◌⊎◌, refl, Text, Option, some, Bool, true, false, List, [], ◌∷◌, ◌==◌, select,
  arith, Bool-cases, inl, inr, contains, All, Option-cases, sym,
}
use mathlib.Core.Path.{subst}
use tagsistant.Base.Dict.{lookup, lookup-insert}
use tagsistant.Sql.{World, TagRow, TaggingRow}
use tagsistant.Sql.Engine.{Engine, IsId, return_integer, return_integer-contains}
use tagsistant.Sql.Tags.{
  get_tag_id, select_tag_id, printf_s, matches, tag_ids, query_integer, remember,
}
use tagsistant.Sql.Tags.Cache.{key_of}

-- A row of the tags table has that id.
abbrev pub has_id : ℕ → World → Bool
has_id id w = contains id (tag_ids w.tags)

-- Ids are positive, of 32 bits and below the counter; what the cache and the taggings name exists.
pub record IsConsistent (w : World) : Type 0 where
  pub ids : All IsId (tag_ids w.tags)
  pub below : All (λ id. id ≤ w.tags_sequence) (tag_ids w.tags)
  pub cached : (key : Text) (id : ℕ) → lookup key w.tag_cache ≡ some id → has_id id w ≡ true
  pub tagged : All (λ (r : TaggingRow). has_id r.tag_id w ≡ true) w.tagging

pub All-select_ids :
    (P : ℕ → Type 0) (p : TagRow → Bool) (rows : List TagRow)
    → All P (tag_ids rows)
    → All P (tag_ids (select p rows))
unfolding tag_ids select
All-select_ids P p [] h = tt
All-select_ids P p (r ∷ rows) h = elim (Bool-cases (p r)) [
  | inl kept ↦ rw kept (h.0, All-select_ids P p rows h.1)
  | inr dropped ↦ rw dropped (All-select_ids P p rows h.1)
]

contains-select_ids :
    (id : ℕ) (p : TagRow → Bool) (rows : List TagRow)
    → contains id (tag_ids (select p rows)) ≡ true
    → contains id (tag_ids rows) ≡ true
unfolding tag_ids select contains
contains-select_ids id p [] h = h
contains-select_ids id p (r ∷ rows) h = ground (arith, contains-select_ids id p rows)

query_cases :
    (E : Engine) (conn : Bool) (xs : List ℕ)
    → All IsId xs
    → (query_integer E conn xs ≡ 0) ⊎ (contains (query_integer E conn xs) xs ≡ true)
unfolding query_integer
query_cases E false xs h = inl refl
query_cases E true [] h = inl (unfold return_integer in refl)
query_cases E true (x ∷ xs) h = inr (return_integer-contains E x xs h)

-- The lookup in the database finds nothing, or the id of a row.
select_cases :
    (E : Engine) (conn : Bool) (n k v : Option Text) (w : World)
    → All IsId (tag_ids w.tags)
    → (select_tag_id E conn n k v w ≡ 0) ⊎ (has_id (select_tag_id E conn n k v w) w ≡ true)
unfolding select_tag_id
select_cases E conn n k v w h =
    elim (query_cases E conn (tag_ids (select (matches (printf_s n) k v) w.tags))
      (All-select_ids IsId (matches (printf_s n) k v) w.tags h)) [
        | inl z ↦ inl z
        | inr c ↦ inr (contains-select_ids _ (matches (printf_s n) k v) w.tags c)
      ]

-- Every answer of the lookup but 0 is the id of a row.
pub get-has_id :
    (E : Engine) (conn : Bool) (n k v : Option Text) (w : World)
    → IsConsistent w
    → (get_tag_id E conn n k v w).0 ≢ 0
    → has_id (get_tag_id E conn n k v w).0 w ≡ true
unfolding get_tag_id
get-has_id E conn n k v w c h = elim (Option-cases (lookup (key_of n k v) w.tag_cache)) [
  | inl miss ↦ ground (arith, select_cases E conn n k v w c.ids)
  | inr (id, hit) ↦ ground (arith, select_cases E conn n k v w c.ids, c.cached _ id hit)
]

-- The lookup leaves the world, or saves an id that it has found.
get_cases :
    (E : Engine) (conn : Bool) (n k v : Option Text) (w : World)
    → All IsId (tag_ids w.tags)
    → ((get_tag_id E conn n k v w).1 ≡ w)
      ⊎ ((id : ℕ) × ((get_tag_id E conn n k v w).1 ≡ remember (key_of n k v) id w)
          × (has_id id w ≡ true))
unfolding get_tag_id
get_cases E conn n k v w h =
    let id = select_tag_id E conn n k v w in
    elim (Bool-cases (id == 0)) [
      | inl zero_id ↦ inl (ground arith)
      | inr found ↦ elim (Option-cases (lookup (key_of n k v) w.tag_cache)) [
        | inl miss ↦ inr (id, ground arith, ground (arith, select_cases E conn n k v w h))
        | inr (old, hit) ↦ elim (Bool-cases (old == 0)) [
          | inl stale ↦ inr (id, ground arith, ground (arith, select_cases E conn n k v w h))
          | inr fresh ↦ inl (ground arith)
        ]
      ]
    ]

remember-IsConsistent :
    (key : Text) (id : ℕ) (w : World)
    → IsConsistent w
    → has_id id w ≡ true
    → IsConsistent (remember key id w)
remember-IsConsistent key id w c h = record {
  ids = c.ids;
  below = c.below;
  cached = λ j i e. ground (arith, lookup-insert key j id w.tag_cache, c.cached j i);
  tagged = c.tagged;
}

-- The lookup keeps the invariant.
pub get-IsConsistent :
    (E : Engine) (conn : Bool) (n k v : Option Text) (w : World)
    → IsConsistent w
    → IsConsistent (get_tag_id E conn n k v w).1
get-IsConsistent E conn n k v w c = elim (get_cases E conn n k v w c.ids) [
  | inl same ↦ subst IsConsistent (sym same) c
  | inr (id, saved, found) ↦
      subst IsConsistent (sym saved) (remember-IsConsistent (key_of n k v) id w c found)
]
