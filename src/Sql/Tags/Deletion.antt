-- ===== src/Sql/Tags/Deletion.antt =====
-- What tagsistant_sql_delete_tag() leaves in the tables and in the tag cache (src/sql.c).
use tagsistant.Base.{
  ◌≡◌, ℕ, ◌==◌, ◌||◌, not, refl, Text, some, none, Bool, true, false, List, [], ◌∷◌, str_eq_refl,
  any, select, arith,
}
use tagsistant.Base.Dict.{lookup, lookup-remove}
use tagsistant.Sql.{World, RelationRow, TaggingRow}
use tagsistant.Sql.Engine.{Engine, return_integer}
use tagsistant.Sql.Tags.{
  get_tag_id, fetch_tag_id, select_tag_id, make_tag_key, safe_string, printf_s, execute, is_tag,
  matches, tag_ids, query_integer, delete_tag, delete_tag_rows, remove_tag_from_cache,
}

module _ {ℓ} {A : Type ℓ} where
  -- What is deleted is not selected.
  select-select-not : (p : A → Bool) (xs : List A) → select p (select (λ x. not (p x)) xs) ≡ []
  unfolding select
  select-select-not p [] = refl
  select-select-not p (x ∷ xs) = ground (arith, select-select-not p xs)

  any-select-not : (p : A → Bool) (xs : List A) → any p (select (λ x. not (p x)) xs) ≡ false
  unfolding any select
  any-select-not p [] = refl
  any-select-not p (x ∷ xs) = ground (arith, any-select-not p xs)

-- A tag that no row and no entry of the cache has is not found.
get_of_missing :
    (E : Engine) (n k v : Text) (w : World)
    → lookup (make_tag_key n k v) w.tag_cache ≡ none
    → select (is_tag n k v) w.tags ≡ []
    → (get_tag_id E true (some n) (some k) (some v) w).0 ≡ 0
unfolding get_tag_id fetch_tag_id select_tag_id matches printf_s safe_string
get_of_missing E n k v w c r =
    let zero_id : query_integer E true (tag_ids (select (is_tag n k v) w.tags)) ≡ 0 =
      rw r (unfold query_integer tag_ids return_integer in refl) in
    ground (arith, c, zero_id)

delete_tag-get_tag_id :
    (E : Engine) (n k v : Text) (w : World)
    → (get_tag_id E true
        (some n)
        (some k)
        (some v)
        (delete_tag E true (some n) (some k) (some v) w)).0
      ≡ 0
unfolding delete_tag delete_tag_rows remove_tag_from_cache execute safe_string printf_s
delete_tag-get_tag_id E n k v w =
    let w1 = (get_tag_id E true (some n) (some k) (some v) w).1 in
    get_of_missing E n k v (delete_tag E true (some n) (some k) (some v) w)
      (ground (
        arith,
        lookup-remove (make_tag_key n k v) (make_tag_key n k v) w1.tag_cache,
        str_eq_refl (make_tag_key n k v),
      ))
      (select-select-not (is_tag n k v) w1.tags)

-- The taggings and the relations that name an id.
abbrev pub is_used : ℕ → World → Bool
is_used id w =
    any (λ (r : TaggingRow). r.tag_id == id) w.tagging
    || any (λ (r : RelationRow). r.tag1_id == id || r.tag2_id == id) w.relations

-- A deleted tag is not found any more, neither in the cache nor in the database, and no tagging and
-- no relation names the id that it had.
pub delete_tag-is_used :
    (E : Engine) (n k v : Text) (w : World)
    → let w' = delete_tag E true (some n) (some k) (some v) w in
      ((get_tag_id E true (some n) (some k) (some v) w').0 ≡ 0)
      × (is_used (get_tag_id E true (some n) (some k) (some v) w).0 w' ≡ false)
unfolding delete_tag delete_tag_rows safe_string printf_s execute remove_tag_from_cache
delete_tag-is_used E n k v w =
    let (id, w1) = get_tag_id E true (some n) (some k) (some v) w in
    (
      delete_tag-get_tag_id E n k v w,
      ground (
        arith,
        any-select-not (λ (r : TaggingRow). r.tag_id == id) w1.tagging,
        any-select-not (λ (r : RelationRow). r.tag1_id == id || r.tag2_id == id) w1.relations,
      ),
    )
