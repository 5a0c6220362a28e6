-- ===== src/Sql/Tags/Tagging.antt =====
-- What tagging and untagging an object do to the tagging table (src/sql.c).
use tagsistant.Base.{
  ℕ, ◌+◌, ◌<◌, ◌≡◌, ◌≢◌, Text, some, Bool, true, ◌&&◌, ◌||◌, not, List, [], ◌∷◌, ◌==◌, select, any,
  any-append, is_some, arith, Bool-cases, inl, inr, ◌∙◌,
}
use tagsistant.Base.Dict.{lookup}
use tagsistant.Sql.{World, TaggingRow}
use tagsistant.Sql.Engine.{Engine, u32_mod}
use tagsistant.Sql.Tags.{
  get_tag_id, create_tag, ensure_tag, safe_string, execute, tag_object, untag_object,
  insert_tagging, delete_tagging, insert_tag, is_tagging, is_tag,
}
use tagsistant.Sql.Tags.Cache.{key_of, get-cached, get_of_cached, get-db}
use tagsistant.Sql.Tags.Consistency.{IsConsistent, has_id}
use tagsistant.Sql.Tags.Creation.{ensure-has_id}
use tagsistant.Sql.Tags.Ensured.{ensure-is_tag}

-- The object has that tag, by its id.
abbrev pub is_tagged : ℕ → ℕ → World → Bool
is_tagged inode id w = any (is_tagging inode id) w.tagging

is_tagged-insert :
    (id inode j i : ℕ) (w : World)
    → is_tagged i j (insert_tagging id inode w) ≡ (is_tagged i j w || (i == inode && j == id))
unfolding insert_tagging any is_tagging
is_tagged-insert id inode j i w =
    ground (arith, any-append (is_tagging i j) w.tagging (row ∷ []), last)
  where
    row : TaggingRow
    row = record { inode = inode; tag_id = id }

    last : any (is_tagging i j) (row ∷ []) ≡ (i == inode && j == id)
    last = ground arith

any-is_tagging-select :
    (id inode j i : ℕ) (rows : List TaggingRow)
    → any (is_tagging i j) (select (λ r. not (is_tagging inode id r)) rows)
      ≡ (any (is_tagging i j) rows && not (i == inode && j == id))
unfolding any select is_tagging
any-is_tagging-select id inode j i [] = ground arith
any-is_tagging-select id inode j i (r ∷ rows) =
    ground (arith, any-is_tagging-select id inode j i rows)

ensure-cached :
    (E : Engine) (n k v : Text) (w : World)
    → (ensure_tag E true (some n) (some k) (some v) w).0 ≢ 0
    → let r = ensure_tag E true (some n) (some k) (some v) w in
      lookup (key_of (some n) (some k) (some v)) r.1.tag_cache ≡ some r.0
unfolding ensure_tag
ensure-cached E n k v w h =
    let w1 = (get_tag_id E true (some n) (some k) (some v) w).1 in
    let w2 = create_tag true (some n) (some k) (some v) w1 in
    elim (Bool-cases ((get_tag_id E true (some n) (some k) (some v) w).0 == 0)) [
      | inl missing ↦
          let ne : (get_tag_id E true (some n) (some k) (some v) w2).0 ≢ 0 = rw missing at h in
          rw missing (get-cached E true (some n) (some k) (some v) w2 ne)
      | inr found ↦
          let ne : (get_tag_id E true (some n) (some k) (some v) w).0 ≢ 0 = ground arith in
          rw found (get-cached E true (some n) (some k) (some v) w ne)
    ]

create_tag-tagging :
    (n k v : Text) (w : World) → (create_tag true (some n) (some k) (some v) w).tagging ≡ w.tagging
unfolding create_tag execute insert_tag
create_tag-tagging n k v w = ground arith

ensure-tagging :
    (E : Engine) (n k v : Text) (w : World)
    → (ensure_tag E true (some n) (some k) (some v) w).1.tagging ≡ w.tagging
unfolding ensure_tag
ensure-tagging E n k v w =
    let w1 = (get_tag_id E true (some n) (some k) (some v) w).1 in
    let w2 = create_tag true (some n) (some k) (some v) w1 in
    ground (
      arith,
      get-db E true (some n) (some k) (some v) w,
      get-db E true (some n) (some k) (some v) w2,
      create_tag-tagging n k v w1,
    )

insert_tagging-tag_cache :
    (id inode : ℕ) (w : World) → (insert_tagging id inode w).tag_cache ≡ w.tag_cache
unfolding insert_tagging
insert_tagging-tag_cache id inode w = ground arith

-- With a consistent database and room for one more tag id, tagging an object ends with an id that the lookup gives, that is not 0 and that a row of the
-- tags has; the tag itself has a row, unless its key was in the cache before; and the taggings are
-- those of before with the object and that id.
pub tag_object-is_tagged :
    (E : Engine) (n k v : Text) (inode i j : ℕ) (w : World)
    → IsConsistent w
    → w.tags_sequence + 1 < u32_mod
    → let w' = tag_object E true (some n) (some k) (some v) inode w in
      let id = (get_tag_id E true (some n) (some k) (some v) w').0 in
      (id ≢ 0)
      × (has_id id w' ≡ true)
      × ((is_some (lookup (key_of (some n) (some k) (some v)) w.tag_cache)
            || any (is_tag n k v) w'.tags)
          ≡ true)
      × (is_tagged i j w' ≡ (is_tagged i j w || (i == inode && j == id)))
unfolding tag_object safe_string
tag_object-is_tagged E n k v inode i j w c room =
    let r = ensure_tag E true (some n) (some k) (some v) w in
    let same = ensure-tagging E n k v w in
    let facts = ensure-has_id E n k v w c room in
    let ne = facts.0 in
    let saved : get_tag_id E true (some n) (some k) (some v) (insert_tagging r.0 inode r.1)
        ≡ (r.0, insert_tagging r.0 inode r.1) =
      get_of_cached E true (some n) (some k) (some v) (insert_tagging r.0 inode r.1) r.0 ne
        (rw insert_tagging-tag_cache (ensure-cached E n k v w ne)) in
    rw saved (
      ne,
      unfold insert_tagging in ground (arith, facts.1),
      unfold insert_tagging in ground (arith, ensure-is_tag E n k v w),
      is_tagged-insert r.0 inode j i r.1 ∙ rw same,
    )

-- Untagging removes the one row of the object and of the tag that the lookup gives.
pub untag_object-is_tagged :
    (E : Engine) (n k v : Text) (inode i j : ℕ) (w : World)
    → let id = (get_tag_id E true (some n) (some k) (some v) w).0 in
      is_tagged i j (untag_object E true (some n) (some k) (some v) inode w)
      ≡ (is_tagged i j w && not (i == inode && j == id))
unfolding untag_object safe_string delete_tagging
untag_object-is_tagged E n k v inode i j w =
    any-is_tagging-select _ inode j i _ ∙ rw (get-db E true (some n) (some k) (some v) w)
