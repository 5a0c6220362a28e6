-- ===== src/Sql/Tags/Creation.antt =====
-- A tag that is created, and an object that is tagged, leave the tables consistent (src/sql.c).
use tagsistant.Base.{
  ℕ, ◌+◌, ◌≤◌, ◌<◌, ◌≡◌, ◌≢◌, Text, Option, none, some, Bool, true, false, ◌||◌, List, [], ◌∷◌,
  ◌++◌, ◌==◌, if◌then◌else◌, select, any, any-append, arith, Bool-cases, inl, inr, contains, All,
  str_eq_refl, Option-cases, ap,
}
use mathlib.Core.Bool.{false≢true}
use tagsistant.Base.Dict.{lookup}
use tagsistant.Sql.{World, Db, TagRow, TaggingRow}
use tagsistant.Sql.Engine.{Engine, IsId, u32_mod, return_integer, return_integer-IsId}
use tagsistant.Sql.Tags.{
  get_tag_id, select_tag_id, create_tag, ensure_tag, safe_string, tag_ids, is_tag, insert_tag,
  query_integer, execute, tag_object, insert_tagging, is_tagging,
}
use tagsistant.Sql.Tags.Cache.{key_of, get-db}
use tagsistant.Sql.Tags.Consistency.{
  has_id, IsConsistent, All-select_ids, get-has_id, get-IsConsistent,
}

tag_ids-append :
    (rows : List TagRow) (r : TagRow) (id : ℕ)
    → contains id (tag_ids (rows ++ r ∷ [])) ≡ (contains id (tag_ids rows) || id == r.tag_id)
unfolding tag_ids contains
tag_ids-append [] r id = ground arith
tag_ids-append (s ∷ rows) r id = ground (arith, tag_ids-append rows r id)

All-append_id :
    (P Q : ℕ → Type 0) (rows : List TagRow) (r : TagRow)
    → ((id : ℕ) → P id → Q id)
    → All P (tag_ids rows)
    → Q r.tag_id
    → All Q (tag_ids (rows ++ r ∷ []))
unfolding tag_ids
All-append_id P Q [] r f h q = (q, tt)
All-append_id P Q (s ∷ rows) r f h q = (f s.tag_id h.0, All-append_id P Q rows r f h.1 q)

All-weaken :
    (P Q : TaggingRow → Type 0) (rows : List TaggingRow)
    → ((r : TaggingRow) → P r → Q r)
    → All P rows
    → All Q rows
All-weaken P Q [] f h = tt
All-weaken P Q (r ∷ rows) f h = (f r h.0, All-weaken P Q rows f h.1)

-- The row that `insert into tags` adds.
abbrev new_row : Text → Text → Text → World → TagRow
new_row n k v w = record { tag_id = w.tags_sequence + 1; tagname = n; key = k; value = v }

has_id-insert_tag :
    (n k v : Text) (id : ℕ) (w : World) → has_id id w ≡ true → has_id id (insert_tag n k v w) ≡ true
unfolding insert_tag
has_id-insert_tag n k v id w h = ground (arith, tag_ids-append w.tags (new_row n k v w) id)

insert_tag-IsConsistent :
    (n k v : Text) (w : World)
    → IsConsistent w
    → w.tags_sequence + 1 < u32_mod
    → IsConsistent (insert_tag n k v w)
unfolding insert_tag
insert_tag-IsConsistent n k v w c room = elim (Bool-cases (any (is_tag n k v) w.tags)) [
  | inl old ↦ rw old c
  | inr new ↦ rw new (record {
    ids = All-append_id IsId IsId w.tags (new_row n k v w) (λ id h. h) c.ids (omega arith);
    below =
        All-append_id (λ id. id ≤ w.tags_sequence) (λ id. id ≤ w.tags_sequence + 1) w.tags
          (new_row n k v w) (λ id h. omega arith) c.below (omega arith);
    cached =
        λ key id e. ground (arith, tag_ids-append w.tags (new_row n k v w) id, c.cached key id e);
    tagged =
        All-weaken (λ (r : TaggingRow). has_id r.tag_id w ≡ true)
          (λ (r : TaggingRow). contains r.tag_id (tag_ids (w.tags ++ new_row n k v w ∷ [])) ≡ true)
          w.tagging (λ r h. ground (arith, tag_ids-append w.tags (new_row n k v w) r.tag_id))
          c.tagged;
  })
]

-- A tag that is created keeps the invariant, while the counter stays within 32 bits.
create-IsConsistent :
    (conn : Bool) (n k v : Option Text) (w : World)
    → IsConsistent w
    → w.tags_sequence + 1 < u32_mod
    → IsConsistent (create_tag conn n k v w)
unfolding create_tag execute
create-IsConsistent conn none k v w c room = c
create-IsConsistent false (some n) k v w c room = c
create-IsConsistent true (some n) k v w c room =
    insert_tag-IsConsistent n (safe_string k) (safe_string v) w c room

pub any-insert_tag :
    (n k v : Text) (w : World) → any (is_tag n k v) (insert_tag n k v w).tags ≡ true
unfolding insert_tag
any-insert_tag n k v w = elim (Bool-cases (any (is_tag n k v) w.tags)) [
  | inl old ↦ rw (old, if◌then◌else◌) old
  | inr new ↦ rw new (
      rw any-append
        (unfold any is_tag in ground (arith, str_eq_refl n, str_eq_refl k, str_eq_refl v)))
]

select-ne-nil :
    (E : Engine) (p : TagRow → Bool) (rows : List TagRow)
    → All IsId (tag_ids rows)
    → any p rows ≡ true
    → query_integer E true (tag_ids (select p rows)) ≢ 0
unfolding any select tag_ids query_integer
select-ne-nil E p [] ids h = λ e. false≢true h
select-ne-nil E p (r ∷ rows) ids h = elim (Bool-cases (p r)) [
  | inl kept ↦ rw kept (λ e.
      let good : IsId (return_integer E (r.tag_id ∷ tag_ids (select p rows))) =
        return_integer-IsId E r.tag_id (tag_ids (select p rows))
          (ids.0, All-select_ids IsId p rows ids.1) in
      omega arith)
  | inr dropped ↦ rw dropped (select-ne-nil E p rows ids.1 (rw dropped at h))
]

-- A tag that is in the table is found.
get-ne-zero :
    (E : Engine) (n k v : Text) (w : World)
    → IsConsistent w
    → any (is_tag n k v) w.tags ≡ true
    → (get_tag_id E true (some n) (some k) (some v) w).0 ≢ 0
unfolding get_tag_id
get-ne-zero E n k v w c h =
    let found : select_tag_id E true (some n) (some k) (some v) w ≢ 0 =
      (unfold select_tag_id in select-ne-nil E (is_tag n k v) w.tags c.ids h) in
    elim (Option-cases (lookup (key_of (some n) (some k) (some v)) w.tag_cache)) [
      | inl miss ↦ ground arith
      | inr (id, hit) ↦ ground arith
    ]

get-has_id_after :
    (E : Engine) (n k v : Option Text) (w : World)
    → IsConsistent w
    → (get_tag_id E true n k v w).0 ≢ 0
    → has_id (get_tag_id E true n k v w).0 (get_tag_id E true n k v w).1 ≡ true
get-has_id_after E n k v w c h =
    rw (ap (λ (d : Db). d.tags) (get-db E true n k v w)) (get-has_id E true n k v w c h)

All-snoc :
    (P : TaggingRow → Type 0) (rows : List TaggingRow) (r : TaggingRow)
    → All P rows
    → P r
    → All P (rows ++ r ∷ [])
All-snoc P [] r h p = (p, tt)
All-snoc P (s ∷ rows) r h p = (h.0, All-snoc P rows r h.1 p)

-- What ensures that a tag is there returns the id of a row, and keeps the invariant.
pub ensure-has_id :
    (E : Engine) (n k v : Text) (w : World)
    → IsConsistent w
    → w.tags_sequence + 1 < u32_mod
    → let r = ensure_tag E true (some n) (some k) (some v) w in
      (r.0 ≢ 0) × (has_id r.0 r.1 ≡ true) × IsConsistent r.1
unfolding ensure_tag
ensure-has_id E n k v w c room =
    let w1 = (get_tag_id E true (some n) (some k) (some v) w).1 in
    let c1 : IsConsistent w1 = get-IsConsistent E true (some n) (some k) (some v) w c in
    let same : w1.db ≡ w.db = get-db E true (some n) (some k) (some v) w in
    let w2 = create_tag true (some n) (some k) (some v) w1 in
    let c2 : IsConsistent w2 =
      create-IsConsistent true (some n) (some k) (some v) w1 c1
        (rw (ap (λ (d : Db). d.tags_sequence) same) room) in
    let there : any (is_tag n k v) w2.tags ≡ true =
      (unfold create_tag execute safe_string in any-insert_tag n k v w1) in
    let ne : (get_tag_id E true (some n) (some k) (some v) w2).0 ≢ 0 =
      get-ne-zero E n k v w2 c2 there in
    elim (Bool-cases ((get_tag_id E true (some n) (some k) (some v) w).0 == 0)) [
      | inl missing ↦ rw missing (
        ne,
        get-has_id_after E (some n) (some k) (some v) w2 c2 ne,
        get-IsConsistent E true (some n) (some k) (some v) w2 c2,
      )
      | inr found ↦
          let ne1 : (get_tag_id E true (some n) (some k) (some v) w).0 ≢ 0 = ground arith in
          rw found (ne1, get-has_id_after E (some n) (some k) (some v) w c ne1, c1)
    ]

insert_tagging-IsConsistent :
    (id inode : ℕ) (w : World)
    → IsConsistent w
    → has_id id w ≡ true
    → IsConsistent (insert_tagging id inode w)
unfolding insert_tagging
insert_tagging-IsConsistent id inode w c h =
    elim (Bool-cases (any (is_tagging inode id) w.tagging)) [
      | inl old ↦ rw old c
      | inr new ↦ rw new (record {
        ids = c.ids;
        below = c.below;
        cached = c.cached;
        tagged =
            All-snoc (λ (r : TaggingRow). has_id r.tag_id w ≡ true) w.tagging
              (record { inode = inode; tag_id = id }) c.tagged h;
      })
    ]

-- Tagging an object keeps the invariant: what the new row names is a tag that exists.
pub tag_object-IsConsistent :
    (E : Engine) (n k v : Text) (inode : ℕ) (w : World)
    → IsConsistent w
    → w.tags_sequence + 1 < u32_mod
    → IsConsistent (tag_object E true (some n) (some k) (some v) inode w)
unfolding tag_object safe_string
tag_object-IsConsistent E n k v inode w c room =
    let facts = ensure-has_id E n k v w c room in
    insert_tagging-IsConsistent (ensure_tag E true (some n) (some k) (some v) w).0 inode
      (ensure_tag E true (some n) (some k) (some v) w).1 facts.2 facts.1
