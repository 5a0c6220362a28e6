-- ===== src/Sql/Tags/Ensured.antt =====
-- The row of a tag that was created where it was missing (src/sql.c).
use tagsistant.Base.{
  ◌≡◌, ◌≢◌, Text, some, Bool, true, false, ◌||◌, List, [], ◌∷◌, select, any, arith, is_some,
}
use tagsistant.Base.Dict.{lookup}
use tagsistant.Sql.{World, TagRow}
use tagsistant.Sql.Engine.{Engine, return_integer}
use tagsistant.Sql.Tags.{
  get_tag_id, fetch_tag_id, select_tag_id, create_tag, ensure_tag, safe_string, tag_ids, is_tag,
  query_integer, execute,
}
use tagsistant.Sql.Tags.Cache.{key_of, get-db}
use tagsistant.Sql.Tags.Creation.{any-insert_tag}

select-nil :
    (E : Engine) (p : TagRow → Bool) (rows : List TagRow)
    → any p rows ≡ false
    → query_integer E true (tag_ids (select p rows)) ≡ 0
unfolding any select tag_ids query_integer return_integer
select-nil E p [] h = λ i. 0
select-nil E p (r ∷ rows) h = ground (arith, select-nil E p rows)

create_tag-is_tag :
    (n k v : Text) (w : World)
    → any (is_tag n k v) (create_tag true (some n) (some k) (some v) w).tags ≡ true
unfolding create_tag execute safe_string
create_tag-is_tag n k v w = any-insert_tag n k v w

-- A tag that is found has a row, unless the cache had it.
get-is_tag :
    (E : Engine) (n k v : Text) (w : World)
    → (get_tag_id E true (some n) (some k) (some v) w).0 ≢ 0
    → (is_some (lookup (key_of (some n) (some k) (some v)) w.tag_cache)
        || any (is_tag n k v) w.tags)
      ≡ true
unfolding get_tag_id fetch_tag_id select_tag_id safe_string
get-is_tag E n k v w h = ground (arith, select-nil E (is_tag n k v) w.tags)

pub ensure-is_tag :
    (E : Engine) (n k v : Text) (w : World)
    → (is_some (lookup (key_of (some n) (some k) (some v)) w.tag_cache)
        || any (is_tag n k v) (ensure_tag E true (some n) (some k) (some v) w).1.tags)
      ≡ true
unfolding ensure_tag
ensure-is_tag E n k v w =
    let w1 = (get_tag_id E true (some n) (some k) (some v) w).1 in
    let w2 = create_tag true (some n) (some k) (some v) w1 in
    ground (
      arith,
      get-db E true (some n) (some k) (some v) w,
      get-db E true (some n) (some k) (some v) w2,
      create_tag-is_tag n k v w1,
      get-is_tag E n k v w,
    )
