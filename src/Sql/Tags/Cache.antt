-- ===== src/Sql/Tags/Cache.antt =====
-- tagsistant_tag_cache in front of the lookup of a tag id (src/sql.c).
use tagsistant.Base.{ℕ, ◌≡◌, ◌≢◌, Text, Option, some, Bool, str_eq_refl, arith}
use tagsistant.Base.Dict.{lookup, lookup-insert}
use tagsistant.Sql.{World}
use tagsistant.Sql.Engine.{Engine}
use tagsistant.Sql.Tags.{get_tag_id, fetch_tag_id, select_tag_id, make_tag_key, safe_string}

abbrev pub key_of : Option Text → Option Text → Option Text → Text
key_of n k v = make_tag_key (safe_string n) (safe_string k) (safe_string v)

-- What `fetch_tag_id` answers it saves, unless it answers 0.
fetch-cached :
    (E : Engine) (conn : Bool) (n k v : Option Text) (w : World)
    → (fetch_tag_id E conn n k v w).0 ≢ 0
    → lookup (key_of n k v) (fetch_tag_id E conn n k v w).1.tag_cache
      ≡ some (fetch_tag_id E conn n k v w).0
unfolding fetch_tag_id
fetch-cached E conn n k v w h = ground (
  arith,
  lookup-insert (key_of n k v) (key_of n k v) (select_tag_id E conn n k v w) w.tag_cache,
  str_eq_refl (key_of n k v),
)

pub get-cached :
    (E : Engine) (conn : Bool) (n k v : Option Text) (w : World)
    → (get_tag_id E conn n k v w).0 ≢ 0
    → lookup (key_of n k v) (get_tag_id E conn n k v w).1.tag_cache
      ≡ some (get_tag_id E conn n k v w).0
unfolding get_tag_id
get-cached E conn n k v w h = ground (arith, fetch-cached E conn n k v w)

-- A cached id is the answer, whatever the database holds.
pub get_of_cached :
    (E : Engine) (conn : Bool) (n k v : Option Text) (w : World) (id : ℕ)
    → id ≢ 0
    → lookup (key_of n k v) w.tag_cache ≡ some id
    → get_tag_id E conn n k v w ≡ (id, w)
unfolding get_tag_id
get_of_cached E conn n k v w id h c = ground arith

-- The lookup changes nothing but the cache.
pub get-db :
    (E : Engine) (conn : Bool) (n k v : Option Text) (w : World)
    → (get_tag_id E conn n k v w).1.db ≡ w.db
unfolding get_tag_id
get-db E conn n k v w = ground arith
