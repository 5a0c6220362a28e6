-- ===== src/Sql/Tags.antt =====
-- The tag functions of src/sql.c: creation, lookup through tagsistant_tag_cache, deletion, tagging.
pub mod Creation
pub mod Ensured
pub mod Cache
pub mod Consistency
pub mod Deletion
pub mod Tagging
use tagsistant.Base.{
  ℕ, ◌+◌, Text, codes, Option, none, some, Bool, true, false, ◌&&◌, ◌||◌, not, List, [], ◌∷◌, ◌++◌,
  map, str_eq, ◌==◌, if◌then◌else◌, select, any, length,
}
use tagsistant.Base.Dict
use tagsistant.Sql.{World, TagRow, TaggingRow, RelationRow}
use tagsistant.Sql.Engine.{Engine, return_integer}

-- _safe_string()
unfoldable pub safe_string : Option Text → Text
safe_string none = []
safe_string (some s) = s

-- What `%s` prints for a pointer that may be NULL.
unfoldable pub printf_s : Option Text → Text
printf_s none = codes "(null)"
printf_s (some s) = s

-- tagsistant_real_query() with tagsistant_return_integer(): with no connection no row is read.
unfoldable pub query_integer : Engine → Bool → List ℕ → ℕ
query_integer E conn rows = if conn then return_integer E rows else 0

-- A statement that needs the connection, and changes nothing without one.
unfoldable pub execute : Bool → (World → World) → World → World
execute conn statement w = if conn then statement w else w

abbrev separator : Text
separator = codes "<separator>"

-- tagsistant_make_tag_key()
unfoldable pub make_tag_key : Text → Text → Text → Text
make_tag_key tagname key value = tagname ++ (separator ++ (key ++ (separator ++ value)))

unfoldable pub is_tag : Text → Text → Text → TagRow → Bool
is_tag tagname key value r = str_eq r.tagname tagname && str_eq r.key key && str_eq r.value value

-- The constraint `Tag_key` refuses a second row with the same three texts.
unfoldable pub insert_tag : Text → Text → Text → World → World
unfolding is_tag
insert_tag tagname key value w = if any (is_tag tagname key value) w.tags then w else record w {
  db = record w.db {
    tags =
        w.tags
        ++ record { tag_id = w.tags_sequence + 1; tagname = tagname; key = key; value = value }
          ∷ [];
    tags_sequence = w.tags_sequence + 1;
  };
}

unfoldable pub create_tag : Bool → Option Text → Option Text → Option Text → World → World
create_tag conn none key value w = w
create_tag conn (some tagname) key value w =
    execute conn (insert_tag tagname (safe_string key) (safe_string value)) w

-- The `where` clause of the lookup names the value and the key only if they are given.
unfoldable pub matches : Text → Option Text → Option Text → TagRow → Bool
unfolding is_tag safe_string
matches tagname key (some value) r = is_tag tagname (safe_string key) value r
matches tagname (some key) none r = str_eq r.tagname tagname && str_eq r.key key
matches tagname none none r = str_eq r.tagname tagname

unfoldable pub tag_ids : List TagRow → List ℕ
tag_ids [] = []
tag_ids (r ∷ rows) = r.tag_id ∷ tag_ids rows

unfoldable pub select_tag_id : Engine → Bool → Option Text → Option Text → Option Text → World → ℕ
unfolding matches query_integer printf_s tag_ids
select_tag_id E conn tagname key value w =
    query_integer E conn (tag_ids (select (matches (printf_s tagname) key value) w.tags))

abbrev pub remember : Text → ℕ → World → World
remember key id w = record w { tag_cache = Dict.insert key id w.tag_cache }

-- The lookup in the database, which saves a tag that it finds.
unfoldable pub fetch_tag_id :
    Engine → Bool → Option Text → Option Text → Option Text → World → ℕ × World
unfolding select_tag_id make_tag_key safe_string
fetch_tag_id E conn tagname key value w =
    let id = select_tag_id E conn tagname key value w in
    if id == 0 then (id, w) else (
      id,
      remember (make_tag_key (safe_string tagname) (safe_string key) (safe_string value)) id w,
    )

unfoldable pub get_tag_id :
    Engine → Bool → Option Text → Option Text → Option Text → World → ℕ × World
unfolding fetch_tag_id
get_tag_id E conn tagname key value w =
    let fetched = fetch_tag_id E conn tagname key value w in
    let cached =
      Dict.lookup (make_tag_key (safe_string tagname) (safe_string key) (safe_string value))
        w.tag_cache in
    elim cached [ none ↦ fetched | some id ↦ if id == 0 then fetched else (id, w) ]

unfoldable pub remove_tag_from_cache : Option Text → Option Text → Option Text → World → World
unfolding make_tag_key safe_string printf_s
remove_tag_from_cache tagname key value w = record w {
  tag_cache =
      Dict.remove (make_tag_key (printf_s tagname) (safe_string key) (safe_string value))
        w.tag_cache;
}

-- `delete from tags`, `delete from tagging` and `delete from relations` of one tag.
unfoldable pub delete_tag_rows : Text → Text → Text → ℕ → World → World
unfolding is_tag
delete_tag_rows tagname key value id w = record w {
  db = record w.db {
    tags = select (λ r. not (is_tag tagname key value r)) w.tags;
    tagging = select (λ (r : TaggingRow). not (r.tag_id == id)) w.tagging;
    relations = select (λ (r : RelationRow). not (r.tag1_id == id || r.tag2_id == id)) w.relations;
  };
}

unfoldable pub delete_tag : Engine → Bool → Option Text → Option Text → Option Text → World → World
unfolding execute
delete_tag E conn tagname key value w =
    let k = safe_string key in
    let v = safe_string value in
    let (id, w1) = get_tag_id E conn tagname (some k) (some v) w in
    execute conn (delete_tag_rows (printf_s tagname) k v id)
      (remove_tag_from_cache tagname (some k) (some v) w1)

unfoldable pub is_tagging : ℕ → ℕ → TaggingRow → Bool
is_tagging inode id r = r.inode == inode && r.tag_id == id

-- The constraint `Tagging_key` refuses a second row.
unfoldable pub insert_tagging : ℕ → ℕ → World → World
unfolding is_tagging
insert_tagging id inode w = if any (is_tagging inode id) w.tagging then w else record w {
  db = record w.db { tagging = w.tagging ++ record { inode = inode; tag_id = id } ∷ [] };
}

unfoldable pub delete_tagging : ℕ → ℕ → World → World
unfolding is_tagging
delete_tagging id inode w = record w {
  db = record w.db { tagging = select (λ r. not (is_tagging inode id r)) w.tagging };
}

-- The id of a tag that is created if the first lookup does not find it.
unfoldable pub ensure_tag :
    Engine → Bool → Option Text → Option Text → Option Text → World → ℕ × World
ensure_tag E conn tagname key value w =
    let (id, w1) = get_tag_id E conn tagname key value w in
    let again = get_tag_id E conn tagname key value (create_tag conn tagname key value w1) in
    if id == 0 then again else (id, w1)

unfoldable pub tag_object :
    Engine → Bool → Option Text → Option Text → Option Text → ℕ → World → World
unfolding execute
tag_object E conn tagname key value inode w =
    let (id, w1) =
      ensure_tag E conn tagname (some (safe_string key)) (some (safe_string value)) w in
    execute conn (insert_tagging id inode) w1

unfoldable pub untag_object :
    Engine → Bool → Option Text → Option Text → Option Text → ℕ → World → World
unfolding execute
untag_object E conn tagname key value inode w =
    let (id, w1) =
      get_tag_id E conn tagname (some (safe_string key)) (some (safe_string value)) w in
    execute conn (delete_tagging id inode) w1
