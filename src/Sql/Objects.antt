-- ===== src/Sql/Objects.antt =====
-- The objects, the taggings of an object, and the renaming of tags (src/sql.c and the statements
-- that other files send). An update that breaks a constraint is refused as a whole.
pub mod Rows
use tagsistant.Base.{
  ℕ, ◌+◌, Text, Bool, true, false, ◌&&◌, ◌||◌, not, List, [], ◌∷◌, ◌++◌, map, str_eq, ◌==◌,
  if◌then◌else◌, select, any,
}
use tagsistant.Sql.{World, TagRow, ObjectRow, TaggingRow, RelationRow}
use tagsistant.Sql.Engine.{Engine, last_insert_id}
use tagsistant.Sql.Tags.{query_integer, execute, is_tagging}

unfoldable pub inodes_of : List TaggingRow → List ℕ
inodes_of [] = []
inodes_of (r ∷ rows) = r.inode ∷ inodes_of rows

unfoldable pub object_inodes : List ObjectRow → List ℕ
object_inodes [] = []
object_inodes (r ∷ rows) = r.inode ∷ object_inodes rows

-- tagsistant_object_is_tagged()
unfoldable pub object_is_tagged : Engine → Bool → ℕ → World → Bool
unfolding inodes_of query_integer
object_is_tagged E conn inode w = not (
    query_integer E conn (inodes_of (select (λ (r : TaggingRow). r.inode == inode) w.tagging)) == 0)

-- tagsistant_object_is_tagged_as()
unfoldable object_is_tagged_as : Engine → Bool → ℕ → ℕ → World → Bool
unfolding inodes_of query_integer is_tagging
object_is_tagged_as E conn inode id w =
    not (query_integer E conn (inodes_of (select (is_tagging inode id) w.tagging)) == 0)

-- tagsistant_full_untag_object()
unfoldable pub full_untag_object : ℕ → World → World
full_untag_object inode w = record w {
  db = record w.db { tagging = select (λ (r : TaggingRow). not (r.inode == inode)) w.tagging };
}

-- `insert into objects (objectname)` and tagsistant_last_insert_id().
unfoldable pub insert_object : Text → World → ℕ × World
unfolding last_insert_id
insert_object name w = (
  last_insert_id (w.objects_sequence + 1),
  record w {
    db = record w.db {
      objects =
          w.objects
          ++ record {
            inode = w.objects_sequence + 1;
            objectname = name;
            checksum = [];
            symlink = [];
          }
            ∷ [];
      objects_sequence = w.objects_sequence + 1;
    };
  },
)

-- `delete from objects where inode = …`
unfoldable pub delete_object : ℕ → World → World
delete_object inode w = record w {
  db = record w.db { objects = select (λ (r : ObjectRow). not (r.inode == inode)) w.objects };
}

abbrev update_objects : ℕ → (ObjectRow → ObjectRow) → World → World
update_objects inode change w = record w {
  db = record w.db {
    objects = map (λ (r : ObjectRow). if r.inode == inode then change r else r) w.objects;
  };
}

unfoldable pub set_objectname : Text → ℕ → World → World
set_objectname name inode = update_objects inode (λ r. record r { objectname = name })

unfoldable pub set_symlink : Text → ℕ → World → World
set_symlink target inode = update_objects inode (λ r. record r { symlink = target })

unfoldable pub set_checksum : Text → ℕ → World → World
set_checksum hex inode = update_objects inode (λ r. record r { checksum = hex })

-- A second row that agrees with an earlier one on the columns of a unique constraint.
unfoldable pub has_duplicate {ℓ} : {A : Type ℓ} → (A → A → Bool) → List A → Bool
has_duplicate same [] = false
has_duplicate same (x ∷ xs) = any (same x) xs || has_duplicate same xs

unfoldable same_tag_key : TagRow → TagRow → Bool
same_tag_key a b = str_eq a.tagname b.tagname && str_eq a.key b.key && str_eq a.value b.value

-- tagsistant_sql_rename_tag()
unfoldable pub rename_tag : Text → Text → World → World
unfolding has_duplicate same_tag_key
rename_tag tagname oldtagname w =
    let renamed =
      map
        (λ (r : TagRow). if str_eq r.tagname oldtagname then record r { tagname = tagname } else r)
        w.tags in
    if has_duplicate same_tag_key renamed
    then w
    else record w { db = record w.db { tags = renamed } }

unfoldable pub same_tagging : TaggingRow → TaggingRow → Bool
same_tagging a b = a.inode == b.inode && a.tag_id == b.tag_id

-- `update tagging set inode = … where inode = …`
unfoldable pub move_tagging : ℕ → ℕ → World → World
unfolding has_duplicate same_tagging
move_tagging to from w =
    let moved =
      map (λ (r : TaggingRow). if r.inode == from then record r { inode = to } else r) w.tagging in
    if has_duplicate same_tagging moved
    then w
    else record w { db = record w.db { tagging = moved } }

-- `insert into relations`
unfoldable pub insert_relation : ℕ → ℕ → Text → World → World
insert_relation tag1 tag2 relation w = record w {
  db = record w.db {
    relations = w.relations ++ record { tag1_id = tag1; relation = relation; tag2_id = tag2 } ∷ [];
  };
}

unfoldable pub is_relation : ℕ → ℕ → Text → RelationRow → Bool
is_relation tag1 tag2 relation r =
    r.tag1_id == tag1 && r.tag2_id == tag2 && str_eq r.relation relation

unfoldable pub delete_relation : ℕ → ℕ → Text → World → World
unfolding is_relation
delete_relation tag1 tag2 relation w = record w {
  db = record w.db { relations = select (λ r. not (is_relation tag1 tag2 relation r)) w.relations };
}
