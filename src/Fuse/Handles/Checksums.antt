-- ===== src/Fuse/Handles/Checksums.antt =====
-- An object that is opened for writing loses its checksum (src/fuse_operations/open.c).
use tagsistant.Base.{
  ℕ, ◌≡◌, Text, some, Bool, true, ◌&&◌, ◌||◌, List, [], ◌∷◌, ◌==◌, map, str_eq, if◌then◌else◌, any,
  arith,
}
use tagsistant.Sql.{World, ObjectRow}
use tagsistant.Sql.Tags.{execute}
use tagsistant.Sql.Objects.{set_checksum}
use tagsistant.Query.{QTree}
use tagsistant.Resolve.{check_tagging_consistency}
use tagsistant.Resolve.New.{Settings}
use tagsistant.Fuse.{success}
use tagsistant.Fuse.Handles.{FileInfo, opened, invalidate_checksum}

-- The row of an object, with its name and its checksum.
abbrev pub is_object : ℕ → Text → Text → ObjectRow → Bool
is_object inode name hex o = o.inode == inode && str_eq o.objectname name && str_eq o.checksum hex

abbrev pub is_named : ℕ → Text → ObjectRow → Bool
is_named inode name o = o.inode == inode && str_eq o.objectname name

any-map-invalidate :
    (inode i : ℕ) (name hex : Text) (rows : List ObjectRow)
    → any
        (is_object i name hex)
        (map (λ (r : ObjectRow). if r.inode == inode then record r { checksum = [] } else r) rows)
      ≡ (if i == inode
          then any (is_named i name) rows && str_eq [] hex
          else any (is_object i name hex) rows)
unfolding any
any-map-invalidate inode i name hex [] = ground arith
any-map-invalidate inode i name hex (o ∷ rows) =
    ground (arith, any-map-invalidate inode i name hex rows)

-- The checksum of one object is emptied, and the other objects keep theirs.
any-invalidate :
    (inode i : ℕ) (name hex : Text) (w : World)
    → any (is_object i name hex) (invalidate_checksum true inode w).objects ≡ (
        if i == inode
        then any (is_named i name) w.objects && str_eq [] hex
        else any (is_object i name hex) w.objects)
unfolding invalidate_checksum execute set_checksum
any-invalidate inode i name hex w = any-map-invalidate inode i name hex w.objects

-- A file that is opened for writing, if its path leads to an object of the query, keeps its handle,
-- and exactly its object loses the checksum.
pub opened-is_object :
    (S : Settings) (fd : ℕ) (q q1 : QTree) (fi : FileInfo) (w : World)
    → check_tagging_consistency S.engine q w ≡ some q1
    → q1.is_taggable ≡ true
    → q1.dbi ≡ true
    → (fi.o_wronly || fi.o_rdwr) ≡ true
    → (w' : World) × (opened S fd q fi w ≡ some (success 0, (record fi { fh = fd }, w')))
      × ((i : ℕ) (name hex : Text)
          → any (is_object i name hex) w'.objects ≡ (
              if i == q1.inode
              then any (is_named i name) w.objects && str_eq [] hex
              else any (is_object i name hex) w.objects))
unfolding opened
opened-is_object S fd q q1 fi w e taggable conn writing = (
  invalidate_checksum true q1.inode w,
  ground arith,
  λ i name hex. any-invalidate q1.inode i name hex w,
)
