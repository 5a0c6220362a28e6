-- ===== src/Dedup.antt =====
-- Deduplication (src/deduplication.c): objects with one checksum are merged into the first one.
pub mod Merge
pub mod Flush
use tagsistant.Base.{
  ℕ, Text, Option, none, some, Bool, true, false, ◌&&◌, not, List, [], ◌∷◌, str_eq, leb, ◌==◌,
  if◌then◌else◌, select,
}
use tagsistant.Sql.{World, ObjectRow, SysResult, returned, failed_with, sys_open, sys_close}
use tagsistant.Sql.Engine.{u32_mod}
use tagsistant.Sql.Tags.{execute}
use tagsistant.Sql.Objects.{move_tagging, full_untag_object, delete_object, set_checksum}
use tagsistant.Query.{QTree}
use tagsistant.Resolve.New.{Settings, querytree_new}
use tagsistant.Fuse.{querytree_destroy}
use Prim.Native.Nat.{◌%◌, min}

-- The least inode of the rows, and 0 if there is none: `order by inode limit 1`.
unfoldable pub least_inode : List ObjectRow → ℕ
least_inode [] = 0
least_inode (r ∷ []) = r.inode
least_inode (r ∷ s ∷ rows) = min r.inode (least_inode (s ∷ rows))

unfoldable pub main_inode : Bool → Text → World → ℕ
unfolding least_inode
main_inode conn hex w =
    if conn
    then least_inode (select (λ (o : ObjectRow). str_eq o.checksum hex) w.objects) % u32_mod
    else 0

-- The three statements that merge an object into another one.
unfoldable pub merge_objects : Bool → ℕ → ℕ → World → World
unfolding execute move_tagging full_untag_object delete_object
merge_objects conn main inode w =
    execute conn (delete_object inode)
      (execute conn (full_untag_object inode) (execute conn (move_tagging main inode) w))

-- tagsistant_querytree_find_duplicates(): whether the object may be autotagged.
unfoldable pub find_duplicates : Text → QTree → World → Bool × (QTree × World)
unfolding main_inode merge_objects
find_duplicates hex q w =
    let main = main_inode q.dbi hex w in
    if main == 0
    then (true, (q, w))
    else if q.inode == main
    then (true, (q, w))
    else (false, (record q { schedule_for_unlink = true }, merge_objects q.dbi main q.inode w))

-- What the kernel leaves: the world, the paths pushed on the autotagging queue, and whether the
-- querytree was destroyed.
pub record Deduplicated : Type 0 where
  pub world : World
  pub queued : Option (Text × Option Text)
  pub destroyed : Bool

-- tagsistant_deduplication_kernel(), from the checksum that the file has.
unfoldable pub deduplication_kernel :
    Settings → (Option Text → World → Text) → Text → World → Option Deduplicated
unfolding find_duplicates set_checksum execute querytree_destroy querytree_new
deduplication_kernel S digest path w = elim (querytree_new S path false true true w) [
  | none ↦ none
  | some (q, w1) ↦
      let w2 = record w1 { calls = sys_open q.full_archive_path ∷ w1.calls } in
      elim (S.system w1.calls (sys_open q.full_archive_path)) [
        | failed_with e ↦ some (record { world = w2; queued = none; destroyed = false })
        | returned fd ↦
            let hex = digest q.full_archive_path w2 in
            let (autotag, r) =
              find_duplicates hex q (execute q.dbi (set_checksum hex q.inode) w2) in
            let w3 = querytree_destroy S true r.0 w r.1 in
            some (record {
              world = record w3 { calls = sys_close fd ∷ w3.calls };
              queued = if autotag then some (path, q.full_archive_path) else none;
              destroyed = true;
            })
      ]
]
