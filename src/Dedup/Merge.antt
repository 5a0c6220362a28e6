-- ===== src/Dedup/Merge.antt =====
-- What the merge of two objects does to the taggings (src/deduplication.c).
use tagsistant.Base.{
  ℕ, ◌≡◌, ◌≢◌, Bool, true, false, ◌&&◌, ◌||◌, not, List, [], ◌∷◌, map, ◌==◌, if◌then◌else◌, select,
  any, arith, Bool-cases, inl, inr, ◌∙◌,
}
use tagsistant.Sql.{World, TaggingRow}
use tagsistant.Sql.Tags.{execute, is_tagging}
use tagsistant.Sql.Tags.Tagging.{is_tagged}
use tagsistant.Sql.Objects.{
  move_tagging, full_untag_object, delete_object, has_duplicate, same_tagging,
}
use tagsistant.Dedup.{merge_objects}

-- The tagging rows as the update would have them.
abbrev moved_rows : ℕ → ℕ → List TaggingRow → List TaggingRow
moved_rows to from rows =
    map (λ (r : TaggingRow). if r.inode == from then record r { inode = to } else r) rows

-- The update would repeat a tagging.
abbrev pub is_refused : ℕ → ℕ → World → Bool
is_refused to from w = has_duplicate same_tagging (moved_rows to from w.tagging)

any-moved_rows :
    (to from i j : ℕ) (rows : List TaggingRow)
    → to ≢ from
    → any (is_tagging i j) (moved_rows to from rows) ≡ (
        if i == from
        then false
        else if i == to
        then any (is_tagging to j) rows || any (is_tagging from j) rows
        else any (is_tagging i j) rows)
unfolding any is_tagging
any-moved_rows to from i j [] ne = ground arith
any-moved_rows to from i j (r ∷ rows) ne = ground (arith, any-moved_rows to from i j rows ne)

any-select_inode :
    (inode i j : ℕ) (rows : List TaggingRow)
    → any (is_tagging i j) (select (λ (r : TaggingRow). not (r.inode == inode)) rows)
      ≡ (not (i == inode) && any (is_tagging i j) rows)
unfolding any select is_tagging
any-select_inode inode i j [] = ground arith
any-select_inode inode i j (r ∷ rows) = ground (arith, any-select_inode inode i j rows)

-- Merging an object into another one takes all its taggings away. The other one gets them, unless
-- the update of the table is refused: then it gets none of them. Every other object keeps its own.
pub merge_objects-is_tagged :
    (main inode i j : ℕ) (w : World)
    → main ≢ inode
    → is_tagged i j (merge_objects true main inode w) ≡ (
        if i == inode
        then false
        else if i == main
        then is_tagged main j w || (is_tagged inode j w && not (is_refused main inode w))
        else is_tagged i j w)
unfolding merge_objects execute move_tagging full_untag_object delete_object
merge_objects-is_tagged main inode i j w ne = elim (Bool-cases (is_refused main inode w)) [
  | inl refused ↦ rw refused (any-select_inode inode i j w.tagging ∙ ground arith)
  | inr accepted ↦ rw accepted (
      any-select_inode inode i j (moved_rows main inode w.tagging)
      ∙ ground (arith, any-moved_rows main inode i j w.tagging ne))
]
