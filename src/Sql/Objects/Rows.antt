-- ===== src/Sql/Objects/Rows.antt =====
-- The rows of objects (src/sql.c).
use tagsistant.Base.{ℕ, ◌≡◌, refl, Bool, ◌&&◌, not, List, [], ◌∷◌, ◌==◌, select, any, arith}
use tagsistant.Sql.{World, ObjectRow, TaggingRow}
use tagsistant.Sql.Objects.{delete_object}

abbrev pub has_object : ℕ → World → Bool
has_object i w = any (λ (r : ObjectRow). r.inode == i) w.objects

-- An object has some tag.
abbrev pub has_any_tag : ℕ → World → Bool
has_any_tag inode w = any (λ (r : TaggingRow). r.inode == inode) w.tagging

any-select_object :
    (inode i : ℕ) (rows : List ObjectRow)
    → any
        (λ (r : ObjectRow). r.inode == i)
        (select (λ (r : ObjectRow). not (r.inode == inode)) rows)
      ≡ (any (λ (r : ObjectRow). r.inode == i) rows && not (i == inode))
unfolding any select
any-select_object inode i [] = refl
any-select_object inode i (r ∷ rows) = ground (arith, any-select_object inode i rows)

pub has_object-delete :
    (inode i : ℕ) (w : World)
    → has_object i (delete_object inode w) ≡ (has_object i w && not (i == inode))
unfolding delete_object
has_object-delete inode i w = any-select_object inode i w.objects
