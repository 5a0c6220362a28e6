-- ===== src/Fuse/Untag.antt =====
-- What unlink() and rmdir() do to the rows of an object (src/fuse_operations).
use tagsistant.Base.{ℕ, Bool, true, false, List, [], ◌∷◌}
use tagsistant.Sql.Engine.{Engine}

abbrev is_cons : List ℕ → Bool
is_cons [] = false
is_cons (x ∷ xs) = true
