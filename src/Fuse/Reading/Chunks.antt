-- ===== src/Fuse/Reading/Chunks.antt =====
-- The first bytes of a text (src/fuse_operations/read.c).
use tagsistant.Base.{ℕ, ◌-◌, ◌≤◌, ◌≡◌, refl, List, [], ◌∷◌, ltb, if◌then◌else◌, length, arith}
use tagsistant.Fuse.Reading.{take, drop}

module _ {A : Type 0} where
  pub length-take :
      (n : ℕ) (xs : List A) → length (take n xs) ≡ (if ltb (length xs) n then length xs else n)
  unfolding take
  length-take n [] = ground arith
  length-take n (x ∷ xs) = ground (arith, length-take (n - 1) xs)

  pub take-length : (n : ℕ) (xs : List A) → length xs ≤ n → take n xs ≡ xs
  unfolding take
  take-length n [] h = refl
  take-length n (x ∷ xs) h = ground (arith, take-length (n - 1) xs)

  pub drop-zero : (xs : List A) → drop 0 xs ≡ xs
  unfolding drop
  drop-zero [] = refl
  drop-zero (x ∷ xs) = refl
