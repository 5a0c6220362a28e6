-- ===== src/Sql/Engine.antt =====
-- tagsistant_return_integer() of src/sql.c over an unknown engine: which row comes last is the
-- engine's choice, since no statement that the callback serves fixes it.
use tagsistant.Base.{
  ℕ, ◌%◌, ◌≤◌, ◌<◌, ◌≡◌, refl, true, List, [], ◌∷◌, arith, All, any, contains, ◌==◌, Bool, sym,
  Bool-cases, ==_iff, inl, inr,
}
use mathlib.Core.Path.{subst}
use tagsistant.Sql.{TagRow}
use mathlib.Core.Bool.{false≢true}

-- `last_row` is the value that the callback sees last among the rows of a result; `arrange` orders
-- the rows of a join, which may repeat a row or, under `union`, merge equal ones.
pub record Engine : Type 0 where
  pub last_row : List ℕ → ℕ
  pub last_row-contains : (x : ℕ) (xs : List ℕ) → contains (last_row (x ∷ xs)) (x ∷ xs) ≡ true
  pub arrange : List TagRow → List TagRow
  pub any-arrange : (p : TagRow → Bool) (rows : List TagRow) → any p (arrange rows) ≡ any p rows

abbrev pub u32_mod : ℕ
u32_mod = 4294967296

-- The buffer is a uint32_t that the callers set to 0, and each row overwrites it.
unfoldable pub return_integer : Engine → List ℕ → ℕ
return_integer E [] = 0
return_integer E (x ∷ xs) = E.last_row (x ∷ xs) % u32_mod

-- tagsistant_last_insert_id(): the counter, narrowed to tagsistant_inode.
unfoldable pub last_insert_id : ℕ → ℕ
last_insert_id n = n % u32_mod

-- Identifiers as they are stored: positive, and within 32 bits.
abbrev pub IsId : ℕ → Type 0
IsId n = (1 ≤ n) × (n < u32_mod)

All-contains : (P : ℕ → Type 0) (a : ℕ) (xs : List ℕ) → All P xs → contains a xs ≡ true → P a
unfolding contains
All-contains P a [] h c = absurd (false≢true c)
All-contains P a (x ∷ xs) h c = elim (Bool-cases (a == x)) [
  | inl same ↦ subst P (sym ((==_iff a x).0 same)) h.0
  | inr differ ↦ All-contains P a xs h.1 (rw differ at c)
]

return_integer-eq-last_row :
    (E : Engine) (x : ℕ) (xs : List ℕ)
    → All IsId (x ∷ xs)
    → return_integer E (x ∷ xs) ≡ E.last_row (x ∷ xs)
unfolding return_integer
return_integer-eq-last_row E x xs h =
    let fits : IsId (E.last_row (x ∷ xs)) =
      All-contains IsId (E.last_row (x ∷ xs)) (x ∷ xs) h (E.last_row-contains x xs) in
    omega arith

pub return_integer-contains :
    (E : Engine) (x : ℕ) (xs : List ℕ)
    → All IsId (x ∷ xs)
    → contains (return_integer E (x ∷ xs)) (x ∷ xs) ≡ true
return_integer-contains E x xs h =
    rw (return_integer-eq-last_row E x xs h) (E.last_row-contains x xs)

pub return_integer-IsId :
    (E : Engine) (x : ℕ) (xs : List ℕ) → All IsId (x ∷ xs) → IsId (return_integer E (x ∷ xs))
return_integer-IsId E x xs h =
    All-contains IsId (return_integer E (x ∷ xs)) (x ∷ xs) h (return_integer-contains E x xs h)

return_integer-singleton : (E : Engine) (x : ℕ) → IsId x → return_integer E (x ∷ []) ≡ x
unfolding return_integer contains
return_integer-singleton E x h = ground (arith, E.last_row-contains x [])

-- An engine that returns rows in reverse insertion order.
abbrev first_row : List ℕ → ℕ
first_row [] = 0
first_row (x ∷ xs) = x

pub first_row-contains : (x : ℕ) (xs : List ℕ) → contains (first_row (x ∷ xs)) (x ∷ xs) ≡ true
unfolding contains
first_row-contains x xs = ground arith

abbrev pub sample_engine : Engine
sample_engine = record {
  last_row = first_row;
  last_row-contains = first_row-contains;
  arrange = λ rows. rows;
  any-arrange = λ p rows. refl;
}
