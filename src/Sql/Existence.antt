-- ===== src/Sql/Existence.antt =====
-- The statements of the form `select 1 … where …`, which ask whether a row is there.
use tagsistant.Base.{
  ℕ, ◌≡◌, refl, Bool, true, List, [], ◌∷◌, arith, contains, any, select, Bool-cases, inl, inr,
  if◌then◌else◌,
}
use tagsistant.Sql.Engine.{Engine, return_integer}
use tagsistant.Sql.Tags.{query_integer}

-- The rows of a `select 1`.
unfoldable pub ones {ℓ} : {A : Type ℓ} → List A → List ℕ
ones [] = []
ones (x ∷ xs) = 1 ∷ ones xs

contains-ones {ℓ} : {A : Type ℓ} (n : ℕ) (xs : List A) → contains n (ones xs) ≡ true → n ≡ 1
unfolding contains ones
contains-ones n [] h = cc
contains-ones n (x ∷ xs) h = ground (arith, contains-ones n xs)

-- `select 1 … where …` gives 1 if a row is there, and 0 otherwise.
pub query_ones :
    {A : Type 0} (E : Engine) (p : A → Bool) (rows : List A)
    → query_integer E true (ones (select p rows)) ≡ (if any p rows then 1 else 0)
unfolding query_integer any select
query_ones E p [] = unfold ones return_integer in refl
query_ones {A} E p (r ∷ rows) = elim (Bool-cases (p r)) [
  | inl kept ↦ rw kept (one (select p rows))
  | inr dropped ↦ rw dropped (query_ones E p rows)
]
  where
    one : (xs : List A) → return_integer E (ones (r ∷ xs)) ≡ 1
    one xs =
        unfold return_integer ones in
        ground (
          arith,
          contains-ones (E.last_row (ones (r ∷ xs))) (r ∷ xs),
          E.last_row-contains 1 (ones xs),
        )
