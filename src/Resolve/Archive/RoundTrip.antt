-- ===== src/Resolve/Archive/RoundTrip.antt =====
-- The name of an object under archive/ is read back (src/path_resolution.c).
use mathlib.Core.List.{reverse_aux}
use tagsistant.Base.{
  ℕ, zero, suc, ◌+◌, ◌-◌, ◌*◌, ◌/◌, ◌%◌, ◌<◌, ◌≡◌, refl, ◌∙◌, ap, Text, codes, some, true, [], ◌∷◌,
  ◌++◌, arith, All, ltb, if◌then◌else◌, Bool-cases, inl, inr,
}
use tagsistant.Query.Paths.{
  match_number, is_digit, match_prefix, drop_delimiter, inode_extract_from_path, strip_inode,
  to_inode, starts_with, is_nonempty,
}
use tagsistant.Resolve.Archive.{
  print_decimal, print_inode, print_reversed, reversed_digits, archive_name,
}

-- The number that digits stand for, behind a number read before.
abbrev value : ℕ → Text → ℕ
value n [] = n
value n (c ∷ s) = value (n * 10 + (c - b'0')) s

abbrev IsDigit : ℕ → Type 0
IsDigit c = is_digit c ≡ true

value-digit : (n d : ℕ) (r : Text) → d < 10 → value n ((b'0' + d) ∷ r) ≡ value (n * 10 + d) r
value-digit n d r h = ap (λ x. value x r) (omega (arith, h))

-- A number that is printed stands for the number, and has digits only.
reversed_digits-value :
    (fuel n : ℕ) (r : Text)
    → n < fuel
    → value 0 (reverse_aux (reversed_digits fuel n) r) ≡ value n r
unfolding reversed_digits
reversed_digits-value zero n r h = absurd (omega (arith, h))
reversed_digits-value (suc fuel) n r h = elim (Bool-cases (ltb n 10)) [
  | inl small ↦
      rw small (value-digit 0 (n % 10) r (omega arith) ∙ ap (λ x. value x r) (ground arith))
  | inr large ↦ rw large (
      reversed_digits-value fuel (n / 10) ((b'0' + n % 10) ∷ r) (ground arith)
      ∙ value-digit (n / 10) (n % 10) r (omega arith)
      ∙ ap (λ x. value x r) (omega arith))
]

reversed_digits-IsDigit :
    (fuel n : ℕ) (r : Text) → All IsDigit r → All IsDigit (reverse_aux (reversed_digits fuel n) r)
unfolding reversed_digits
reversed_digits-IsDigit zero n r h = h
reversed_digits-IsDigit (suc fuel) n r h =
    let d : IsDigit (b'0' + n % 10) = ground arith in
    elim (Bool-cases (ltb n 10)) [
      | inl small ↦ rw small (d, h)
      | inr large ↦ rw large (reversed_digits-IsDigit fuel (n / 10) ((b'0' + n % 10) ∷ r) (d, h))
    ]

reverse_aux-nonempty : (xs r : Text) → is_nonempty r ≡ true → is_nonempty (reverse_aux xs r) ≡ true
reverse_aux-nonempty [] r h = h
reverse_aux-nonempty (x ∷ xs) r h = reverse_aux-nonempty xs (x ∷ r) refl

print_reversed-nonempty :
    (fuel n : ℕ) → n < fuel → is_nonempty (reverse_aux (reversed_digits fuel n) []) ≡ true
unfolding reversed_digits
print_reversed-nonempty zero n h = absurd (omega (arith, h))
print_reversed-nonempty (suc fuel) n h =
    reverse_aux-nonempty (if ltb n 10 then [] else reversed_digits fuel (n / 10)) _ refl

abbrev delimited : Text → Text
delimited s = codes "___" ++ s

match_number-digits :
    (ds s : Text) (n : ℕ)
    → All IsDigit ds
    → match_number (ds ++ delimited s) n true ≡ some (value n ds, delimited s)
unfolding match_number starts_with
match_number-digits [] s n h = refl
match_number-digits (d ∷ ds) s n h = rw h.0 (match_number-digits ds s (n * 10 + (d - b'0')) h.1)

match_prefix-digits :
    (ds s : Text)
    → All IsDigit ds
    → is_nonempty ds ≡ true
    → match_prefix (ds ++ delimited s) ≡ some (value 0 ds, s)
unfolding match_prefix match_number drop_delimiter
match_prefix-digits [] s h k = ground arith
match_prefix-digits (d ∷ ds) s h k =
    rw (h.0, match_prefix)
      (rw (match_number-digits ds s (0 * 10 + (d - b'0')) h.1, match_prefix) refl)

print_inode-small : (inode : ℕ) → inode < 2147483648 → print_inode inode ≡ print_decimal inode
unfolding print_inode
print_inode-small inode h =
    let small : ltb (inode % 4294967296) 2147483648 ≡ true = ground (arith, h) in
    let same : inode % 4294967296 ≡ inode = omega (arith, h) in rw small (ap print_decimal same)

match_prefix-archive_name :
    (inode : ℕ) (path : Text)
    → inode < 2147483648
    → match_prefix (archive_name inode path) ≡ some (inode, path)
unfolding archive_name print_decimal print_reversed
match_prefix-archive_name inode path h =
    ap (λ s. match_prefix (s ++ delimited path)) (print_inode-small inode h)
    ∙ match_prefix-digits (print_decimal inode) path
        (reversed_digits-IsDigit (inode + 1) inode [] tt)
        (print_reversed-nonempty (inode + 1) inode (omega arith))
    ∙ rw (reversed_digits-value (inode + 1) inode [] (omega arith)) refl

-- The name of an object under archive/ gives its inode back, and the path behind it, for every inode
-- below 2^31.
pub inode_extract-archive_name :
    (inode : ℕ) (path : Text)
    → inode < 2147483648
    → (inode_extract_from_path (archive_name inode path) ≡ inode)
      × (strip_inode (archive_name inode path) ≡ path)
unfolding inode_extract_from_path strip_inode
inode_extract-archive_name inode path h =
    let e = match_prefix-archive_name inode path h in
    let small : to_inode inode ≡ inode = omega (arith, h) in
    (rw (e, inode_extract_from_path) small, rw (e, strip_inode) refl)
