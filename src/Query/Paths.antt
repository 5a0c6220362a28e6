-- ===== src/Query/Paths.antt =====
-- Texts of paths: splitting, joining, the regular expressions of src/path_resolution.c as tests.
use tagsistant.Base.{
  ℕ, zero, suc, ◌+◌, ◌-◌, ◌*◌, ◌%◌, min, Text, codes, Option, none, some, Bool, true, false, ◌&&◌,
  ◌||◌, List, [], ◌∷◌, ◌++◌, str_eq, ◌==◌, leb, if◌then◌else◌,
}

abbrev pub slash : ℕ
slash = b'/'

-- g_strsplit(path, "/", max): at most `max` pieces, the last one unsplit. `piece` is the piece so
-- far, reversed by appending.
unfoldable split_from : Text → ℕ → Text → List Text
split_from [] more piece = piece ∷ []
split_from (c ∷ path) zero piece = split_from path zero (piece ++ (c ∷ []))
split_from (c ∷ path) (suc more) piece =
    let cut = piece ∷ split_from path more [] in
    let on = split_from path (suc more) (piece ++ (c ∷ [])) in if c == slash then cut else on

unfoldable pub split_path : Text → List Text
unfolding split_from
split_path [] = []
split_path (c ∷ path) = split_from (c ∷ path) 511 []

-- The later elements of g_strjoinv(), each behind its separator.
unfoldable join_rest : List Text → Text
join_rest [] = []
join_rest (t ∷ rest) = slash ∷ (t ++ join_rest rest)

-- g_strjoinv("/", tokens)
unfoldable pub join_path : List Text → Text
unfolding join_rest
join_path [] = []
join_path (t ∷ rest) = t ++ join_rest rest

-- `strlen(s) > 0`
abbrev pub is_nonempty : Text → Bool
is_nonempty [] = false
is_nonempty (c ∷ s) = true

-- A text begins with another one.
unfoldable pub starts_with : Text → Text → Bool
starts_with s [] = true
starts_with [] (d ∷ t) = false
starts_with (c ∷ s) (d ∷ t) = c == d && starts_with s t

-- g_strstr_len(path, -1, needle) != NULL
unfoldable pub has_substring : Text → Text → Bool
unfolding starts_with
has_substring [] needle = starts_with [] needle
has_substring (c ∷ s) needle = starts_with (c ∷ s) needle || has_substring s needle

-- What the regular expression `…$` matches at the end: `$` stands before a final newline too.
unfoldable pub ends_with : Text → Text → Bool
ends_with [] tail = str_eq [] tail
ends_with (c ∷ s) tail =
    str_eq (c ∷ s) tail || str_eq (c ∷ s) (tail ++ (10 ∷ [])) || ends_with s tail

-- TAGSISTANT_DEFAULT_TRIPLE_TAG_REGEX
unfoldable pub is_triple_token : Text → Bool
unfolding ends_with
is_triple_token t = ends_with t (codes ":")

-- TAGSISTANT_RELATION_PATTERN. The alternatives bind looser than the anchors.
unfoldable pub matches_relation_pattern : Text → Bool
unfolding starts_with has_substring ends_with
matches_relation_pattern t =
    starts_with t (codes "includes")
    || has_substring t (codes "excludes")
    || ends_with t (codes "is_equivalent")

-- is_all_path()
unfoldable pub is_all_path : Text → Bool
unfolding has_substring ends_with
is_all_path path = has_substring path (codes "/ALL/") || ends_with path (codes "/ALL")

-- IS_VALID_RELATION(); a NULL pointer equals no text.
unfoldable pub is_valid_relation : Option Text → Bool
is_valid_relation none = false
is_valid_relation (some r) =
    str_eq r (codes "is_equivalent") || str_eq r (codes "includes") || str_eq r (codes "excludes")

abbrev pub is_digit : ℕ → Bool
is_digit c = leb b'0' c && leb c b'9'

abbrev ulong_max : ℕ
ulong_max = 18446744073709551615

-- strtoul() on digits stops at ULONG_MAX, and the assignment keeps 32 bits.
abbrev pub to_inode : ℕ → ℕ
to_inode n = min n ulong_max % 4294967296

-- The match of `[0-9]+___`: the number read so far, and whether a digit was seen.
unfoldable pub match_number : Text → ℕ → Bool → Option (ℕ × Text)
unfolding starts_with
match_number [] n seen = none
match_number (c ∷ s) n seen =
    let more = match_number s (n * 10 + (c - b'0')) true in
    let done = if seen && starts_with (c ∷ s) (codes "___") then some (n, c ∷ s) else none in
    if is_digit c then more else done

unfoldable pub drop_delimiter : Text → Text
drop_delimiter (a ∷ b ∷ c ∷ s) = s
drop_delimiter s = []

-- tagsistant_inode_extract_from_path_regex_1, `^([0-9]+)___`
unfoldable pub match_prefix : Text → Option (ℕ × Text)
unfolding match_number drop_delimiter
match_prefix path = elim (match_number path 0 false) [
  | none ↦ none
  | some (n, rest) ↦ some (n, drop_delimiter rest)
]

-- tagsistant_inode_extract_from_path_regex_2, `/([0-9]+)___`, at its first match
unfoldable match_inside : Text → Option (ℕ × Text)
unfolding match_number
match_inside [] = none
match_inside (c ∷ s) =
    let here = match_number s 0 false in
    let later = match_inside s in
    if c == slash then elim here [ none ↦ later | some r ↦ some r ] else later

-- tagsistant_inode_extract_from_path()
unfoldable pub inode_extract_from_path : Text → ℕ
unfolding match_prefix match_inside
inode_extract_from_path path = elim (match_prefix path) [
  | some (n, rest) ↦ to_inode n
  | none ↦ elim (match_inside path) [ some (n, rest) ↦ to_inode n | none ↦ 0 ]
]

-- g_regex_replace() of the first expression by nothing: `^` matches once.
unfoldable pub strip_inode : Text → Text
unfolding match_prefix
strip_inode path = elim (match_prefix path) [ some (n, rest) ↦ rest | none ↦ path ]
