-- ===== src/Resolve/Expand.antt =====
-- tagsistant_expand_path() of src/path_resolution.c: aliases in a path are replaced by their
-- queries until none is left. An alias is searched as a text: its name is taken to have no
-- character that is special in a regular expression.
use tagsistant.Base.{
  ℕ, zero, suc, Text, Option, none, some, Bool, true, false, ◌&&◌, [], ◌∷◌, ◌++◌, ◌==◌,
  if◌then◌else◌, length,
}
use tagsistant.Sql.{World}
use tagsistant.Sql.Aliases.{alias_get}
use tagsistant.Query.Paths.{starts_with, slash}
use tagsistant.Resolve.{first_element}

abbrev alias_identifier : ℕ
alias_identifier = b'='

abbrev starts_name : Text → Bool
starts_name [] = false
starts_name (c ∷ s) = if c == slash then false else true

-- The first match of `=([^/]+)`: the name behind the identifier.
unfoldable find_alias : Text → Option Text
unfolding first_element
find_alias [] = none
find_alias (c ∷ s) =
    let later = find_alias s in
    if c == alias_identifier && starts_name s then some (first_element s) else later

-- g_regex_replace_eval(): every occurrence, `skip` bytes of a match still to be passed over.
unfoldable replace_all : Text → Text → ℕ → Text → Text
unfolding starts_with
replace_all pattern by skip [] = []
replace_all pattern by (suc skip) (c ∷ s) = replace_all pattern by skip s
replace_all pattern by zero (c ∷ s) =
    let matched = by ++ replace_all pattern by (length pattern) s in
    let on = c ∷ replace_all pattern by zero s in
    if c == alias_identifier && starts_with s pattern then matched else on

-- A missing alias is replaced by nothing.
unfoldable pub expansion : Bool → Text → World → Text
expansion conn name w = elim (alias_get conn name w) [ none ↦ [] | some query ↦ query ]

-- The loop; `none` means that the fuel ran out.
unfoldable expand_aliases : ℕ → Bool → Text → World → Option Text
unfolding find_alias replace_all expansion
expand_aliases zero conn path w = none
expand_aliases (suc fuel) conn path w = elim (find_alias path) [
  | none ↦ some path
  | some name ↦ expand_aliases fuel conn (replace_all name (expansion conn name w) 0 path) w
]

-- `/+` replaced by `/`: a slash behind a slash goes.
unfoldable compress_slashes : Bool → Text → Text
compress_slashes after [] = []
compress_slashes after (c ∷ s) =
    let rest = compress_slashes (c == slash) s in if after && c == slash then rest else c ∷ rest

unfoldable pub expand_path : ℕ → Bool → Text → World → Option Text
unfolding expand_aliases compress_slashes
expand_path fuel conn path w = elim (expand_aliases fuel conn path w) [
  | none ↦ none
  | some expanded ↦ some (compress_slashes false expanded)
]
