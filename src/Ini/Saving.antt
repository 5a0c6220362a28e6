-- ===== src/Ini/Saving.antt =====
-- What a saved repository.ini makes of the next start (src/utils.c).
use mathlib.Core.Path.{fun_ext}
use mathlib.Core.Bool.{false≢true}
use tagsistant.Base.{
  ◌≡◌, refl, sym, ap, ◌∙◌, Text, codes, Option, none, some, Bool, true, ◌&&◌, List, [], ◌∷◌, str_eq,
  str_eq_iff, str_eq_refl, Option-cases, is_some, arith, Bool-cases, inl, inr,
}
use tagsistant.Query.Paths.{is_nonempty}
use tagsistant.Ini.{
  KeyFile, CommandLine, set_value, set_default, set_defaults, set_values, default_filters,
  choose_dboptions, manage_repository_ini, empty_file,
}

-- A value that is there is set again.
set_value-same : (g k v : Text) (file : KeyFile) → file g k ≡ some v → set_value g k v file ≡ file
unfolding set_value
set_value-same g k v file h = fun_ext λ g'. fun_ext λ k'.
    elim (Bool-cases (str_eq g g' && str_eq k k')) [
      | inl same ↦
          let eg : g ≡ g' = (str_eq_iff g g').0 (ground (arith, same)) in
          let ek : k ≡ k' = (str_eq_iff k k').0 (ground (arith, same)) in
          rw same (rw (← eg) (rw (← ek) (sym h)))
      | inr other ↦ rw other refl
    ]

set_default-keeps :
    (s t g k v : Text) (file : KeyFile) → file g k ≡ some v → set_default s t file g k ≡ some v
unfolding set_default set_value
set_default-keeps s t g k v file h =
    ground (arith, h, str_eq_iff s g, str_eq_iff (codes "filter") k)

set_defaults-keeps :
    (filters : List (Text × Text)) (g k v : Text) (file : KeyFile)
    → file g k ≡ some v
    → set_defaults filters file g k ≡ some v
unfolding set_defaults
set_defaults-keeps [] g k v file h = h
set_defaults-keeps ((s, t) ∷ filters) g k v file h =
    set_defaults-keeps filters g k v (set_default s t file) (set_default-keeps s t g k v file h)

-- Each group of the list has a filter.
abbrev has_filters : List (Text × Text) → KeyFile → Bool
has_filters [] file = true
has_filters ((group, value) ∷ filters) file =
    is_some (file group (codes "filter")) && has_filters filters file

set_default_has :
    (s t : Text) (file : KeyFile) → is_some (set_default s t file s (codes "filter")) ≡ true
unfolding set_default set_value
set_default_has s t file = ground (arith, str_eq_refl s, str_eq_refl (codes "filter"))

is_some_keeps :
    (filters : List (Text × Text)) (g k : Text) (file : KeyFile)
    → is_some (file g k) ≡ true
    → is_some (set_defaults filters file g k) ≡ true
is_some_keeps filters g k file h = elim (Option-cases (file g k)) [
  | inl missing ↦ absurd (false≢true (sym (ap is_some missing) ∙ h))
  | inr (v, found) ↦ ap is_some (set_defaults-keeps filters g k v file found)
]

has_filters-set_defaults :
    (filters : List (Text × Text)) (file : KeyFile)
    → has_filters filters (set_defaults filters file) ≡ true
unfolding set_defaults
has_filters-set_defaults [] file = refl
has_filters-set_defaults ((s, t) ∷ filters) file =
    rw (is_some_keeps filters s (codes "filter") (set_default s t file) (set_default_has s t file))
      (has_filters-set_defaults filters (set_default s t file))

set_defaults-same :
    (filters : List (Text × Text)) (file : KeyFile)
    → has_filters filters file ≡ true
    → set_defaults filters file ≡ file
unfolding set_defaults
set_defaults-same [] file h = refl
set_defaults-same ((s, t) ∷ filters) file h =
    let first : set_default s t file ≡ file = unfold set_default in ground (arith, h) in
    ap (set_defaults filters) first ∙ set_defaults-same filters file (ground (arith, h))

choose-is_nonempty :
    (ini : Option KeyFile) (given : Option Text) → is_nonempty (choose_dboptions ini given) ≡ true
unfolding choose_dboptions
choose-is_nonempty ini given = ground arith

-- The values that were set are in the file that is saved.
module _ (options : Text) (line : CommandLine) (file : KeyFile) where
  abbrev saved : KeyFile
  saved = set_defaults default_filters (set_values options line file)

  saved_db : saved (codes "Tagsistant") (codes "db") ≡ some options
  saved_db =
      set_defaults-keeps default_filters (codes "Tagsistant") (codes "db") options
        (set_values options line file) (unfold set_values set_value str_eq in refl)

  saved_mountpoint : saved (codes "Tagsistant") (codes "mountpoint") ≡ some line.mountpoint
  saved_mountpoint =
      set_defaults-keeps default_filters (codes "Tagsistant") (codes "mountpoint") line.mountpoint
        (set_values options line file) (unfold set_values set_value str_eq in refl)

  saved_repository : saved (codes "Tagsistant") (codes "repository") ≡ some line.repository
  saved_repository =
      set_defaults-keeps default_filters (codes "Tagsistant") (codes "repository") line.repository
        (set_values options line file) (unfold set_values set_value str_eq in refl)

  -- Setting the same values again changes nothing.
  set_values-saved :
      (line' : CommandLine)
      → line'.mountpoint ≡ line.mountpoint
      → line'.repository ≡ line.repository
      → set_values options line' saved ≡ saved
  unfolding set_values
  set_values-saved line' same_mountpoint same_repository = rw same_mountpoint (
      rw same_repository (
        rw (set_value-same _ _ _ saved saved_db) (
          rw (set_value-same _ _ _ saved saved_mountpoint)
            (set_value-same _ _ _ saved saved_repository))))

choose-found :
    (options : Text) (file : KeyFile) (given : Option Text)
    → file (codes "Tagsistant") (codes "db") ≡ some options
    → is_nonempty options ≡ true
    → choose_dboptions (some file) given ≡ options
unfolding choose_dboptions
choose-found options file given found h = rw found (rw h refl)

-- Starting again on the repository.ini that was saved, with the same mount point and repository and
-- any database options, gives the same database options, and saves the same file: the options of the
-- first start win, and no default filter is set twice.
pub manage_repository_ini-again :
    (ini : Option KeyFile) (line line' : CommandLine)
    → line'.mountpoint ≡ line.mountpoint
    → line'.repository ≡ line.repository
    → manage_repository_ini (some (manage_repository_ini ini line).0) line'
      ≡ manage_repository_ini ini line
unfolding manage_repository_ini
manage_repository_ini-again ini line line' m r =
    let options = choose_dboptions ini line.dboptions in
    let file : KeyFile = elim ini [ none ↦ empty_file | some file ↦ file ] in
    let kept = saved options line file in
    let given : choose_dboptions (some kept) line'.dboptions ≡ options =
      choose-found options kept line'.dboptions (saved_db options line file)
        (choose-is_nonempty ini line.dboptions) in
    let filled : set_defaults default_filters kept ≡ kept =
      set_defaults-same default_filters kept
        (has_filters-set_defaults default_filters (set_values options line file)) in
    ap (λ o. (set_defaults default_filters (set_values o line' kept), o)) given
    ∙ (ap (λ f. (set_defaults default_filters f, options))
          (set_values-saved options line file line' m r)
        ∙ ap (λ f. (f, options)) filled)
