-- ===== src/Ini.antt =====
-- repository.ini: tagsistant_manage_repository_ini() of src/utils.c.
pub mod Saving
use tagsistant.Base.{
  Text, codes, Option, none, some, Bool, ◌&&◌, List, [], ◌∷◌, str_eq, is_some, if◌then◌else◌,
}
use tagsistant.Query.Paths.{is_nonempty}

-- A key file: the value of a key in a group.
abbrev pub KeyFile : Type 0
KeyFile = Text → Text → Option Text

unfoldable pub empty_file : KeyFile
empty_file group key = none

-- g_key_file_set_value()
unfoldable pub set_value : Text → Text → Text → KeyFile → KeyFile
set_value group key value file g k = if str_eq group g && str_eq key k then some value else file g k

-- What the command line gives; the database options may be NULL.
pub record CommandLine : Type 0 where
  pub dboptions : Option Text
  pub mountpoint : Text
  pub repository : Text

-- The database options: those of the file, those of the command line, or SQLite where they are
-- missing or empty.
unfoldable pub choose_dboptions : Option KeyFile → Option Text → Text
choose_dboptions ini given =
    let from_file : Option Text = elim ini [
      | none ↦ given
      | some file ↦ elim (file (codes "Tagsistant") (codes "db")) [
        | none ↦ given
        | some options ↦ some options
      ]
    ] in
    elim from_file [
      | none ↦ codes "sqlite3::::"
      | some options ↦ if is_nonempty options then options else codes "sqlite3::::"
    ]

-- tagsistant_set_init_default() of the key `filter`.
unfoldable pub set_default : Text → Text → KeyFile → KeyFile
unfolding set_value
set_default group value file =
    if is_some (file group (codes "filter"))
    then file
    else set_value group (codes "filter") value file

-- The default filters of the plugins, in their order.
abbrev pub default_filters : List (Text × Text)
default_filters =
    (codes "mime:application/xml", codes "^(author|date|language)$")
    ∷ (codes "mime:image/gif", codes "^(size|orientation)$")
    ∷ (codes "mime:text/html", codes "^(author|date|language)$")
    ∷ (codes "mime:image/jpeg", codes "^(size|orientation)$")
    ∷ (codes "mime:image/png", codes "^(size|orientation)$")
    ∷ (codes "mime:application/ogg", codes "^(year|album|artist)$")
    ∷ (codes "mime:audio/mpeg", codes "^(year|album|artist)$")
    ∷ []

unfoldable pub set_defaults : List (Text × Text) → KeyFile → KeyFile
unfolding set_default
set_defaults [] file = file
set_defaults ((group, value) ∷ filters) file = set_defaults filters (set_default group value file)

-- The values of the command line.
unfoldable pub set_values : Text → CommandLine → KeyFile → KeyFile
unfolding set_value
set_values options line file = set_value (codes "Tagsistant") (codes "repository") line.repository (
    set_value (codes "Tagsistant") (codes "mountpoint") line.mountpoint
      (set_value (codes "Tagsistant") (codes "db") options file))

-- tagsistant_manage_repository_ini(): the file that is saved, and the database options. `none`: the
-- file could not be read.
unfoldable pub manage_repository_ini : Option KeyFile → CommandLine → KeyFile × Text
unfolding choose_dboptions set_values set_defaults empty_file
manage_repository_ini ini line =
    let options = choose_dboptions ini line.dboptions in
    let file : KeyFile = elim ini [ none ↦ empty_file | some file ↦ file ] in
    (set_defaults default_filters (set_values options line file), options)
