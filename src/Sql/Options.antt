-- ===== src/Sql/Options.antt =====
-- The database options of the command line (tagsistant_db_init() of src/sql.c).
use tagsistant.Base.{
  ℕ, ◌-◌, ◌<◌, ◌≡◌, refl, ap, ◌∙◌, Text, codes, Option, none, some, Bool, true, false, ◌||◌, List,
  [], ◌∷◌, ◌++◌, ◌==◌, leb, str_eq, if◌then◌else◌, any, arith,
}
use tagsistant.Query.Paths.{is_nonempty}

pub data Backend : Type 0 where
  null_backend sqlite_backend mysql_backend : Backend

-- `dboptions`
pub record DbOptions : Type 0 where
  pub backend : Backend
  pub backend_name : Option Text
  pub host : Option Text
  pub db : Option Text
  pub username : Option Text
  pub password : Option Text

abbrev no_options : DbOptions
no_options = record {
  backend = null_backend;
  backend_name = none;
  host = none;
  db = none;
  username = none;
  password = none;
}

abbrev onto_head : ℕ → List Text → List Text
onto_head c [] = (c ∷ []) ∷ []
onto_head c (field ∷ fields) = (c ∷ field) ∷ fields

-- g_strsplit() at colons, in at most so many fields, of a text that is not empty.
unfoldable split_fields : ℕ → Text → List Text
split_fields most [] = [] ∷ []
split_fields most (c ∷ s) =
    let next = split_fields (most - 1) s in
    let on = split_fields most s in
    if leb most 1 then (c ∷ s) ∷ [] else if c == b':' then [] ∷ next else onto_head c on

-- A field, or an empty text where the vector has ended.
unfoldable pub field : ℕ → List Text → Text
field n [] = []
field n (f ∷ fields) = let later = field (n - 1) fields in if n == 0 then f else later

abbrev default_name : Option Text
default_name = some (codes "tagsistant")

-- The options of MySQL: behind a field that is empty, all are the defaults.
unfoldable mysql_options : List Text → DbOptions → DbOptions
unfolding field
mysql_options fields o =
    let o1 = record o { host = some (field 1 fields) } in
    let o2 = record o1 { db = some (field 2 fields) } in
    let o3 = record o2 { username = some (field 3 fields) } in
    if is_nonempty (field 1 fields)
    then (if is_nonempty (field 2 fields)
        then (if is_nonempty (field 3 fields)
            then (if is_nonempty (field 4 fields)
                then record o3 { password = some (field 4 fields) }
                else record o3 { password = default_name })
            else record o2 { password = default_name; username = default_name })
        else record o1 { password = default_name; username = default_name; db = default_name })
    else record o {
      password = default_name;
      username = default_name;
      db = default_name;
      host = some (codes "localhost");
    }

-- The driver that the first field names.
unfoldable choose_backend : Text → DbOptions → DbOptions
choose_backend name o =
    if str_eq name (codes "sqlite3")
    then record o { backend = sqlite_backend; backend_name = some (codes "sqlite3") }
    else if str_eq name (codes "mysql")
    then record o { backend = mysql_backend; backend_name = some (codes "mysql") }
    else o

-- The options, by the fields of the text.
unfoldable read_options : List Text → DbOptions
unfolding field choose_backend mysql_options
read_options fields =
    let chosen = choose_backend (field 0 fields) no_options in
    elim chosen.backend [ mysql_backend ↦ mysql_options fields chosen | _ ↦ chosen ]

-- tagsistant_db_init(), as far as the options go.
unfoldable pub db_init : Text → DbOptions
unfolding split_fields read_options
db_init dboptions =
    read_options (split_fields 5 (if is_nonempty dboptions then dboptions else codes "sqlite3::::"))

split-append :
    (most : ℕ) (f s : Text)
    → 1 < most
    → any (λ c. c == b':') f ≡ false
    → split_fields most (f ++ b':' ∷ s) ≡ f ∷ split_fields (most - 1) s
unfolding split_fields any
split-append most [] s h k = ground arith
split-append most (c ∷ f) s h k = ground (arith, split-append most f s h)

split_last : (s : Text) → split_fields 1 s ≡ s ∷ []
unfolding split_fields
split_last [] = refl
split_last (c ∷ s) = refl

given_options :
    (host db username password : Text)
    → is_nonempty host ≡ true
    → is_nonempty db ≡ true
    → is_nonempty username ≡ true
    → is_nonempty password ≡ true
    → read_options (codes "mysql" ∷ host ∷ db ∷ username ∷ password ∷ []) ≡ record {
      backend = mysql_backend;
      backend_name = some (codes "mysql");
      host = some host;
      db = some db;
      username = some username;
      password = some password;
    }
unfolding read_options mysql_options field choose_backend str_eq
given_options host db username password e1 e2 e3 e4 = rw e1 (rw e2 (rw e3 (rw e4 refl)))

abbrev has_colon : Text → Bool
has_colon s = any (λ c. c == b':') s

-- The options of a MySQL database are those that are given, if the host, the database and the user
-- have no colon and nothing is empty. The password may have colons.
pub db_init_mysql :
    (host db username password : Text)
    → (has_colon host || has_colon db || has_colon username) ≡ false
    → is_nonempty host ≡ true
    → is_nonempty db ≡ true
    → is_nonempty username ≡ true
    → is_nonempty password ≡ true
    → db_init (codes "mysql:" ++ (host ++ b':' ∷ (db ++ b':' ∷ (username ++ b':' ∷ password))))
      ≡ record {
        backend = mysql_backend;
        backend_name = some (codes "mysql");
        host = some host;
        db = some db;
        username = some username;
        password = some password;
      }
unfolding db_init
db_init_mysql host db username password h e1 e2 e3 e4 =
    let tail3 = username ++ b':' ∷ password in
    let tail2 = db ++ b':' ∷ tail3 in
    let tail1 = host ++ b':' ∷ tail2 in
    let whole : split_fields 5 (codes "mysql:" ++ tail1)
        ≡ codes "mysql" ∷ host ∷ db ∷ username ∷ password ∷ [] =
      rw (split-append 5 (codes "mysql") tail1 (omega arith) (unfold any in refl)) (
        rw (split-append 4 host tail2 (omega arith) (ground arith)) (
          rw (split-append 3 db tail3 (omega arith) (ground arith)) (
            rw (split-append 2 username password (omega arith) (ground arith))
              (rw (split_last password) refl)))) in
    ap read_options whole ∙ given_options host db username password e1 e2 e3 e4
