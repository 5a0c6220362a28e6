-- ===== src/Sql/Aliases.antt =====
-- The alias functions of src/sql.c. The alias is the primary key of its table.
pub mod Laws
pub mod Refinement
use tagsistant.Base.{
  ℕ, ◌≡◌, refl, Text, Option, none, some, Bool, true, false, ◌&&◌, ◌||◌, not, List, [], ◌∷◌, ◌++◌,
  map, str_eq, str_eq_iff, if◌then◌else◌, select, any, arith, length,
}
use tagsistant.Sql.{World, AliasRow}
use tagsistant.Sql.Tags.{execute}
use tagsistant.Sql.Objects.{has_duplicate}

unfoldable pub is_alias : Text → AliasRow → Bool
is_alias alias r = str_eq r.alias alias

unfoldable pub alias_exists : Bool → Text → World → Bool
unfolding is_alias
alias_exists conn alias w = conn && any (is_alias alias) w.aliases

unfoldable pub insert_alias : Text → World → World
insert_alias alias w = record w {
  db = record w.db { aliases = w.aliases ++ record { alias = alias; query = [] } ∷ [] };
}

unfoldable pub alias_create : Bool → Text → World → World
unfolding alias_exists insert_alias execute
alias_create conn alias w =
    if alias_exists conn alias w then w else execute conn (insert_alias alias) w

unfoldable pub alias_delete : Bool → Text → World → World
unfolding is_alias execute
alias_delete conn alias =
    execute conn λ w. record w {
      db = record w.db { aliases = select (λ r. not (is_alias alias r)) w.aliases };
    }

unfoldable pub set_query : Text → Text → List AliasRow → List AliasRow
unfolding is_alias
set_query alias query [] = []
set_query alias query (r ∷ rows) =
    (if is_alias alias r then record r { query = query } else r) ∷ set_query alias query rows

unfoldable pub alias_set : Bool → Text → Text → World → World
unfolding set_query execute
alias_set conn alias query =
    execute conn λ w. record w { db = record w.db { aliases = set_query alias query w.aliases } }

unfoldable pub find_query : Text → List AliasRow → Option Text
unfolding is_alias
find_query alias [] = none
find_query alias (r ∷ rows) = if is_alias alias r then some r.query else find_query alias rows

-- NULL if the alias is not there. The key makes the row the only one.
unfoldable pub alias_get : Bool → Text → World → Option Text
unfolding find_query
alias_get conn alias w = if conn then find_query alias w.aliases else none

-- tagsistant_sql_alias_get_length(): strlen() follows NULL where the alias is not there.
unfoldable pub alias_get_length : Bool → Text → World → Option ℕ
unfolding alias_get
alias_get_length conn alias w = elim (alias_get conn alias w) [
  | none ↦ none
  | some query ↦ some (length query)
]

-- `update aliases set alias = … where alias = …`
unfoldable pub alias_rename : Text → Text → World → World
unfolding has_duplicate is_alias
alias_rename to from w =
    let renamed =
      map (λ (r : AliasRow). if is_alias from r then record r { alias = to } else r) w.aliases in
    if has_duplicate (λ a b. is_alias a.alias b) renamed
    then w
    else record w { db = record w.db { aliases = renamed } }
