-- ===== src/Sql/Aliases/Laws.antt =====
-- What the alias functions of src/sql.c promise to each other.
use tagsistant.Base.{
  ◌≡◌, refl, Text, none, some, true, false, not, ◌&&◌, List, [], ◌∷◌, ◌++◌, str_eq, str_eq_iff,
  str_eq_refl, if◌then◌else◌, select, any, any-append, arith, Bool-cases, inl, inr,
}
use tagsistant.Sql.{World, AliasRow}
use tagsistant.Sql.Aliases.{
  is_alias, alias_exists, alias_create, alias_delete, set_query, alias_set, find_query, alias_get,
}

find_query-append_old :
    (a : Text) (r : AliasRow) (rows : List AliasRow)
    → is_alias a r ≡ false
    → find_query a (rows ++ r ∷ []) ≡ find_query a rows
unfolding find_query any
find_query-append_old a r [] h = ground arith
find_query-append_old a r (s ∷ rows) h = ground (arith, find_query-append_old a r rows)

pub find_query-set :
    (a b query : Text) (rows : List AliasRow)
    → find_query b (set_query a query rows)
      ≡ (if str_eq a b && any (is_alias a) rows then some query else find_query b rows)
unfolding find_query set_query any is_alias
find_query-set a b query [] = ground arith
find_query-set a b query (s ∷ rows) = ground (
  arith,
  find_query-set a b query rows,
  str_eq_iff a b,
  str_eq_iff s.alias a,
  str_eq_iff s.alias b,
)

any-set_query :
    (a b query : Text) (rows : List AliasRow)
    → any (is_alias b) (set_query a query rows) ≡ any (is_alias b) rows
unfolding set_query any is_alias
any-set_query a b query [] = refl
any-set_query a b query (s ∷ rows) = ground (arith, any-set_query a b query rows)

find_query-select :
    (a b : Text) (rows : List AliasRow)
    → find_query b (select (λ r. not (is_alias a r)) rows)
      ≡ (if str_eq a b then none else find_query b rows)
unfolding find_query select is_alias
find_query-select a b [] = ground arith
find_query-select a b (s ∷ rows) =
    ground (
      arith,
      find_query-select a b rows,
      str_eq_iff a b,
      str_eq_iff s.alias a,
      str_eq_iff s.alias b,
    )

any-create : (a : Text) (w : World) → any (is_alias a) (alias_create true a w).aliases ≡ true
unfolding alias_create
any-create a w = elim (Bool-cases (any (is_alias a) w.aliases)) [
  | inl old ↦ rw (old, if◌then◌else◌) old
  | inr new ↦ rw new (rw any-append (unfold any in ground (arith, str_eq_refl a)))
]

find_query-create :
    (a b : Text) (w : World)
    → str_eq a b ≡ false
    → find_query b (alias_create true a w).aliases ≡ find_query b w.aliases
unfolding alias_create is_alias
find_query-create a b w h = elim (Bool-cases (any (is_alias a) w.aliases)) [
  | inl old ↦ rw old
  | inr new ↦ rw new (find_query-append_old b _ w.aliases h)
]

-- After an alias has been created and set, reading it gives the query that was set, and every
-- other alias reads as before.
alias_get-set_create :
    (a b query : Text) (w : World)
    → alias_get true b (alias_set true a query (alias_create true a w))
      ≡ (if str_eq a b then some query else alias_get true b w)
unfolding alias_get alias_set alias_create
alias_get-set_create a b query w = ground (
  arith,
  find_query-set a b query (alias_create true a w).aliases,
  any-create a w,
  find_query-create a b w,
)

-- Setting an alias that does not exist changes no alias.
alias_set_missing :
    (a b query : Text) (w : World)
    → alias_exists true a w ≡ false
    → alias_get true b (alias_set true a query w) ≡ alias_get true b w
unfolding alias_get alias_set alias_exists
alias_set_missing a b query w h = ground (arith, find_query-set a b query w.aliases)

-- A deleted alias is gone, and every other alias reads as before.
pub alias_get-delete :
    (a b : Text) (w : World)
    → alias_get true b (alias_delete true a w) ≡ (if str_eq a b then none else alias_get true b w)
unfolding alias_get alias_delete
alias_get-delete a b w = find_query-select a b w.aliases

-- An alias that exists reads as it was set.
pub alias_get-set :
    (a query : Text) (w : World)
    → alias_exists true a w ≡ true
    → alias_get true a (alias_set true a query w) ≡ some query
unfolding alias_get alias_set alias_exists
alias_get-set a query w h = ground (arith, find_query-set a a query w.aliases, str_eq_refl a)
