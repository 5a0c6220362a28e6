-- ===== src/Sql/Aliases/Refinement.antt =====
-- The aliases table of src/sql.c implements a partial map from names to queries.
use mathlib.Core.Path.{fun_ext, ◌∙◌}
use tagsistant.Base.{
  ◌≡◌, refl, ap, Text, Option, none, some, true, false, not, ◌&&◌, List, [], ◌∷◌, ◌++◌, str_eq,
  str_eq_iff, is_some, if◌then◌else◌, any, arith,
}
use tagsistant.Sql.{World, AliasRow}
use tagsistant.Sql.Aliases.{
  is_alias, alias_create, alias_delete, alias_set, find_query, alias_get, insert_alias,
}
use tagsistant.Sql.Aliases.Laws.{find_query-set, alias_get-delete}

-- The statements on an alias, with its name and its query.
pub data AliasOp : Type 0 where
  create : Text → AliasOp
  set : Text → Text → AliasOp
  delete : Text → AliasOp

abbrev run_one : AliasOp → World → World
run_one (create a) w = alias_create true a w
run_one (set a query) w = alias_set true a query w
run_one (delete a) w = alias_delete true a w

abbrev pub run_aliases : List AliasOp → World → World
run_aliases [] w = w
run_aliases (op ∷ ops) w = run_aliases ops (run_one op w)

-- A partial map from names to queries.
abbrev AliasMap : Type 0
AliasMap = Text → Option Text

-- A new name is empty, only a name that is there is set, and a deleted name is gone.
unfoldable pub change : AliasOp → AliasMap → AliasMap
change (create a) m b = if str_eq a b && not (is_some (m a)) then some [] else m b
change (set a query) m b = if str_eq a b && is_some (m a) then some query else m b
change (delete a) m b = if str_eq a b then none else m b

abbrev pub change_all : List AliasOp → AliasMap → AliasMap
change_all [] m = m
change_all (op ∷ ops) m = change_all ops (change op m)

-- The map that a table stands for.
abbrev pub alias_map : World → AliasMap
alias_map w b = alias_get true b w

is_some-find_query :
    (a : Text) (rows : List AliasRow) → is_some (find_query a rows) ≡ any (is_alias a) rows
unfolding find_query any is_alias
is_some-find_query a [] = refl
is_some-find_query a (r ∷ rows) = ground (arith, is_some-find_query a rows)

find_query-append :
    (b : Text) (r : AliasRow) (rows : List AliasRow)
    → find_query b (rows ++ r ∷ []) ≡ (
        if any (is_alias b) rows
        then find_query b rows
        else if is_alias b r
        then some r.query
        else none)
unfolding find_query any
find_query-append b r [] = ground arith
find_query-append b r (s ∷ rows) = ground (arith, find_query-append b r rows)

find_query-none :
    (a : Text) (rows : List AliasRow) → any (is_alias a) rows ≡ false → find_query a rows ≡ none
unfolding find_query any
find_query-none a [] h = refl
find_query-none a (r ∷ rows) h = ground (arith, find_query-none a rows)

create-change :
    (a b : Text) (w : World)
    → alias_map (alias_create true a w) b ≡ change (create a) (alias_map w) b
unfolding change alias_get alias_create is_alias insert_alias
create-change a b w = ground (
  arith,
  find_query-append b (record { alias = a; query = [] }) w.aliases,
  find_query-none b w.aliases,
  is_some-find_query a w.aliases,
  str_eq_iff a b,
)

run_one-change : (op : AliasOp) (w : World) → alias_map (run_one op w) ≡ change op (alias_map w)
run_one-change (create a) w = fun_ext λ b. create-change a b w
run_one-change (set a query) w = fun_ext λ b.
    unfold change alias_get alias_set in
    ground (arith, find_query-set a b query w.aliases, is_some-find_query a w.aliases)
run_one-change (delete a) w = fun_ext λ b. unfold change in alias_get-delete a b w

-- Whatever sequence of aliases is created, set and deleted, the table reads as the map that goes
-- through the same changes.
pub run_aliases-change_all :
    (ops : List AliasOp) (w : World) → alias_map (run_aliases ops w) ≡ change_all ops (alias_map w)
run_aliases-change_all [] w = refl
run_aliases-change_all (op ∷ ops) w =
    run_aliases-change_all ops (run_one op w) ∙ ap (change_all ops) (run_one-change op w)
