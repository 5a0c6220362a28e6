-- ===== src/Query/Store/Steps.antt =====
-- One round of the loop of tagsistant_querytree_parse_store() (src/path_resolution.c), by the kind
-- of its token.
use tagsistant.Base.{
  ℕ, Text, codes, Bool, true, false, ◌&&◌, not, List, [], ◌∷◌, ◌++◌, ◌≡◌, ◌≢◌, ap, refl, arith,
  str_eq, ◌∙◌,
}
use tagsistant.Sql.Engine.{Engine}
use tagsistant.Query.{null}
use tagsistant.Query.Paths.{is_triple_token, ends_with}
use tagsistant.Query.Store.{
  flat_tag, on_token, parse_tokens, finished, save_last_tag, starts_query_delimiter,
}
use tagsistant.Query.Parsing.{
  Parsing, Progress, going, aborted, crashed, Outcome, failed, segfault, idle, dont_add,
  add_to_node, add_new_node,
}

-- A token that is read as a tag name: no sign of the grammar, no namespace and no delimiter.
unfoldable pub is_plain : Text → Bool
unfolding is_triple_token
is_plain t =
    not (starts_query_delimiter t)
    && not (is_triple_token t)
    && not (str_eq t [])
    && not (str_eq t (codes "-"))
    && not (str_eq t (codes "+"))
    && not (str_eq t (codes "{"))
    && not (str_eq t (codes "}"))

abbrev pub continue : Engine → Text → List Text → Progress → Outcome
continue E token rest (going p) = parse_tokens E idle token rest (save_last_tag token p)
continue E token rest (aborted p) = failed (finished p) p.world
continue E token rest crashed = segfault

continue_lem :
    (E : Engine) (token : Text) (rest : List Text) (r : Progress)
    → (elim r as (λ x. Outcome) [
      | going p ↦ parse_tokens E idle token rest (save_last_tag token p)
      | aborted p ↦ failed (finished p) p.world
      | crashed ↦ segfault
    ])
      ≡ continue E token rest r
continue_lem E token rest (going p) = refl
continue_lem E token rest (aborted p) = refl
continue_lem E token rest crashed = refl

parse_tokens-continue :
    (E : Engine) (last token : Text) (rest : List Text) (p : Parsing)
    → starts_query_delimiter token ≡ false
    → is_triple_token token ≡ false
    → parse_tokens E idle last (token ∷ rest) p ≡ continue E token rest (on_token E token p)
unfolding parse_tokens
parse_tokens-continue E last token rest p d t =
    rw d (rw t (continue_lem E token rest (on_token E token p)))

on_token-plain :
    (E : Engine) (token : Text) (p : Parsing)
    → is_plain token ≡ true
    → on_token E token p ≡ flat_tag E token p
unfolding is_plain on_token
on_token-plain E token p h = ground arith

pub parse_tokens-plain :
    (E : Engine) (last token : Text) (rest : List Text) (p : Parsing)
    → is_plain token ≡ true
    → parse_tokens E idle last (token ∷ rest) p ≡ continue E token rest (flat_tag E token p)
parse_tokens-plain E last token rest p h =
    parse_tokens-continue E last token rest p (unfold is_plain in ground arith)
      (unfold is_plain in ground arith)
    ∙ ap (continue E token rest) (on_token-plain E token p h)

-- The signs, with what on_token does on each.
pub parse_tokens-sign :
    (E : Engine) (last : Text) (c : ℕ) (rest : List Text) (p : Parsing)
    → c ≢ b'@'
    → c ≢ b':'
    → parse_tokens E idle last ((c ∷ []) ∷ rest) p
      ≡ continue E (c ∷ []) rest (on_token E (c ∷ []) p)
parse_tokens-sign E last c rest p d t =
    parse_tokens-continue E last (c ∷ []) rest p (ground arith)
      (unfold is_triple_token in unfold ends_with in unfold str_eq in ground arith)

pub on_token-or :
    (E : Engine) (p : Parsing)
    → on_token E (codes "+") p
      ≡ going (record p { closed = p.closed ++ (p.current ∷ []); current = null })
unfolding on_token str_eq
on_token-or E p = refl

pub on_token-not :
    (E : Engine) (p : Parsing)
    → p.group ≡ dont_add
    → p.qtree.negate_next_tag ≡ false
    → on_token E (codes "-") p
      ≡ going (record p { qtree = record p.qtree { negate_next_tag = true } })
unfolding on_token str_eq
on_token-not E p g n = ground arith

pub on_token-open :
    (E : Engine) (p : Parsing)
    → p.group ≡ dont_add
    → on_token E (codes "{") p ≡ going (record p { group = add_new_node })
unfolding on_token str_eq
on_token-open E p g = ground arith

pub on_token-close :
    (E : Engine) (p : Parsing)
    → p.group ≡ add_to_node
    → on_token E (codes "}") p ≡ going (record p { group = dont_add })
unfolding on_token str_eq
on_token-close E p g = ground arith
