-- ===== src/Query/Store/Signs.antt =====
-- The signs of the grammar, passed one by one (src/path_resolution.c).
use mathlib.Core.List.{map-append}
use tagsistant.Base.{
  ℕ, Text, codes, true, false, List, [], ◌∷◌, ◌++◌, ◌≡◌, ◌≢◌, refl, ap, ◌∙◌, arith,
}
use tagsistant.Sql.Engine.{Engine}
use tagsistant.Query.{null}
use tagsistant.Query.Store.{on_token, parse_tokens, save_last_tag}
use tagsistant.Query.Parsing.{Parsing, going, idle, dont_add, add_to_node, add_new_node}
use tagsistant.Query.Store.Steps.{
  continue, parse_tokens-sign, on_token-or, on_token-not, on_token-open, on_token-close,
}
use tagsistant.Query.Store.Grammar.{Element, elements}
use tagsistant.Query.Store.Reading.{IsReady, Reached}

module _ (E : Engine) where
  -- A sign that changes the state to `p'`.
  sign-passed :
      (c : ℕ) (p p' : Parsing)
      → c ≢ b'@'
      → c ≢ b':'
      → on_token E (c ∷ []) p ≡ going p'
      → (last : Text) (rest : List Text)
      → (last' : Text) × (parse_tokens E idle last ((c ∷ []) ∷ rest) p
          ≡ parse_tokens E idle last' rest (save_last_tag (c ∷ []) p'))
  sign-passed c p p' d t e last rest =
      (c ∷ [], parse_tokens-sign E last c rest p d t ∙ ap (continue E (c ∷ []) rest) e)

  pub read_not :
      {es : List Element} {cl : List (List Element)} (p : Parsing)
      → IsReady p dont_add false es cl
      → Reached E (codes "-" ∷ []) p dont_add true es cl
  read_not p r =
      let p' = record p { qtree = record p.qtree { negate_next_tag = true } } in
      record {
        to = save_last_tag (codes "-") p';
        passed =
            sign-passed b'-' p p' (ground arith) (ground arith)
              (on_token-not E p r.group r.negation);
        ready = record {
          group = r.group;
          negation = refl;
          reasoning = r.reasoning;
          current = r.current;
          closed = r.closed;
        };
      }

  pub read_open :
      {es : List Element} {cl : List (List Element)} (p : Parsing)
      → IsReady p dont_add false es cl
      → Reached E (codes "{" ∷ []) p add_new_node false es cl
  read_open p r =
      let p' = record p { group = add_new_node } in
      record {
        to = save_last_tag (codes "{") p';
        passed = sign-passed b'{' p p' (ground arith) (ground arith) (on_token-open E p r.group);
        ready = record {
          group = refl;
          negation = r.negation;
          reasoning = r.reasoning;
          current = r.current;
          closed = r.closed;
        };
      }

  pub read_close :
      {es : List Element} {cl : List (List Element)} (p : Parsing)
      → IsReady p add_to_node false es cl
      → Reached E (codes "}" ∷ []) p dont_add false es cl
  read_close p r =
      let p' = record p { group = dont_add } in
      record {
        to = save_last_tag (codes "}") p';
        passed = sign-passed b'}' p p' (ground arith) (ground arith) (on_token-close E p r.group);
        ready = record {
          group = refl;
          negation = r.negation;
          reasoning = r.reasoning;
          current = r.current;
          closed = r.closed;
        };
      }

  pub read_or :
      {es : List Element} {cl : List (List Element)} (p : Parsing)
      → IsReady p dont_add false es cl
      → Reached E (codes "+" ∷ []) p dont_add false [] (cl ++ es ∷ [])
  read_or p r =
      let p' = record p { closed = p.closed ++ (p.current ∷ []); current = null } in
      record {
        to = save_last_tag (codes "+") p';
        passed = sign-passed b'+' p p' (ground arith) (ground arith) (on_token-or E p);
        ready = record {
          group = r.group;
          negation = r.negation;
          reasoning = r.reasoning;
          current = unfold elements in refl;
          closed = map-append elements p.closed (p.current ∷ []) ∙ rw r.closed (rw r.current refl);
        };
      }

  pub read_none :
      {es : List Element} {cl : List (List Element)} (p : Parsing)
      → IsReady p dont_add false es cl
      → Reached E [] p dont_add false es cl
  read_none p r = record { to = p; passed = λ last rest. (last, refl); ready = r }
