-- ===== src/Query/Store/Reading.antt =====
-- The parser of a query, token by token (src/path_resolution.c).
use mathlib.Core.List.{append_assoc}
use tagsistant.Base.{
  Text, none, some, Bool, true, false, List, [], ◌∷◌, ◌++◌, map, ◌≡◌, refl, ap, ◌∙◌, arith,
}
use tagsistant.Sql.Engine.{Engine}
use tagsistant.Sql.Tags.{get_tag_id, safe_string}
use tagsistant.Query.{AndNode, null, node, empty_tag}
use tagsistant.Reasoner.{append_related, append_negated}
use tagsistant.Query.Store.{flat_tag, parse_tokens, save_last_tag}
use tagsistant.Query.Parsing.{
  Parsing, going, idle, at_last, append_next, is_null, reason_if_wanted, wants_reasoning, add_node,
  TagGroup, dont_add, add_to_node, add_new_node,
}
use tagsistant.Query.Store.Steps.{continue, is_plain, parse_tokens-plain}
use tagsistant.Query.Store.Grammar.{
  Element, elements, alone, relate, exclude, change_last-append, elements-append_next,
  elements-append_related, elements-append_negated,
}

-- The state between two tokens, with no reasoning.
elements-is_null :
    (c : AndNode) (es : List Element) (x : Element) → elements c ≡ es ++ x ∷ [] → is_null c ≡ false
unfolding elements
elements-is_null null [] x h = ground arith
elements-is_null null (e ∷ es) x h = ground arith
elements-is_null (node t r n next) es x h = refl

pub record IsReady (p : Parsing) (g : TagGroup) (negate : Bool) (es : List Element)
    (cl : List (List Element)) : Type 0 where
  pub group : p.group ≡ g
  pub negation : p.qtree.negate_next_tag ≡ negate
  pub reasoning : p.qtree.do_reasoning ≡ false
  pub current : elements p.current ≡ es
  pub closed : map elements p.closed ≡ cl

-- The parser passes some tokens and is in such a state behind them.
pub record Reached (E : Engine) (tokens : List Text) (p : Parsing) (g : TagGroup) (negate : Bool)
    (es : List Element) (cl : List (List Element)) : Type 0 where
  pub to : Parsing
  pub passed :
      (last : Text) (rest : List Text)
      → (last' : Text) × (parse_tokens E idle last (tokens ++ rest) p
          ≡ parse_tokens E idle last' rest to)
  pub ready : IsReady to g negate es cl

module _ (E : Engine) where
  pub chain :
      {g g' : TagGroup} {b b' : Bool} {es es' : List Element} {cl cl' : List (List Element)}
      {p : Parsing} (xs ys : List Text) (r : Reached E xs p g b es cl)
      → Reached E ys r.to g' b' es' cl'
      → Reached E (xs ++ ys) p g' b' es' cl'
  chain {p = p} xs ys r r' = record {
    to = r'.to;
    passed = λ last rest.
        let first = r.passed last (ys ++ rest) in
        let second = r'.passed first.0 rest in
        let whole : parse_tokens E idle last ((xs ++ ys) ++ rest) p
            ≡ parse_tokens E idle second.0 rest r'.to =
          rw (append_assoc xs ys rest) (first.1 ∙ second.1) in
        (second.0, whole);
    ready = r'.ready;
  }

  plain-passed :
      (t : Text) (p p' : Parsing)
      → is_plain t ≡ true
      → flat_tag E t p ≡ going p'
      → (last : Text) (rest : List Text)
      → (last' : Text) × (parse_tokens E idle last (t ∷ rest) p
          ≡ parse_tokens E idle last' rest (save_last_tag t p'))
  plain-passed t p p' h e last rest =
      (t, parse_tokens-plain E last t rest p h ∙ ap (continue E t rest) e)

  -- The node of a tag that is not reasoned about.
  abbrev new_node : Text → Bool → Parsing → AndNode
  new_node t negate p =
      node
        (record empty_tag {
          negate = negate;
          tag = some t;
          tag_id = (get_tag_id E p.qtree.dbi (some t) none none p.world).0;
        })
        null null null

  abbrev with_node : Text → TagGroup → AndNode → Parsing → Parsing
  with_node t g current p = record p {
    qtree = record p.qtree { negate_next_tag = false };
    current = current;
    group = g;
    world = (get_tag_id E p.qtree.dbi (some t) none none p.world).1;
  }

  pub read_alone :
      {es : List Element} {cl : List (List Element)} (t : Text) (p : Parsing)
      → is_plain t ≡ true
      → IsReady p dont_add false es cl
      → Reached E (t ∷ []) p dont_add false (es ++ alone t ∷ []) cl
  unfolding flat_tag add_node reason_if_wanted wants_reasoning safe_string
  read_alone t p h r =
      let p' = with_node t dont_add (append_next (new_node t false p) p.current) p in
      let e : flat_tag E t p ≡ going p' = ground (arith, r.group, r.negation, r.reasoning) in
      record {
        to = save_last_tag t p';
        passed = plain-passed t p p' h e;
        ready = record {
          group = refl;
          negation = refl;
          reasoning = r.reasoning;
          current = elements-append_next _ p.current ∙ rw r.current refl;
          closed = r.closed;
        };
      }

  pub read_first :
      {es : List Element} {cl : List (List Element)} (t : Text) (p : Parsing)
      → is_plain t ≡ true
      → IsReady p add_new_node false es cl
      → Reached E (t ∷ []) p add_to_node false (es ++ alone t ∷ []) cl
  unfolding flat_tag add_node reason_if_wanted wants_reasoning safe_string
  read_first t p h r =
      let p' = with_node t add_to_node (append_next (new_node t false p) p.current) p in
      let e : flat_tag E t p ≡ going p' = ground (arith, r.group, r.negation, r.reasoning) in
      record {
        to = save_last_tag t p';
        passed = plain-passed t p p' h e;
        ready = record {
          group = refl;
          negation = refl;
          reasoning = r.reasoning;
          current = elements-append_next _ p.current ∙ rw r.current refl;
          closed = r.closed;
        };
      }

  pub read_related :
      (es : List Element) (x : Element) {cl : List (List Element)} (t : Text) (p : Parsing)
      → is_plain t ≡ true
      → IsReady p add_to_node false (es ++ x ∷ []) cl
      → Reached E (t ∷ []) p add_to_node false (es ++ relate t x ∷ []) cl
  unfolding flat_tag add_node reason_if_wanted wants_reasoning safe_string
  read_related es x t p h r =
      let p' =
        with_node t add_to_node (at_last (append_related (new_node t false p)) p.current) p in
      let some_node = elements-is_null p.current es x r.current in
      let e : flat_tag E t p ≡ going p' =
        ground (arith, r.group, r.negation, r.reasoning, some_node) in
      record {
        to = save_last_tag t p';
        passed = plain-passed t p p' h e;
        ready = record {
          group = refl;
          negation = refl;
          reasoning = r.reasoning;
          current = elements-append_related _ p.current ∙ rw r.current (change_last-append _ es x);
          closed = r.closed;
        };
      }

  pub read_excluded :
      (es : List Element) (x : Element) {cl : List (List Element)} (t : Text) (p : Parsing)
      → is_plain t ≡ true
      → IsReady p dont_add true (es ++ x ∷ []) cl
      → Reached E (t ∷ []) p dont_add false (es ++ exclude t x ∷ []) cl
  unfolding flat_tag add_node reason_if_wanted wants_reasoning safe_string
  read_excluded es x t p h r =
      let p' = with_node t dont_add (at_last (append_negated (new_node t true p)) p.current) p in
      let some_node = elements-is_null p.current es x r.current in
      let e : flat_tag E t p ≡ going p' =
        ground (arith, r.group, r.negation, r.reasoning, some_node) in
      record {
        to = save_last_tag t p';
        passed = plain-passed t p p' h e;
        ready = record {
          group = refl;
          negation = refl;
          reasoning = r.reasoning;
          current = elements-append_negated _ p.current ∙ rw r.current (change_last-append _ es x);
          closed = r.closed;
        };
      }
