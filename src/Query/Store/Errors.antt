-- ===== src/Query/Store/Errors.antt =====
-- The error branches of tagsistant_querytree_parse_store() (src/path_resolution.c).
use tagsistant.Base.{
  Text, codes, none, some, true, false, List, [], ◌∷◌, ◌≡◌, arith, ◌∙◌, ap, refl, ◌++◌,
}
use tagsistant.Sql.Engine.{Engine}
use tagsistant.Sql.Tags.{get_tag_id}
use tagsistant.Query.{null, negation_on_first_position}
use tagsistant.Query.Store.{flat_tag, parse_tokens, finished, save_last_tag}
use tagsistant.Query.Parsing.{
  Parsing, crashed, failed, segfault, idle, add_node, abort, add_to_node,
}
use tagsistant.Query.Store.Steps.{
  continue, is_plain, parse_tokens-plain, parse_tokens-sign, on_token-or,
}

-- A plain tag behind a `-` that no tag precedes ends the parse with an error.
parse_tokens-negation_first :
    (E : Engine) (last t : Text) (rest : List Text) (p : Parsing)
    → p.current ≡ null
    → p.qtree.negate_next_tag ≡ true
    → is_plain t ≡ true
    → parse_tokens E idle last (t ∷ rest) p
      ≡ failed
          (record (finished p) {
            negate_next_tag = false;
            error_message = some negation_on_first_position;
          })
          (get_tag_id E p.qtree.dbi (some t) none none p.world).1
unfolding flat_tag add_node abort
parse_tokens-negation_first E last t rest p c n h =
    parse_tokens-plain E last t rest p h ∙ rw n (rw c refl)

crash-flat_tag :
    (E : Engine) (t : Text) (p : Parsing)
    → p.group ≡ add_to_node
    → p.qtree.negate_next_tag ≡ false
    → p.current ≡ null
    → flat_tag E t p ≡ crashed
unfolding flat_tag add_node
crash-flat_tag E t p g n c = ground arith

-- Behind a `+` inside of an open group that has a tag already, a plain tag that is not negated
-- follows the NULL pointer last_and.
pub parse_tokens-crash :
    (E : Engine) (last t : Text) (rest : List Text) (p : Parsing)
    → p.group ≡ add_to_node
    → p.qtree.negate_next_tag ≡ false
    → is_plain t ≡ true
    → parse_tokens E idle last (codes "+" ∷ t ∷ rest) p ≡ segfault
parse_tokens-crash E last t rest p g n h =
    let p' =
      save_last_tag (codes "+")
        (record p { closed = p.closed ++ (p.current ∷ []); current = null }) in
    parse_tokens-sign E last b'+' (t ∷ rest) p (ground arith) (ground arith)
    ∙ ap (continue E (codes "+") (t ∷ rest)) (on_token-or E p)
    ∙ parse_tokens-plain E (codes "+") t rest p' h
    ∙ ap (continue E t rest) (crash-flat_tag E t p' g n refl)
