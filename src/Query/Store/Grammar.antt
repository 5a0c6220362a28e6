-- ===== src/Query/Store/Grammar.antt =====
-- The grammar of a query between store/ and @/, and what a chain of and-nodes says
-- (src/path_resolution.c).
use tagsistant.Base.{Text, codes, List, [], ◌∷◌, ◌++◌, ◌≡◌, refl, ap}
use tagsistant.Sql.Tags.{safe_string}
use tagsistant.Query.{AndTag, AndNode, null, node}
use tagsistant.Reasoner.{append_related, append_negated}
use tagsistant.Query.Parsing.{at_last, append_next}

-- A tag, the tags in one group with it, and the tags that are excluded behind it.
pub record Element : Type 0 where
  pub tag : Text
  pub related : List Text
  pub excluded : List Text

unfoldable pub print_excluded : List Text → List Text
print_excluded [] = []
print_excluded (t ∷ ts) = codes "-" ∷ t ∷ print_excluded ts

unfoldable pub print_tag : Text → List Text → List Text
print_tag t [] = t ∷ []
print_tag t (r ∷ rs) = codes "{" ∷ t ∷ r ∷ (rs ++ codes "}" ∷ [])

unfoldable pub print_set : List Element → List Text
unfolding print_excluded print_tag
print_set [] = []
print_set (e ∷ es) = print_tag e.tag e.related ++ (print_excluded e.excluded ++ print_set es)

-- And-sets, with a `+` between them.
unfoldable pub print_query : List Element → List (List Element) → List Text
unfolding print_set
print_query s [] = print_set s
print_query s (s' ∷ ss) = print_set s ++ codes "+" ∷ print_query s' ss

-- The names along the two chains of a node, and the elements of an and-set.
unfoldable related_names : AndNode → List Text
unfolding safe_string
related_names null = []
related_names (node t related negated next) = safe_string t.tag ∷ related_names related

unfoldable negated_names : AndNode → List Text
unfolding safe_string
negated_names null = []
negated_names (node t related negated next) = safe_string t.tag ∷ negated_names negated

unfoldable pub elements : AndNode → List Element
unfolding related_names negated_names safe_string
elements null = []
elements (node t related negated next) =
    record {
      tag = safe_string t.tag;
      related = related_names related;
      excluded = negated_names negated;
    }
    ∷ elements next

abbrev pub alone : Text → Element
alone t = record { tag = t; related = []; excluded = [] }

abbrev pub relate : Text → Element → Element
relate t e = record e { related = e.related ++ t ∷ [] }

abbrev pub exclude : Text → Element → Element
exclude t e = record e { excluded = e.excluded ++ t ∷ [] }

unfoldable pub change_last : (Element → Element) → List Element → List Element
change_last f [] = []
change_last f (e ∷ []) = f e ∷ []
change_last f (e ∷ e' ∷ es) = e ∷ change_last f (e' ∷ es)

pub change_last-append :
    (f : Element → Element) (es : List Element) (e : Element)
    → change_last f (es ++ e ∷ []) ≡ es ++ f e ∷ []
unfolding change_last
change_last-append f [] e = refl
change_last-append f (x ∷ []) e = refl
change_last-append f (x ∷ y ∷ es) e = ap (λ l. x ∷ l) (change_last-append f (y ∷ es) e)

pub elements-append_next :
    (t : AndTag) (c : AndNode)
    → elements (append_next (node t null null null) c)
      ≡ elements c ++ alone (safe_string t.tag) ∷ []
unfolding elements append_next related_names negated_names
elements-append_next t null = refl
elements-append_next t (node a r n x) = rw (elements-append_next t x) refl

related_names-append :
    (t : AndTag) (c : AndNode)
    → related_names (append_related (node t null null null) c)
      ≡ related_names c ++ safe_string t.tag ∷ []
unfolding append_related related_names
related_names-append t null = refl
related_names-append t (node a r n x) = rw (related_names-append t r) refl

negated_names-append :
    (t : AndTag) (c : AndNode)
    → negated_names (append_negated (node t null null null) c)
      ≡ negated_names c ++ safe_string t.tag ∷ []
unfolding append_negated negated_names
negated_names-append t null = refl
negated_names-append t (node a r n x) = rw (negated_names-append t n) refl

pub elements-append_related :
    (t : AndTag) (c : AndNode)
    → elements (at_last (append_related (node t null null null)) c)
      ≡ change_last (relate (safe_string t.tag)) (elements c)
unfolding elements at_last append_related change_last
elements-append_related t null = refl
elements-append_related t (node a r n null) = rw (related_names-append t r) refl
elements-append_related t (node a r n (node a' r' n' x)) =
    rw (elements-append_related t (node a' r' n' x)) refl

pub elements-append_negated :
    (t : AndTag) (c : AndNode)
    → elements (at_last (append_negated (node t null null null)) c)
      ≡ change_last (exclude (safe_string t.tag)) (elements c)
unfolding elements at_last append_negated change_last
elements-append_negated t null = refl
elements-append_negated t (node a r n null) = rw (negated_names-append t n) refl
elements-append_negated t (node a r n (node a' r' n' x)) =
    rw (elements-append_negated t (node a' r' n' x)) refl
