-- ===== src/Query/Store/RoundTrip.antt =====
-- The parse of a printed query (src/path_resolution.c).
use mathlib.Core.List.{append_assoc, append-nil, map-append}
use mathlib.Core.Path.{subst}
use tagsistant.Base.{
  Text, codes, true, false, List, [], ◌∷◌, ◌++◌, map, ◌≡◌, refl, sym, ◌∙◌, arith, All,
}
use tagsistant.Sql.{World}
use tagsistant.Sql.Engine.{Engine}
use tagsistant.Query.{QTree, null}
use tagsistant.Query.Store.{
  parse_tokens, parse_store, guess_complete, finished, starts_query_delimiter,
}
use tagsistant.Query.Parsing.{Parsing, parsed, idle, dont_add, add_to_node}
use tagsistant.Query.Store.Steps.{is_plain}
use tagsistant.Query.Store.Grammar.{
  Element, print_excluded, print_tag, print_set, print_query, elements, alone, relate, exclude,
}
use tagsistant.Query.Store.Reading.{
  IsReady, Reached, chain, read_alone, read_first, read_related, read_excluded,
}
use tagsistant.Query.Store.Signs.{read_not, read_open, read_close, read_or, read_none}

abbrev IsPlain : Text → Type 0
IsPlain t = is_plain t ≡ true

-- Every name of an element is read as a name.
abbrev IsPrintable : Element → Type 0
IsPrintable e = (IsPlain e.tag × All IsPlain e.related) × All IsPlain e.excluded

abbrev exclude_all : List Text → Element → Element
exclude_all [] x = x
exclude_all (t ∷ ts) x = exclude_all ts (exclude t x)

abbrev relate_all : List Text → Element → Element
relate_all [] x = x
relate_all (t ∷ ts) x = relate_all ts (relate t x)

exclude_all_lem :
    (ts : List Text) (x : Element) → exclude_all ts x ≡ record x { excluded = x.excluded ++ ts }
exclude_all_lem [] x = rw (append-nil x.excluded) refl
exclude_all_lem (t ∷ ts) x =
    exclude_all_lem ts (exclude t x) ∙ rw (append_assoc x.excluded (t ∷ []) ts) refl

relate_all_lem :
    (ts : List Text) (x : Element) → relate_all ts x ≡ record x { related = x.related ++ ts }
relate_all_lem [] x = rw (append-nil x.related) refl
relate_all_lem (t ∷ ts) x =
    relate_all_lem ts (relate t x) ∙ rw (append_assoc x.related (t ∷ []) ts) refl

module _ (E : Engine) where
  read_excluded_tags :
      (es : List Element) (x : Element) {cl : List (List Element)} (ts : List Text) (p : Parsing)
      → All IsPlain ts
      → IsReady p dont_add false (es ++ x ∷ []) cl
      → Reached E (print_excluded ts) p dont_add false (es ++ exclude_all ts x ∷ []) cl
  unfolding print_excluded
  read_excluded_tags es x [] p h r = read_none E p r
  read_excluded_tags es x (t ∷ ts) p h r =
      let s1 = read_not E p r in
      let s2 = read_excluded E es x t s1.to h.0 s1.ready in
      let s3 = read_excluded_tags es (exclude t x) ts s2.to h.1 s2.ready in
      chain E (codes "-" ∷ []) (t ∷ print_excluded ts) s1
        (chain E (t ∷ []) (print_excluded ts) s2 s3)

  read_related_tags :
      (es : List Element) (x : Element) {cl : List (List Element)} (ts : List Text) (p : Parsing)
      → All IsPlain ts
      → IsReady p add_to_node false (es ++ x ∷ []) cl
      → Reached E (ts ++ codes "}" ∷ []) p dont_add false (es ++ relate_all ts x ∷ []) cl
  read_related_tags es x [] p h r = read_close E p r
  read_related_tags es x (t ∷ ts) p h r =
      let s1 = read_related E es x t p h.0 r in
      let s2 = read_related_tags es (relate t x) ts s1.to h.1 s1.ready in
      chain E (t ∷ []) (ts ++ codes "}" ∷ []) s1 s2

  read_tag :
      (es : List Element) {cl : List (List Element)} (t : Text) (ts : List Text) (p : Parsing)
      → IsPlain t
      → All IsPlain ts
      → IsReady p dont_add false es cl
      → Reached E (print_tag t ts) p dont_add false (es ++ relate_all ts (alone t) ∷ []) cl
  unfolding print_tag
  read_tag es t [] p h hs r = read_alone E t p h r
  read_tag es t (u ∷ us) p h hs r =
      let s1 = read_open E p r in
      let s2 = read_first E t s1.to h s1.ready in
      let s3 = read_related_tags es (alone t) (u ∷ us) s2.to hs s2.ready in
      chain E (codes "{" ∷ []) (t ∷ u ∷ (us ++ codes "}" ∷ [])) s1
        (chain E (t ∷ []) (u ∷ (us ++ codes "}" ∷ [])) s2 s3)

  element_lem : (e : Element) → exclude_all e.excluded (relate_all e.related (alone e.tag)) ≡ e
  element_lem e = exclude_all_lem e.excluded _ ∙ rw (relate_all_lem e.related (alone e.tag)) refl

  read_set :
      (s es : List Element) {cl : List (List Element)} (p : Parsing)
      → All IsPrintable s
      → IsReady p dont_add false es cl
      → Reached E (print_set s) p dont_add false (es ++ s) cl
  unfolding print_set
  read_set [] es {cl = cl} p h r =
      subst (λ l. Reached E [] p dont_add false l cl) (sym (append-nil es)) (read_none E p r)
  read_set (e ∷ s) es {cl = cl} p h r =
      let s1 = read_tag es e.tag e.related p h.0.0.0 h.0.0.1 r in
      let s2 =
        read_excluded_tags es (relate_all e.related (alone e.tag)) e.excluded s1.to h.0.1
          s1.ready in
      let s2' : Reached E (print_excluded e.excluded) s1.to dont_add false (es ++ e ∷ []) cl =
        subst (λ x. Reached E (print_excluded e.excluded) s1.to dont_add false (es ++ x ∷ []) cl)
          (element_lem e) s2 in
      let s3 = read_set s (es ++ e ∷ []) s2'.to h.1 s2'.ready in
      let whole =
        chain E (print_tag e.tag e.related) (print_excluded e.excluded ++ print_set s) s1
          (chain E (print_excluded e.excluded) (print_set s) s2' s3) in
      subst (λ l. Reached E (print_set (e ∷ s)) p dont_add false l cl) (append_assoc es (e ∷ []) s)
        whole

  -- The end of the query: the closed and-sets and the last one are the ones printed.
  read_query :
      (s : List Element) (ss cl : List (List Element)) (p : Parsing)
      → All IsPrintable s
      → All (All IsPrintable) ss
      → IsReady p dont_add false [] cl
      → (es : List Element) × ((cl' : List (List Element)) × (Reached E
              (print_query s ss)
              p
              dont_add
              false
              es
              cl'
            × (cl' ++ es ∷ [] ≡ cl ++ s ∷ ss)))
  unfolding print_query
  read_query s [] cl p h hs r = (s, (cl, (read_set s [] p h r, refl)))
  read_query s (s' ∷ ss) cl p h hs r =
      let s1 = read_set s [] p h r in
      let s2 = read_or E s1.to s1.ready in
      let (es, (cl', (s3, same))) = read_query s' ss (cl ++ s ∷ []) s2.to hs.0 hs.1 s2.ready in
      (
        es,
        (
          cl',
          (
            chain E (print_set s) (codes "+" ∷ print_query s' ss) s1
                (chain E (codes "+" ∷ []) (print_query s' ss) s2 s3),
            same ∙ append_assoc cl (s ∷ []) (s' ∷ ss),
          ),
        ),
      )

parse_tokens-delimiter :
    (E : Engine) (last delimiter : Text) (rest : List Text) (p : Parsing)
    → starts_query_delimiter delimiter ≡ true
    → parse_tokens E idle last (delimiter ∷ rest) p ≡ parsed (finished p) rest p.world
unfolding parse_tokens
parse_tokens-delimiter E last delimiter rest p d = rw d refl

elements-finished :
    {es : List Element} {cl : List (List Element)} (p : Parsing)
    → IsReady p dont_add false es cl
    → map elements (finished p).tree ≡ cl ++ es ∷ []
elements-finished p r =
    map-append elements p.closed (p.current ∷ []) ∙ rw r.closed (rw r.current refl)

abbrev start : Text → QTree → World → Parsing
start path q w = record {
  qtree = record (guess_complete path true q) { valid = true };
  closed = [];
  current = null;
  group = dont_add;
  world = w;
}

start-IsReady :
    (path : Text) (q : QTree) (w : World)
    → q.negate_next_tag ≡ false
    → q.do_reasoning ≡ false
    → IsReady (start path q w) dont_add false [] []
unfolding guess_complete elements
start-IsReady path q w n nr = record {
  group = refl;
  negation = ground arith;
  reasoning = ground arith;
  current = refl;
  closed = refl;
}

-- A query that is printed, closed by a delimiter and parsed without reasoning gives an and-set for
-- each one printed, with its tags, groups and exclusions, and leaves the tokens behind the
-- delimiter, if every name is plain.
pub parse_store-print_query :
    (E : Engine) (path delimiter : Text) (s : List Element) (ss : List (List Element))
    (rest : List Text) (q : QTree) (w : World)
    → All IsPrintable s
    → All (All IsPrintable) ss
    → starts_query_delimiter delimiter ≡ true
    → q.negate_next_tag ≡ false
    → q.do_reasoning ≡ false
    → (q' : QTree) × ((w' : World) × ((parse_store E path true
              (print_query s ss ++ delimiter ∷ rest)
              q
              w
            ≡ parsed q' rest w')
          × (map elements q'.tree ≡ s ∷ ss)))
unfolding parse_store
parse_store-print_query E path delimiter s ss rest q w h hs d n nr =
    let (es, (cl, (r, same))) =
      read_query E s ss [] (start path q w) h hs (start-IsReady path q w n nr) in
    let (last, e) = r.passed [] (delimiter ∷ rest) in
    (
      finished r.to,
      (
        r.to.world,
        (
          e ∙ parse_tokens-delimiter E last delimiter rest r.to d,
          elements-finished r.to r.ready ∙ same,
        ),
      ),
    )
