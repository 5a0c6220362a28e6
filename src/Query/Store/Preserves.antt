-- ===== src/Query/Store/Preserves.antt =====
-- The transaction of a querytree and the database while a query is parsed (src/path_resolution.c).
use tagsistant.Base.{
  Text, none, some, Bool, true, false, ◌&&◌, List, [], ◌∷◌, ◌≡◌, refl, arith, if◌then◌else◌, ◌∙◌,
}
use tagsistant.Sql.{World, Db}
use tagsistant.Sql.Tags.Cache.{get-db}
use tagsistant.Reasoner.Preserves.{reasoner-db}
use tagsistant.Sql.Engine.{Engine}
use tagsistant.Sql.Tags.{get_tag_id}
use tagsistant.Query.{QTree, AndTag, empty_tag, null, node}
use tagsistant.Query.Paths.{is_triple_token}
use tagsistant.Query.Store.{
  finish_triple, flat_tag, on_token, begin_triple, set_operator, parse_operator, at_end,
  parse_tokens, guess_complete, parse_store, operator_or, starts_query_delimiter, save_last_tag,
  finished,
}
use tagsistant.Query.Parsing.{
  Parsing, Progress, going, aborted, crashed, Outcome, parsed, failed, segfault, Pending, idle,
  want_key, want_operator, want_value, add_node, abort, reason_if_wanted,
}

-- A transaction is tied to the query.
abbrev pub holds_transaction : QTree → Bool
holds_transaction q = q.dbi && q.transaction_started

-- The query holds a transaction or not, and the database is that one.
abbrev pub AreKept : Bool → Db → QTree → World → Type 0
AreKept b d q w = (holds_transaction q ≡ b) × (w.db ≡ d)

abbrev ProgressKeeps : Bool → Db → Progress → Type 0
ProgressKeeps b d (going p) = AreKept b d p.qtree p.world
ProgressKeeps b d (aborted p) = AreKept b d p.qtree p.world
ProgressKeeps b d crashed = Unit

abbrev pub OutcomeKeeps : Bool → Db → Outcome → Type 0
OutcomeKeeps b d (parsed q rest w) = AreKept b d q w
OutcomeKeeps b d (failed q w) = AreKept b d q w
OutcomeKeeps b d segfault = Unit

reason_if_wanted-db :
    (E : Engine) (q : QTree) (t : AndTag) (w : World) → (reason_if_wanted E q t w).1.db ≡ w.db
unfolding reason_if_wanted
reason_if_wanted-db E q t w = ground (arith, reasoner-db E q.dbi (node t null null null) w)

add_node-keeps :
    (E : Engine) (t : AndTag) (b : Bool) (d : Db) (p : Parsing)
    → AreKept b d p.qtree p.world
    → ProgressKeeps b d (add_node E t p)
unfolding add_node abort
add_node-keeps E t b d p h = ground (
  arith,
  reason_if_wanted-db E p.qtree t p.world,
  reason_if_wanted-db E p.qtree (record t { negate = true }) p.world,
)

on_token-keeps :
    (E : Engine) (token : Text) (b : Bool) (d : Db) (p : Parsing)
    → AreKept b d p.qtree p.world
    → ProgressKeeps b d (on_token E token p)
unfolding on_token abort flat_tag
on_token-keeps E token b d p h =
    let (id, w) = get_tag_id E p.qtree.dbi (some token) none none p.world in
    let flat =
      add_node-keeps E (record empty_tag { tag = some token; tag_id = id }) b d
        (record p { world = w }) (h.0, get-db E p.qtree.dbi (some token) none none p.world ∙ h.1) in
    ground (arith, flat)

set_operator-holds :
    (token : Text) (q : QTree)
    → holds_transaction (set_operator (parse_operator token) q) ≡ holds_transaction q
unfolding set_operator parse_operator
set_operator-holds token q = ground arith

finish_triple-keeps :
    (E : Engine) (t : AndTag) (b : Bool) (d : Db) (p : Parsing)
    → AreKept b d p.qtree p.world
    → ProgressKeeps b d (finish_triple E t p)
unfolding finish_triple
finish_triple-keeps E t b d p h =
    add_node-keeps E _ b d _ (h.0, get-db E p.qtree.dbi t.namespace t.key t.value p.world ∙ h.1)

at_end-keeps :
    (b : Bool) (d : Db) (token : Text) (r : Progress)
    → ProgressKeeps b d r
    → OutcomeKeeps b d (at_end token r)
unfolding at_end
at_end-keeps b d token (going p) h = h
at_end-keeps b d token (aborted p) h = h
at_end-keeps b d token crashed h = tt

if-keeps :
    (b : Bool) (d : Db) (c : Bool) (x y : Outcome)
    → OutcomeKeeps b d x
    → OutcomeKeeps b d y
    → OutcomeKeeps b d (if c then x else y)
if-keeps b d true x y h k = h
if-keeps b d false x y h k = k

resume-keeps :
    (b : Bool) (d : Db) (k : Parsing → Outcome) (r : Progress)
    → ((p : Parsing) → AreKept b d p.qtree p.world → OutcomeKeeps b d (k p))
    → ProgressKeeps b d r
    → OutcomeKeeps b d
        (elim r [ going p ↦ k p | aborted p ↦ failed (finished p) p.world | crashed ↦ segfault ])
resume-keeps b d k (going p) f h = f p h
resume-keeps b d k (aborted p) f h = h
resume-keeps b d k crashed f h = tt

parse_tokens-keeps :
    (E : Engine) (b : Bool) (d : Db) (at : Pending) (last : Text) (tokens : List Text) (p : Parsing)
    → AreKept b d p.qtree p.world
    → OutcomeKeeps b d (parse_tokens E at last tokens p)
unfolding parse_tokens begin_triple
parse_tokens-keeps E b d idle last [] p h = h
parse_tokens-keeps E b d idle last (token ∷ rest) p h =
    let kept = on_token-keeps E token b d p h in
    let other =
      resume-keeps b d (λ p'. parse_tokens E idle token rest (save_last_tag token p')) _
        (λ p' h'. parse_tokens-keeps E b d idle token rest (save_last_tag token p') h') kept in
    let triple =
      parse_tokens-keeps E b d (want_key (record empty_tag { namespace = some token })) token rest
        (begin_triple token p) h in
    if-keeps b d (starts_query_delimiter token) _ _ h
      (if-keeps b d (is_triple_token token) _ _ triple other)
parse_tokens-keeps E b d (want_key t) last [] p h =
    at_end-keeps b d last _ (finish_triple-keeps E t b d p h)
parse_tokens-keeps E b d (want_key t) last (token ∷ rest) p h =
    parse_tokens-keeps E b d (want_operator (record t { key = some token })) token rest
      (record p { qtree = record p.qtree { key = some token } }) h
parse_tokens-keeps E b d (want_operator t) last [] p h =
    at_end-keeps b d last _ (finish_triple-keeps E t b d p h)
parse_tokens-keeps E b d (want_operator t) last (token ∷ rest) p h =
    parse_tokens-keeps E b d
      (want_value (record t { operator = operator_or t.operator (parse_operator token) })) token
      rest (record p { qtree = set_operator (parse_operator token) p.qtree })
      (set_operator-holds token p.qtree ∙ h.0, h.1)
parse_tokens-keeps E b d (want_value t) last [] p h =
    at_end-keeps b d last _ (finish_triple-keeps E t b d p h)
parse_tokens-keeps E b d (want_value t) last (token ∷ rest) p h =
    let p' = record p { qtree = record p.qtree { value = some token } } in
    resume-keeps b d (λ p''. parse_tokens E idle token rest (save_last_tag token p'')) _
      (λ p'' h'. parse_tokens-keeps E b d idle token rest (save_last_tag token p'') h')
      (finish_triple-keeps E (record t { value = some token }) b d p' h)

-- The parser keeps the transaction of the query and the database, whatever the tokens are.
pub parse_store-keeps :
    (E : Engine) (path : Text) (disable : Bool) (tokens : List Text) (q : QTree) (w : World)
    → OutcomeKeeps (holds_transaction q) w.db (parse_store E path disable tokens q w)
unfolding parse_store guess_complete
parse_store-keeps E path disable tokens q w =
    parse_tokens-keeps E (holds_transaction q) w.db idle [] tokens _ (ground arith, refl)
