-- ===== src/Query/Routes/Preserves.antt =====
-- The transaction of a querytree in the parsers of tags/, relations/, stats/ and alias/
-- (src/path_resolution.c).
use tagsistant.Base.{
  Text, some, Bool, true, false, List, [], ◌∷◌, ◌≡◌, refl, arith, if◌then◌else◌, ◌∙◌,
}
use tagsistant.Query.{QTree}
use tagsistant.Query.Paths.{is_triple_token}
use tagsistant.Query.Store.Preserves.{holds_transaction}
use tagsistant.Query.Routes.{
  parse_tags, parse_relations, parse_stats, parse_alias, parse_relation, parse_right_tag,
  consume_triple, check_end, after_triple,
}

if-holds_transaction :
    (b c : Bool) (x y : QTree)
    → holds_transaction x ≡ b
    → holds_transaction y ≡ b
    → holds_transaction (if c then x else y) ≡ b
if-holds_transaction b true x y h k = h
if-holds_transaction b false x y h k = k

consume_triple-holds :
    (right : Bool) (ns : Text) (rest : List Text) (q : QTree)
    → holds_transaction (consume_triple right ns rest q) ≡ holds_transaction q
unfolding consume_triple
consume_triple-holds right ns rest q = ground arith

check_end-holds :
    (rest : List Text) (q : QTree) → holds_transaction (check_end rest q) ≡ holds_transaction q
unfolding check_end
check_end-holds [] q = refl
check_end-holds (t ∷ rest) q = refl

parse_right_tag-holds :
    (tokens : List Text) (q : QTree)
    → holds_transaction (parse_right_tag tokens q) ≡ holds_transaction q
unfolding parse_right_tag
parse_right_tag-holds [] q = refl
parse_right_tag-holds (token ∷ rest) q =
    if-holds_transaction _ (is_triple_token token) _ _
      (check_end-holds (after_triple rest) (consume_triple true token rest q)
        ∙ consume_triple-holds true token rest q)
      (check_end-holds rest (record q { second_tag = some token; complete = true }))

parse_relation-holds :
    (tokens : List Text) (q : QTree)
    → holds_transaction (parse_relation tokens q) ≡ holds_transaction q
unfolding parse_relation
parse_relation-holds [] q = refl
parse_relation-holds (token ∷ rest) q =
    ground (arith, parse_right_tag-holds rest (record q { relation = some token }))

pub parse_relations-holds :
    (tokens : List Text) (q : QTree)
    → holds_transaction (parse_relations tokens q) ≡ holds_transaction q
unfolding parse_relations
parse_relations-holds [] q = refl
parse_relations-holds (token ∷ rest) q =
    if-holds_transaction _ (is_triple_token token) _ _
      (parse_relation-holds (after_triple rest) (consume_triple false token rest q)
        ∙ consume_triple-holds false token rest q)
      (parse_relation-holds rest (record q { first_tag = some token }))

pub parse_tags-holds :
    (tokens : List Text) (q : QTree) → holds_transaction (parse_tags tokens q) ≡ holds_transaction q
unfolding parse_tags
parse_tags-holds tokens q = ground arith

pub parse_stats-holds :
    (tokens : List Text) (q : QTree)
    → holds_transaction (parse_stats tokens q) ≡ holds_transaction q
unfolding parse_stats
parse_stats-holds tokens q = ground arith

pub parse_alias-holds :
    (tokens : List Text) (q : QTree)
    → holds_transaction (parse_alias tokens q) ≡ holds_transaction q
unfolding parse_alias
parse_alias-holds tokens q = ground arith
