-- ===== src/Fuse/Listing/Tags.antt =====
-- Which names the directories hold (src/fuse_operations/readdir.c).
use tagsistant.Base.{
  ◌≡◌, refl, Text, codes, Bool, true, false, ◌&&◌, ◌||◌, not, List, [], ◌∷◌, map, str_eq,
  str_eq_iff, arith, any, any_congr, any-append, any-select, select, is_some, if◌then◌else◌,
}
use tagsistant.Sql.{World, TagRow, AliasRow}
use tagsistant.Sql.Engine.{Engine}
use tagsistant.Sql.Statement.{escape_quotes}
use tagsistant.Query.{QTree}
use tagsistant.Resolve.New.{Settings}
use tagsistant.Fuse.Filler.{
  Sources, fill, fill_all, add_entry, add_entries, distinct, tag_column, all_tagnames, all_aliases,
  is_left_out,
}
use tagsistant.Fuse.NextTokens.{add_tags_and_aliases, dots}
use tagsistant.Fuse.Listing.{readdir_on_relations, related_column, is_accepted, left_condition}

abbrev pub lists : List Text → Text → Bool
lists entries name = any (str_eq name) entries

-- A filler that takes every entry.
abbrev pub NeverRefuses : Sources → Type 0
NeverRefuses X = (buf : List Text) (entry : Text) → X.refuses buf entry ≡ false

lists-fill :
    (X : Sources) (entry name : Text) (buf : List Text)
    → NeverRefuses X
    → lists (fill X entry buf) name ≡ (lists buf name || str_eq name entry)
unfolding fill
lists-fill X entry name buf h =
    rw (h buf entry) (unfold any in ground (arith, any-append (str_eq name) buf (entry ∷ [])))

pub lists-fill_all :
    (X : Sources) (entries : List Text) (name : Text) (buf : List Text)
    → NeverRefuses X
    → lists (fill_all X entries buf) name ≡ (lists buf name || lists entries name)
unfolding fill_all any
lists-fill_all X [] name buf h = ground arith
lists-fill_all X (entry ∷ rest) name buf h =
    ground (arith, lists-fill_all X rest name (fill X entry buf) h, lists-fill X entry name buf h)

-- The entry of a row, behind the identifier of an alias or not.
abbrev entry_of : Bool → Text → Text
entry_of is_alias dir = if is_alias then b'=' ∷ dir else dir

lists-add_entries :
    (X : Sources) (q : QTree) (is_alias : Bool) (rows : List Text) (name : Text) (buf : List Text)
    → NeverRefuses X
    → lists (add_entries X q is_alias rows buf) name ≡ (
        lists buf name
        || any (λ dir. str_eq name (entry_of is_alias dir) && not (is_left_out q dir)) rows)
unfolding add_entries add_entry any
lists-add_entries X q is_alias [] name buf h = ground arith
lists-add_entries X q is_alias (dir ∷ rest) name buf h = ground (
  arith,
  lists-add_entries X q is_alias rest name (add_entry X q is_alias dir buf) h,
  lists-fill X (entry_of is_alias dir) name buf h,
)

any-str_eq :
    (p : Text → Bool) (s : Text) (rows : List Text)
    → any (str_eq s) rows ≡ true
    → p s ≡ true
    → any p rows ≡ true
unfolding any
any-str_eq p s [] h k = h
any-str_eq p s (t ∷ rows) h k = ground (arith, any-str_eq p s rows, str_eq_iff s t)

any-distinct : (p : Text → Bool) (rows : List Text) → any p (distinct rows) ≡ any p rows
unfolding any distinct
any-distinct p [] = refl
any-distinct p (s ∷ rows) = ground (arith, any-distinct p rows, any-str_eq p s rows)

any-map :
    (p : Text → Bool) (column : TagRow → Text) (rows : List TagRow)
    → any p (map column rows) ≡ any (λ r. p (column r)) rows
unfolding any
any-map p column [] = refl
any-map p column (r ∷ rows) = ground (arith, any-map p column rows)

any-tag_column :
    (E : Engine) (column : TagRow → Text) (keeps : TagRow → Bool) (p : Text → Bool) (w : World)
    → any p (tag_column E true column keeps w) ≡ any (λ r. p (column r) && keeps r) w.tags
unfolding tag_column
any-tag_column E column keeps p w =
    rw (any-distinct p (map column (E.arrange (select keeps w.tags)))) (
      rw (any-map p column (E.arrange (select keeps w.tags))) (
        rw (E.any-arrange (λ r. p (column r)) (select keeps w.tags))
          (any-select (λ (r : TagRow). p (column r)) keeps w.tags)))

abbrev pub is_tagname : QTree → Text → TagRow → Bool
is_tagname q name r = str_eq name r.tagname && not (is_left_out q r.tagname)

lists-all_tagnames :
    (S : Settings) (X : Sources) (q : QTree) (w : World) (name : Text) (buf : List Text)
    → NeverRefuses X
    → lists (add_entries X q false (all_tagnames S.engine true w) buf) name
      ≡ (lists buf name || any (is_tagname q name) w.tags)
unfolding all_tagnames
lists-all_tagnames S X q w name buf h =
    rw (lists-add_entries X q false (all_tagnames S.engine true w) name buf h) (
      rw
        (any-tag_column S.engine (λ r. r.tagname) (λ r. true)
          (λ dir. str_eq name dir && not (is_left_out q dir)) w)
        (rw
          (any_congr (λ (r : TagRow). is_tagname q name r && true) (is_tagname q name) w.tags
            (λ r. ground arith))
          refl))

any-map-alias :
    (p : Text → Bool) (rows : List AliasRow)
    → any p (map (λ (r : AliasRow). r.alias) rows) ≡ any (λ (r : AliasRow). p r.alias) rows
unfolding any
any-map-alias p [] = refl
any-map-alias p (r ∷ rows) = ground (arith, any-map-alias p rows)

pub str_eq_comm : (s t : Text) → str_eq s t ≡ str_eq t s
str_eq_comm s t = ground (arith, str_eq_iff s t, str_eq_iff t s)

pub lists-nil : (name : Text) → lists [] name ≡ false
unfolding any
lists-nil name = refl

lists-one : (entry name : Text) → lists (entry ∷ []) name ≡ str_eq name entry
unfolding any
lists-one entry name = ground arith

-- An alias behind its identifier.
abbrev pub is_alias_entry : QTree → Text → AliasRow → Bool
is_alias_entry q name r = str_eq name (b'=' ∷ r.alias) && not (is_left_out q r.alias)

-- ALL, the names of the tags, and the aliases behind `=`.
pub lists-add_tags_and_aliases :
    (S : Settings) (X : Sources) (q : QTree) (w : World) (name : Text) (buf : List Text)
    → NeverRefuses X
    → q.dbi ≡ true
    → lists (add_tags_and_aliases S X q w buf) name ≡ (
        lists buf name
        || str_eq name (codes "ALL")
        || any (is_tagname q name) w.tags
        || any (is_alias_entry q name) w.aliases)
unfolding add_tags_and_aliases all_aliases
lists-add_tags_and_aliases S X q w name buf h conn =
    let start = fill_all X (codes "ALL" ∷ []) buf in
    let with_tags = add_entries X q false (all_tagnames S.engine true w) start in
    ground (
      arith,
      lists-add_entries X q true (map (λ (r : AliasRow). r.alias) w.aliases) name with_tags h,
      any-map-alias (λ dir. str_eq name (b'=' ∷ dir) && not (is_left_out q dir)) w.aliases,
      lists-all_tagnames S X q w name start h,
      lists-fill_all X (codes "ALL" ∷ []) name buf h,
      lists-one (codes "ALL") name,
    )

-- The quotes of the condition are escaped, and the statement is refused.
not-is_accepted : (q : QTree) → is_accepted (left_condition q) ≡ false
unfolding is_accepted left_condition escape_quotes any
not-is_accepted q = ground arith

-- Behind a relation, relations/ lists only the dots, whatever relations the database holds.
pub readdir_on_relations_empty :
    (S : Settings) (X : Sources) (q : QTree) (w : World)
    → is_some q.relation ≡ true
    → readdir_on_relations S X q w ≡ fill_all X dots []
unfolding readdir_on_relations related_column add_entries
readdir_on_relations_empty S X q w e = ground (arith, not-is_accepted q)
