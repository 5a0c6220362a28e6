-- ===== src/Fuse/Listing/Store.antt =====
-- Which names the directories of store/ hold (src/fuse_operations/readdir.c).
use tagsistant.Base.{
  ◌≡◌, refl, Text, codes, Bool, true, false, ◌&&◌, ◌||◌, not, List, [], ◌∷◌, ◌++◌, none, some,
  Option-cases, inl, inr, str_eq, arith, any, any_congr, is_some,
}
use tagsistant.Sql.{World, TagRow, AliasRow}
use tagsistant.Query.{QTree, AndNode, null, node, no_operator}
use tagsistant.Query.Paths.{is_nonempty, is_all_path}
use tagsistant.Resolve.New.{Settings}
use tagsistant.Fuse.Filler.{Sources, fill_all, is_left_out, in_and_set, last_and_set}
use tagsistant.Fuse.NextTokens.{
  add_tags_and_aliases, add_next_tokens, operator_entries, readdir_on_store, dots,
}
use tagsistant.Fuse.Listing.Tags.{
  lists, lists-fill_all, lists-nil, NeverRefuses, lists-add_tags_and_aliases, is_tagname,
  is_alias_entry, str_eq_comm,
}

-- The names of the tags of an and-set.
abbrev tag_names : AndNode → List Text
tag_names null = []
tag_names (node t related negated next) = elim t.tag [
  | none ↦ tag_names next
  | some name ↦ name ∷ tag_names next
]

in_and_set-tag_names : (dir : Text) (c : AndNode) → in_and_set dir c ≡ lists (tag_names c) dir
unfolding in_and_set any
in_and_set-tag_names dir null = refl
in_and_set-tag_names dir (node t r n x) = elim (Option-cases t.tag) [
  | inl unnamed ↦ rw (unnamed, tag_names) (in_and_set-tag_names dir x)
  | inr (name, named) ↦
      rw (named, tag_names) (ground (arith, in_and_set-tag_names dir x, str_eq_comm name dir))
]

last_and_set-append :
    (sets : List AndNode) (last : AndNode) → last_and_set (sets ++ last ∷ []) ≡ last
unfolding last_and_set
last_and_set-append [] last = refl
last_and_set-append (a ∷ []) last = refl
last_and_set-append (a ∷ b ∷ sets) last = last_and_set-append (b ∷ sets) last

-- What store/ may list beside ALL, tags and aliases: the dots, and the signs of the query language.
abbrev pub signs : List Text
signs =
    codes "."
    ∷ codes ".."
    ∷ codes "@"
    ∷ codes "@@"
    ∷ codes "+"
    ∷ codes "-"
    ∷ codes "{"
    ∷ codes "}"
    ∷ []

lists-dots : (name : Text) → lists signs name ≡ false → lists dots name ≡ false
unfolding any
lists-dots name h = ground arith

lists-operator_entries :
    (q : QTree) (name : Text) → lists signs name ≡ false → lists (operator_entries q) name ≡ false
unfolding operator_entries any
lists-operator_entries q name h = ground arith

-- The rows of a tag and of an alias that are listed by that name behind an and-set.
abbrev pub is_listed_tag : AndNode → Text → TagRow → Bool
is_listed_tag last name r =
    str_eq name r.tagname && is_nonempty r.tagname && not (lists (tag_names last) r.tagname)

abbrev pub is_listed_alias : AndNode → Text → AliasRow → Bool
is_listed_alias last name r =
    str_eq name (b'=' ∷ r.alias) && is_nonempty r.alias && not (lists (tag_names last) r.alias)

not-is_left_out :
    (q : QTree) (sets : List AndNode) (last : AndNode) (dir : Text)
    → q.tree ≡ sets ++ last ∷ []
    → not (is_left_out q dir) ≡ (is_nonempty dir && not (lists (tag_names last) dir))
unfolding is_left_out
not-is_left_out q sets last dir e =
    rw (e, last_and_set-append sets last, in_and_set-tag_names dir last) (ground arith)

next_tokens-on_store :
    (S : Settings) (X : Sources) (q : QTree) (w : World)
    → q.complete ≡ false
    → is_all_path q.full_path ≡ false
    → is_some q.namespace ≡ false
    → is_some q.key ≡ false
    → is_some q.value ≡ false
    → q.operator ≡ no_operator
    → (readdir_on_store S X q w).0
      ≡ add_tags_and_aliases S X q w (fill_all X (operator_entries q) (fill_all X dots []))
unfolding readdir_on_store add_next_tokens
next_tokens-on_store S X q w part all n k v op = simp (part, all, n, k, v, op)

-- Where no triple tag has begun, an incomplete path of store/ outside of ALL lists, beside dots and
-- signs of the query language, exactly: ALL; the tag names, but empty ones and those of the tags in
-- the last and-set; and the aliases behind `=`, but empty ones and those that are such a tag name.
-- This holds with a connection and a filler that takes every entry.
pub lists-readdir_on_store :
    (S : Settings) (X : Sources) (q : QTree) (sets : List AndNode) (last : AndNode) (w : World)
    (name : Text)
    → NeverRefuses X
    → q.dbi ≡ true
    → q.tree ≡ sets ++ last ∷ []
    → q.complete ≡ false
    → is_all_path q.full_path ≡ false
    → is_some q.namespace ≡ false
    → is_some q.key ≡ false
    → is_some q.value ≡ false
    → q.operator ≡ no_operator
    → lists signs name ≡ false
    → lists (readdir_on_store S X q w).0 name ≡ (
        str_eq name (codes "ALL")
        || any (is_listed_tag last name) w.tags
        || any (is_listed_alias last name) w.aliases)
lists-readdir_on_store S X q sets last w name h conn tree part all n k v op plain =
    let first = fill_all X (operator_entries q) (fill_all X dots []) in
    let left = λ (dir : Text). not-is_left_out q sets last dir tree in
    rw (next_tokens-on_store S X q w part all n k v op) (
      ground (
        arith,
        lists-add_tags_and_aliases S X q w name first h conn,
        any_congr (is_tagname q name) (is_listed_tag last name) w.tags
            (λ r. ground (arith, left r.tagname)),
        any_congr (is_alias_entry q name) (is_listed_alias last name) w.aliases
            (λ r. ground (arith, left r.alias)),
        lists-fill_all X (operator_entries q) name (fill_all X dots []) h,
        lists-fill_all X dots name [] h,
        lists-operator_entries q name plain,
        lists-dots name plain,
        lists-nil name,
      ))
