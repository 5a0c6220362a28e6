-- ===== src/Autotag/Cleaning.antt =====
-- The tags that autotagging makes of keywords (src/plugin.c).
use tagsistant.Base.{
  ℕ, ◌+◌, ◌≡◌, refl, Text, some, Bool, true, false, ◌||◌, List, [], ◌∷◌, ◌==◌, any, any-append,
  arith,
}
use tagsistant.Sql.{World, TagRow}
use tagsistant.Sql.Engine.{Engine}
use tagsistant.Sql.Tags.{
  get_tag_id, create_tag, ensure_tag, tag_object, insert_tag, insert_tagging, safe_string, execute,
}
use tagsistant.Sql.Tags.Cache.{get-db}
use tagsistant.Query.{QTree}
use tagsistant.Query.Paths.{slash}
use tagsistant.Resolve.New.{Settings}
use tagsistant.Autotag.{Keyword, clean, keyword_matcher, plugin_iterator}

abbrev has_slash_or_space : Text → Bool
has_slash_or_space s = any (λ c. c == slash || c == b' ') s

clean_lem : (s : Text) → has_slash_or_space (clean s) ≡ false
unfolding clean any
clean_lem [] = refl
clean_lem (c ∷ s) = ground (arith, clean_lem s)

-- A tag whose key or value cannot stand in a path.
abbrev pub is_unclean : TagRow → Bool
is_unclean r = has_slash_or_space r.key || has_slash_or_space r.value

insert_tag-unclean :
    (n k v : Text) (w : World)
    → has_slash_or_space k ≡ false
    → has_slash_or_space v ≡ false
    → any is_unclean (insert_tag n k v w).tags ≡ any is_unclean w.tags
unfolding insert_tag any
insert_tag-unclean n k v w hk hv = ground (
  arith,
  any-append is_unclean w.tags
      (record { tag_id = w.tags_sequence + 1; tagname = n; key = k; value = v } ∷ []),
)

create_tag-unclean :
    (conn : Bool) (n k v : Text) (w : World)
    → has_slash_or_space k ≡ false
    → has_slash_or_space v ≡ false
    → any is_unclean (create_tag conn (some n) (some k) (some v) w).tags ≡ any is_unclean w.tags
unfolding create_tag execute safe_string
create_tag-unclean false n k v w hk hv = refl
create_tag-unclean true n k v w hk hv = insert_tag-unclean n k v w hk hv

ensure_tag-unclean :
    (E : Engine) (conn : Bool) (n k v : Text) (w : World)
    → has_slash_or_space k ≡ false
    → has_slash_or_space v ≡ false
    → any is_unclean (ensure_tag E conn (some n) (some k) (some v) w).1.tags ≡ any is_unclean w.tags
unfolding ensure_tag
ensure_tag-unclean E conn n k v w hk hv =
    let w1 = (get_tag_id E conn (some n) (some k) (some v) w).1 in
    ground (
      arith,
      get-db E conn (some n) (some k) (some v) w,
      get-db E conn (some n) (some k) (some v) (create_tag conn (some n) (some k) (some v) w1),
      create_tag-unclean conn n k v w1 hk hv,
    )

insert_tagging-tags :
    (conn : Bool) (id inode : ℕ) (w : World)
    → (execute conn (insert_tagging id inode) w).tags ≡ w.tags
unfolding execute insert_tagging
insert_tagging-tags conn id inode w = ground arith

tag_object-unclean :
    (E : Engine) (conn : Bool) (n k v : Text) (inode : ℕ) (w : World)
    → has_slash_or_space k ≡ false
    → has_slash_or_space v ≡ false
    → any is_unclean (tag_object E conn (some n) (some k) (some v) inode w).tags
      ≡ any is_unclean w.tags
unfolding tag_object safe_string
tag_object-unclean E conn n k v inode w hk hv =
    rw
      (insert_tagging-tags conn (ensure_tag E conn (some n) (some k) (some v) w).0 inode
        (ensure_tag E conn (some n) (some k) (some v) w).1)
      (ensure_tag-unclean E conn n k v w hk hv)

keyword_matcher-unclean :
    (S : Settings) (matches : Text → Bool) (namespace : Text) (k : Keyword) (q : QTree) (w : World)
    → any is_unclean (keyword_matcher S matches namespace k q w).tags ≡ any is_unclean w.tags
unfolding keyword_matcher
keyword_matcher-unclean S matches namespace k q w = ground (
  arith,
  tag_object-unclean S.engine q.dbi namespace (clean k.keyword) (clean k.value) q.inode w
      (clean_lem k.keyword) (clean_lem k.value),
)

-- Whatever keywords a file has and whatever the filter lets pass, autotagging leads to no tag whose
-- key or value has a slash or a space, which no path could name, unless there was one before.
pub plugin_iterator-unclean :
    (S : Settings) (matches : Text → Bool) (namespace : Text) (keywords : List Keyword) (q : QTree)
    (w : World)
    → any is_unclean (plugin_iterator S matches namespace keywords q w).tags ≡ any is_unclean w.tags
unfolding plugin_iterator
plugin_iterator-unclean S matches namespace [] q w = refl
plugin_iterator-unclean S matches namespace (k ∷ keywords) q w = ground (
  arith,
  keyword_matcher-unclean S matches namespace k q w,
  plugin_iterator-unclean S matches namespace keywords q
      (keyword_matcher S matches namespace k q w),
)
