-- ===== src/Fuse/Stat.antt =====
-- What tagsistant_getattr() does to the stat buffer after lstat() (src/fuse_operations/getattr.c).
pub mod Inodes
use tagsistant.Base.{
  ℕ, ◌+◌, ◌*◌, ◌%◌, Text, codes, Option, none, some, Bool, true, false, ◌&&◌, ◌||◌, not, [], ◌∷◌,
  str_eq, ◌==◌, if◌then◌else◌, is_some, length,
}
use tagsistant.Sql.{World}
use tagsistant.Sql.Engine.{u32_mod}
use tagsistant.Sql.Tags.{get_tag_id}
use tagsistant.Sql.Aliases.{alias_exists, alias_get_length}
use tagsistant.Query.{
  QTree, tags, stats, store, alias, Operator, greater_than, smaller_than, contains_text,
}
use tagsistant.Query.Paths.{starts_with}
use tagsistant.Resolve.New.{Settings}
use tagsistant.Fuse.Paths.{is_tags_list_file}

-- What the handler leaves in the stat buffer; `none`: as lstat() left it.
pub record Attributes : Type 0 where
  pub st_ino : ℕ
  pub st_size : Option ℕ
  pub st_nlink : Option ℕ
  pub is_listing : Bool

-- An abort of the post-processing, or the buffer.
pub data Processed : Type 0 where
  aborted : World → Processed
  filled : Attributes → World → Processed

-- `st_ino = tag_id * 3` in 32 bits.
unfoldable pub tag_ino : ℕ → ℕ
tag_ino id = id * 3 % u32_mod

abbrev is_open_operator : Operator → Bool
is_open_operator greater_than = true
is_open_operator smaller_than = true
is_open_operator contains_text = true
is_open_operator _ = false

-- The tag that a store/ path ends by.
unfoldable pub process_tag : Settings → QTree → Text → Attributes → World → Processed
unfolding tag_ino
process_tag S q last a w =
    let (id, w1) : ℕ × World =
      if is_some q.namespace
      then get_tag_id S.engine q.dbi q.namespace q.key q.value w
      else get_tag_id S.engine q.dbi (some last) none none w in
    if not (id == 0)
    then filled (record a { st_ino = tag_ino id }) w1
    else if is_some q.namespace && is_open_operator q.operator
    then filled (record a { st_ino = tag_ino id }) w1
    else aborted w1

-- A directory that an operator of the grammar names.
unfoldable operator_attributes : ℕ → ℕ → Attributes → Attributes
operator_attributes shift links a = record a {
  st_ino = a.st_ino + shift;
  st_nlink = some links;
  is_listing = true;
}

-- `last_tag + 1`
unfoldable behind_identifier : Text → Text
behind_identifier [] = []
behind_identifier (c ∷ name) = name

unfoldable pub process_last_tag : Settings → QTree → Text → Attributes → World → Processed
unfolding operator_attributes alias_exists starts_with behind_identifier
process_last_tag S q last a w =
    if str_eq last (codes "ALL")
    then filled a w
    else if str_eq last (codes "+") || str_eq last (codes "-")
    then filled (operator_attributes 1 1 a) w
    else if str_eq last (codes "@") || str_eq last (codes "@@")
    then filled (operator_attributes 2 1 a) w
    else if str_eq last (codes "{") || str_eq last (codes "}")
    then filled (operator_attributes 3 3 a) w
    else if starts_with last (codes "=")
    then (if alias_exists q.dbi (behind_identifier last) w then filled a w else aborted w)
    else process_tag S q last a w

unfoldable pub process_store : Settings → QTree → Attributes → World → Processed
unfolding is_tags_list_file
process_store S q a w =
    let listed =
      if is_tags_list_file S.tags_suffix q then record a { st_size = some (1024 * 1024) } else a in
    let by_tag : Processed = elim q.last_tag [
      | none ↦ filled a w
      | some last ↦ process_last_tag S q last a w
    ] in
    if is_some q.error_message
    then filled a w
    else if q.points_to_object
    then filled listed w
    else by_tag

unfoldable pub process_tags : Settings → QTree → Attributes → World → Processed
unfolding tag_ino
process_tags S q a w =
    let name = if is_some q.first_tag then q.first_tag else q.namespace in
    let (id, w1) = get_tag_id S.engine q.dbi name q.key q.value w in
    if not (is_some name)
    then filled a w
    else if is_some q.second_tag
    then aborted w
    else if id == 0
    then aborted w1
    else filled (record a { st_ino = tag_ino id }) w1

-- The post-processing; `none`: the length of an alias that is not there.
unfoldable pub process : Settings → QTree → Attributes → World → Option Processed
unfolding alias_get_length
process S q a w = elim q.type [
  | store ↦ some (process_store S q a w)
  | alias ↦ elim q.alias [
    | none ↦ some (filled a w)
    | some name ↦ elim (alias_get_length q.dbi name w) [
      | none ↦ none
      | some size ↦ some (filled (record a { st_size = some size }) w)
    ]
  ]
  | stats ↦ some (filled (record a { st_size = some 2048 }) w)
  | tags ↦ some (process_tags S q a w)
  | _ ↦ some (filled a w)
]
