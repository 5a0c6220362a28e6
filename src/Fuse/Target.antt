-- ===== src/Fuse/Target.antt =====
-- Which path tagsistant_getattr() hands to lstat(), and tagsistant_valid_relation()
-- (src/fuse_operations/getattr.c).
use tagsistant.Base.{
  ℕ, Text, codes, Option, none, some, Bool, true, false, ◌&&◌, ◌||◌, not, str_eq, ◌==◌,
  if◌then◌else◌, is_some, select,
}
use tagsistant.Sql.{World, RelationRow}
use tagsistant.Sql.Engine.{Engine}
use tagsistant.Sql.Existence.{ones}
use tagsistant.Sql.Tags.{query_integer, get_tag_id}
use tagsistant.Sql.Objects.{is_relation}
use tagsistant.Sql.Aliases.{alias_exists}
use tagsistant.Query.{QTree, archive, relations, stats, alias}
use tagsistant.Query.Paths.{has_substring, is_all_path}
use tagsistant.Resolve.{check_tagging_consistency}
use tagsistant.Resolve.New.{Settings}
use tagsistant.Fuse.{enoent, Errno}
use tagsistant.Fuse.Paths.{is_error_path, is_tags_list_file, matches_whole}

-- tagsistant_valid_relation(): the two alternatives of the first statement name the same columns.
unfoldable pub valid_relation : Engine → QTree → ℕ → ℕ → World → ℕ
unfolding query_integer ones is_relation
valid_relation E q id related w =
    let equivalent = query_integer E q.dbi (
      ones (
        select
          (λ (r : RelationRow).
            str_eq r.relation (codes "is_equivalent")
            && ((r.tag1_id == id && r.tag2_id == related)
                || (r.tag2_id == related && r.tag1_id == id)))
          w.relations)) in
    let directed = λ (name : Text).
      query_integer E q.dbi (ones (select (is_relation id related name) w.relations)) in
    elim q.relation [
      | none ↦ 0
      | some name ↦
          if str_eq name (codes "is_equivalent")
          then equivalent
          else if str_eq name (codes "includes") || str_eq name (codes "excludes")
          then directed name
          else 0
    ]

-- A path to lstat(), which may be NULL, or the errno of an abort; the world keeps what the lookups
-- saved.
pub data Target : Type 0 where
  lstat_path : Option Text → World → Target
  give_up : Errno → World → Target

-- The right tag of a relation, and the check of the relation between the two tags.
unfoldable pub related_target : Settings → QTree → ℕ → Option Text → Bool → ℕ × World → Target
unfolding valid_relation
related_target S q id path named (related, w) =
    if named && related == 0
    then give_up enoent w
    else if not (related == 0)
        && (is_some q.second_tag || is_some q.related_value)
        && valid_relation S.engine q id related w == 0
    then give_up enoent w
    else lstat_path path w

-- A triple on the left looks at the triple on the right first; a tag on the left, at the tag.
unfoldable pub relation_target : Settings → QTree → World → Target
relation_target S q w =
    let dir = some S.archive_dir in
    let second = λ (w1 : World). get_tag_id S.engine q.dbi q.second_tag none none w1 in
    let triple = λ (w1 : World).
      get_tag_id S.engine q.dbi q.related_namespace q.related_key q.related_value w1 in
    let (id, w1) = get_tag_id S.engine q.dbi q.namespace q.key q.value w in
    let (first, w2) = get_tag_id S.engine q.dbi q.first_tag none none w in
    let from_triple =
      if is_some q.related_namespace
      then related_target S q id dir true (triple w1)
      else if is_some q.second_tag
      then related_target S q id dir true (second w1)
      else related_target S q id dir false (0, w1) in
    let from_tag =
      if is_some q.second_tag
      then related_target S q first dir true (second w2)
      else if is_some q.related_namespace
      then related_target S q first dir true (triple w2)
      else related_target S q first dir false (0, w2) in
    if is_some q.namespace
    then (if id == 0 then give_up enoent w1 else from_triple)
    else if is_some q.first_tag
    then (if first == 0 then give_up enoent w2 else from_tag)
    else lstat_path dir w

-- A query that points to an object: a listing of its tags, or the object if it has the tags.
unfoldable pub object_target : Settings → QTree → World → Option (QTree × Target)
unfolding is_tags_list_file
object_target S q w =
    let checked : Option (QTree × Target) = elim (check_tagging_consistency S.engine q w) [
      | none ↦ none
      | some q1 ↦ some (
        q1,
        (if is_some q1.full_archive_path && q1.exists
            then lstat_path q1.full_archive_path w
            else give_up enoent w),
      )
    ] in
    if is_all_path q.full_path
    then some (q, lstat_path q.full_archive_path w)
    else if is_tags_list_file S.tags_suffix q
    then some (q, lstat_path (some S.tags_file) w)
    else checked

unfoldable pub archive_target : Settings → QTree → World → Target
unfolding has_substring
archive_target S q w =
    let named : Bool = elim q.object_path [
      | none ↦ false
      | some path ↦ has_substring path (codes "___")
    ] in
    if not named
    then lstat_path (some S.archive_dir) w
    else if is_some q.full_archive_path
    then lstat_path q.full_archive_path w
    else give_up enoent w

unfoldable pub stats_target : Settings → Text → World → Target
unfolding matches_whole
stats_target S path w =
    if matches_whole path (codes "/stats/connections")
      || matches_whole path (codes "/stats/cached_queries")
      || matches_whole path (codes "/stats/configuration")
      || matches_whole path (codes "/stats/objects")
      || matches_whole path (codes "/stats/relations")
      || matches_whole path (codes "/stats/tags")
    then lstat_path (some S.tags_file) w
    else if matches_whole path (codes "/stats")
    then lstat_path (some S.archive_dir) w
    else give_up enoent w

-- An alias that does not exist.
unfoldable pub alias_target : Settings → QTree → World → Target
unfolding alias_exists
alias_target S q w = elim q.alias [
  | none ↦ lstat_path (some S.archive_dir) w
  | some name ↦
      if alias_exists q.dbi name w then lstat_path (some S.tags_file) w else give_up enoent w
]

-- The path to lstat(). `none`: a NULL pointer is followed.
unfoldable pub find_target : Settings → Text → QTree → World → Option (QTree × Target)
unfolding is_error_path
find_target S path q w =
    let plain = some (q, lstat_path (some S.archive_dir) w) in
    let object = λ (other : Option (QTree × Target)).
      if q.points_to_object then object_target S q w else other in
    if is_some q.error_message && is_error_path path
    then some (q, lstat_path (some S.tags_file) w)
    else elim q.type [
      | archive ↦ some (q, archive_target S q w)
      | alias ↦ object (some (q, alias_target S q w))
      | relations ↦ object (some (q, relation_target S q w))
      | stats ↦ object (some (q, stats_target S path w))
      | _ ↦ object plain
    ]
