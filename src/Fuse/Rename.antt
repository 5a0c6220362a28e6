-- ===== src/Fuse/Rename.antt =====
-- tagsistant_rename() of src/fuse_operations/rename.c. The query of the new path has no connection
-- while it is built, and borrows the one of the old path afterwards.
use tagsistant.Base.{
  ℕ, Text, Option, none, some, Bool, true, false, ◌&&◌, ◌||◌, not, ◌==◌, if◌then◌else◌, is_some,
}
use tagsistant.Sql.{World, sys_rename}
use tagsistant.Sql.Tags.{tag_object, untag_object, execute, printf_s, remove_tag_from_cache}
use tagsistant.Sql.Objects.{set_objectname, rename_tag}
use tagsistant.Sql.Aliases.{alias_rename}
use tagsistant.Query.{
  QTree, QType, malformed, root, archive, tags, retag, relations, stats, store, alias,
}
use tagsistant.Resolve.{check_tagging_consistency}
use tagsistant.Resolve.Archive.{set_inode}
use tagsistant.Resolve.New.{Settings, querytree_new}
use tagsistant.Fuse.{
  Reply, success, failure, enoent, einval, eperm, exdev, system_call, querytree_traverse,
  querytree_destroy, is_success,
}

-- The number of a type in the enumeration.
unfoldable type_code : QType → ℕ
type_code malformed = 0
type_code root = 1
type_code archive = 2
type_code tags = 3
type_code retag = 4
type_code relations = 5
type_code stats = 6
type_code store = 7
type_code alias = 8

abbrev same_bool : Bool → Bool → Bool
same_bool true b = b
same_bool false b = not b

-- QTREES_ARE_SIMILAR()
unfoldable are_similar : QTree → QTree → Bool
unfolding type_code
are_similar a b = type_code a.type == type_code b.type && same_bool a.complete b.complete

abbrev is_type : QType → QType → Bool
is_type a b = type_code a == type_code b

-- The steps 2 to 5 on an object, and the rename on disk.
unfoldable rename_object : Settings → QTree → QTree → World → Reply × World
unfolding set_inode set_objectname querytree_traverse untag_object tag_object execute system_call
    printf_s
rename_object S from to w =
    let (to', w1) = set_inode S.archive_dir from.inode to w in
    let w2 = execute from.dbi (set_objectname (printf_s to'.object_path) from.inode) w1 in
    let w3 =
      querytree_traverse (λ n k v. untag_object S.engine from.dbi n k v from.inode) from.tree w2 in
    let w4 =
      querytree_traverse (λ n k v. tag_object S.engine to'.dbi n k v from.inode) to'.tree w3 in
    let moved = system_call S (sys_rename from.full_archive_path to'.full_archive_path) w4 in
    if not (from.is_taggable && to.is_taggable)
    then (failure exdev, w)
    else if from.inode == to.inode
    then (success 0, w)
    else moved

-- The tag at the end of the two paths, with its entry in the cache.
unfoldable rename_last_tag : QTree → QTree → World → World
unfolding rename_tag execute printf_s remove_tag_from_cache
rename_last_tag from to w =
    let w1 = execute from.dbi (rename_tag (printf_s to.last_tag) (printf_s from.last_tag)) w in
    if is_some from.value
    then remove_tag_from_cache from.namespace from.key from.value w1
    else remove_tag_from_cache from.last_tag none none w1

unfoldable rename_by_type : QTree → QTree → World → Reply × World
unfolding rename_last_tag alias_rename execute printf_s
rename_by_type from to w = elim from.type [
  | root ↦ (failure eperm, w)
  | store ↦ if from.complete then (failure eperm, w) else (success 0, rename_last_tag from to w)
  | tags ↦ (success 0, rename_last_tag from to w)
  | alias ↦ (success 0, execute from.dbi (alias_rename (printf_s to.alias) (printf_s from.alias)) w)
  | _ ↦ (success 0, w)
]

abbrev is_unmovable : QType → Bool
is_unmovable stats = true
is_unmovable relations = true
is_unmovable _ = false

unfoldable pub rename_body : Settings → QTree → QTree → World → Reply × World
unfolding are_similar rename_object rename_by_type
rename_body S from to w =
    let movable =
      if from.points_to_object then rename_object S from to w else rename_by_type from to w in
    let checked =
      if not (are_similar from to)
      then (failure einval, w)
      else if is_unmovable to.type || is_unmovable from.type
      then (failure einval, w)
      else movable in
    elim from.type [ malformed ↦ (failure enoent, w) | _ ↦ checked ]

-- The query of the new path, which borrows the connection of the old one.
unfoldable pub resolve_new_path : Settings → QTree → Text → World → Option ((QTree × QTree) × World)
unfolding querytree_new
resolve_new_path S from to w = elim (querytree_new S to false false false w) [
  | none ↦ none
  | some (t, w') ↦ elim (check_tagging_consistency S.engine t w') [
    | none ↦ none
    | some t' ↦ some ((from, record t' { dbi = from.dbi }), w')
  ]
]

-- Both queries, each checked against the database.
unfoldable pub resolve_both : Settings → Text → Text → World → Option ((QTree × QTree) × World)
unfolding querytree_new resolve_new_path
resolve_both S from to w = elim (querytree_new S from true true false w) [
  | none ↦ none
  | some (f, w1) ↦ elim (check_tagging_consistency S.engine f w1) [
    | none ↦ none
    | some f' ↦ resolve_new_path S f' to w1
  ]
]

unfoldable pub rename : Settings → Text → Text → World → Option (Reply × World)
unfolding resolve_both rename_body querytree_destroy is_success
rename S from to w = elim (resolve_both S from to w) [
  | none ↦ none
  | some (qs, w1) ↦
      let (reply, w2) = rename_body S qs.0 qs.1 w1 in
      let w3 = querytree_destroy S (is_success reply) qs.0 w w2 in
      some (reply, querytree_destroy S (is_success reply) (record qs.1 { dbi = false }) w w3)
]
