-- ===== src/Fuse/Mkdir.antt =====
-- tagsistant_mkdir() of src/fuse_operations/mkdir.c.
use tagsistant.Base.{
  ℕ, Text, Option, none, some, true, false, ◌&&◌, ◌||◌, not, ◌==◌, if◌then◌else◌, is_some,
}
use tagsistant.Sql.{World, sys_mkdir}
use tagsistant.Sql.Tags.{create_tag, get_tag_id, ensure_tag, execute, printf_s}
use tagsistant.Sql.Objects.{insert_relation}
use tagsistant.Query.{QTree, malformed, store, tags, relations}
use tagsistant.Query.Paths.{is_valid_relation}
use tagsistant.Resolve.{check_tagging_consistency}
use tagsistant.Resolve.New.{Settings, querytree_new}
use tagsistant.Fuse.{
  Reply, success, failure, eio, efault, erofs, system_call, create_and_tag_object, exit_operation,
}

-- The object in a complete store/ query, or in archive/.
unfoldable mkdir_object : Settings → QTree → World → Option (Reply × World)
unfolding create_and_tag_object system_call
mkdir_object S q w = elim (check_tagging_consistency S.engine q w) [
  | none ↦ none
  | some q1 ↦
      let (created, r) = create_and_tag_object S true q1 w in
      let tagged : Reply × World = elim created [
        | none ↦ (failure eio, r.1)
        | some inode ↦ system_call S (sys_mkdir r.0.full_archive_path) r.1
      ] in
      some (if q1.is_taggable then tagged else system_call S (sys_mkdir q1.full_archive_path) w)
]

-- A tag under tags/.
unfoldable mkdir_tag : QTree → World → Reply × World
unfolding create_tag
mkdir_tag q w =
    let flat =
      if is_some q.second_tag
      then (failure erofs, w)
      else (success 0, create_tag q.dbi q.first_tag none none w) in
    if is_some q.first_tag
    then flat
    else if is_some q.namespace
    then (success 0, create_tag q.dbi q.namespace q.key q.value w)
    else (success 0, w)

-- A tag at the end of an incomplete store/ query.
unfoldable mkdir_store : QTree → World → Reply × World
unfolding create_tag
mkdir_store q w =
    if is_some q.namespace
    then (success 0, create_tag q.dbi q.namespace q.key q.value w)
    else if is_some q.last_tag
    then (success 0, create_tag q.dbi q.last_tag none none w)
    else (success 0, w)

-- The ids of the two tags; the second one is created if it is missing.
unfoldable left_id : Settings → QTree → World → ℕ × World
left_id S q w =
    if is_some q.first_tag
    then get_tag_id S.engine q.dbi q.first_tag none none w
    else get_tag_id S.engine q.dbi q.namespace q.key q.value w

unfoldable right_id : Settings → QTree → World → ℕ × World
unfolding ensure_tag
right_id S q w =
    if is_some q.second_tag
    then ensure_tag S.engine q.dbi q.second_tag none none w
    else ensure_tag S.engine q.dbi q.related_namespace q.related_key q.related_value w

-- A relation is stored if the right tag is whole.
unfoldable store_relation : QTree → ℕ → ℕ → World → World
unfolding insert_relation execute printf_s
store_relation q tag1 tag2 w =
    if is_some q.second_tag
      || (is_some q.related_namespace && is_some q.related_key && is_some q.related_value)
    then execute q.dbi (insert_relation tag1 tag2 (printf_s q.relation)) w
    else w

unfoldable mkdir_relation : Settings → QTree → World → Reply × World
unfolding left_id right_id store_relation
mkdir_relation S q w =
    let (tag1, w1) = left_id S q w in
    let (tag2, w2) = right_id S q w1 in
    if not (is_some q.second_tag || is_some q.related_namespace)
    then (failure erofs, w)
    else if not (tag1 == 0) && not (tag2 == 0) && is_valid_relation q.relation
    then (success 0, store_relation q tag1 tag2 w2)
    else (failure efault, w2)

unfoldable pub mkdir_body : Settings → QTree → World → Option (Reply × World)
unfolding mkdir_object mkdir_tag mkdir_store mkdir_relation
mkdir_body S q w =
    let other : Option (Reply × World) =
      if q.points_to_object then mkdir_object S q w else elim q.type [
        | tags ↦ some (mkdir_tag q w)
        | store ↦ some (mkdir_store q w)
        | relations ↦ some (mkdir_relation S q w)
        | _ ↦ some (failure erofs, w)
      ] in
    elim q.type [ malformed ↦ some (failure erofs, w) | _ ↦ other ]

unfoldable pub mkdir : Settings → Text → World → Option (Reply × World)
unfolding mkdir_body exit_operation querytree_new
mkdir S path w = elim (querytree_new S path true true false w) [
  | none ↦ none
  | some (q, w1) ↦ elim (mkdir_body S q w1) [
    | none ↦ none
    | some result ↦ some (exit_operation S q w result)
  ]
]
