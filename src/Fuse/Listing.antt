-- ===== src/Fuse/Listing.antt =====
-- tagsistant_readdir() and its functions by path type (src/fuse_operations/readdir.c).
pub mod Tags
pub mod Store
use tagsistant.Base.{
  Text, codes, Option, none, some, Bool, true, false, ◌&&◌, ◌||◌, not, List, [], ◌∷◌, ◌++◌, str_eq,
  ◌==◌, if◌then◌else◌, is_some, any,
}
use tagsistant.Sql.{
  World, TagRow, RelationRow, SysResult, returned, failed_with, sys_opendir, sys_closedir,
}
use tagsistant.Sql.Engine.{Engine}
use tagsistant.Sql.Statement.{escape_quotes}
use tagsistant.Sql.Tags.{is_tag, printf_s}
use tagsistant.Query.{
  QTree, malformed, root, archive, tags, retag, relations, stats, store, alias, Operator,
  no_operator,
}
use tagsistant.Query.Paths.{starts_with, ends_with, is_all_path, is_nonempty}
use tagsistant.Resolve.New.{Settings, querytree_new}
use tagsistant.Fuse.{Reply, success, failure, enoent, errno, exit_operation}
use tagsistant.Fuse.Filler.{
  Sources, fill_all, add_entries, tag_column, all_tagnames, keys_of, values_of, all_aliases,
  object_names,
}
use tagsistant.Fuse.NextTokens.{dots, readdir_on_store}

-- The first entries, up to one that the filler refuses.
unfoldable fill_until : Sources → List Text → List Text → List Text
fill_until X [] buf = buf
fill_until X (entry ∷ rest) buf =
    let more = fill_until X rest (buf ++ entry ∷ []) in if X.refuses buf entry then buf else more

-- tagsistant_readdir_on_object()
unfoldable pub readdir_on_object : Settings → Sources → QTree → World → (Reply × List Text) × World
unfolding fill_until
readdir_on_object S X q w =
    let w1 = record w { calls = sys_opendir q.full_archive_path ∷ w.calls } in
    elim (S.system w.calls (sys_opendir q.full_archive_path)) [
      | failed_with e ↦ ((failure (errno e), []), w1)
      | returned dp ↦ (
        (success 0, fill_until X (X.dirents q.full_archive_path w1.calls) []),
        record w1 { calls = sys_closedir dp ∷ w1.calls },
      )
    ]

-- `condition1` and `condition2`, as they are printed.
unfoldable pub left_condition : QTree → Text
left_condition q =
    if is_some q.namespace
    then codes "(tags1.tagname = \""
      ++ (printf_s q.namespace
          ++ (codes "\" and tags1.`key` = \""
              ++ (printf_s q.key
                  ++ (codes "\" and tags1.value = \"" ++ (printf_s q.value ++ codes "\") ")))))
    else codes "(tags1.tagname = \"" ++ (printf_s q.first_tag ++ codes "\") ")

-- A statement that has a backslash outside of its texts is refused. The conditions are arguments of
-- their statement, which escapes their quotes.
unfoldable pub is_accepted : Text → Bool
unfolding escape_quotes
is_accepted condition = not (any (λ c. c == b'\\') (escape_quotes condition))

unfoldable is_left_tag : QTree → TagRow → Bool
unfolding is_tag
is_left_tag q r =
    if is_some q.namespace
    then is_tag (printf_s q.namespace) (printf_s q.key) (printf_s q.value) r
    else str_eq r.tagname (printf_s q.first_tag)

-- The tags to which the relation of the path leads, with their column.
unfoldable pub related_column :
    Settings → QTree → (TagRow → Text) → (TagRow → Bool) → World → List Text
unfolding left_condition is_accepted is_left_tag tag_column
related_column S q column keeps w =
    if is_accepted (left_condition q)
    then tag_column S.engine q.dbi column
        (λ r2.
          keeps r2
          && any
              (λ (r : RelationRow).
                r.tag2_id == r2.tag_id
                && str_eq r.relation (printf_s q.relation)
                && any (λ (r1 : TagRow). r1.tag_id == r.tag1_id && is_left_tag q r1) w.tags)
              w.relations)
        w
    else []

-- tagsistant_readdir_on_relations()
unfoldable pub readdir_on_relations : Settings → Sources → QTree → World → List Text
unfolding related_column add_entries fill_all keys_of values_of all_tagnames
readdir_on_relations S X q w =
    let buf = fill_all X dots [] in
    let add = λ (entries : List Text). add_entries X q false entries buf in
    let namespace = printf_s q.related_namespace in
    let key = printf_s q.related_key in
    if is_some q.second_tag || is_some q.related_value
    then buf
    else if is_some q.related_key
    then add
        (related_column S q (λ r. r.value) (λ r. str_eq r.tagname namespace && str_eq r.key key) w)
    else if is_some q.related_namespace
    then add (related_column S q (λ r. r.key) (λ r. str_eq r.tagname namespace) w)
    else if is_some q.relation
    then add (related_column S q (λ r. r.tagname) (λ r. true) w)
    else if is_some q.first_tag || is_some q.value
    then fill_all X (codes "excludes" ∷ codes "includes" ∷ codes "is_equivalent" ∷ []) buf
    else if is_some q.key
    then add (values_of S.engine q.dbi (printf_s q.namespace) (printf_s q.key) w)
    else if is_some q.namespace
    then add (keys_of S.engine q.dbi (printf_s q.namespace) w)
    else add (all_tagnames S.engine q.dbi w)

-- tagsistant_readdir_on_tags()
unfoldable pub readdir_on_tags : Settings → Sources → QTree → World → List Text
unfolding add_entries fill_all keys_of values_of all_tagnames
readdir_on_tags S X q w =
    let buf = fill_all X dots [] in
    let add = λ (entries : List Text). add_entries X q false entries buf in
    if is_some q.first_tag || is_some q.value
    then buf
    else if is_some q.key
    then add (values_of S.engine q.dbi (printf_s q.namespace) (printf_s q.key) w)
    else if is_some q.namespace
    then add (keys_of S.engine q.dbi (printf_s q.namespace) w)
    else add (all_tagnames S.engine q.dbi w)

-- tagsistant_readdir_on_stats(), with the querytree cache compiled out.
unfoldable pub readdir_on_stats : Sources → List Text
unfolding fill_all
readdir_on_stats X =
    fill_all X
      (codes "configuration"
        ∷ codes "connections"
        ∷ codes "objects"
        ∷ codes "relations"
        ∷ codes "tags"
        ∷ [])
      (fill_all X dots [])

-- tagsistant_readdir_on_alias()
unfoldable pub readdir_on_alias : Sources → QTree → World → List Text
unfolding add_entries all_aliases fill_all
readdir_on_alias X q w = add_entries X q false (all_aliases q.dbi w) (fill_all X dots [])

unfoldable pub readdir_on_root : Sources → List Text
unfolding fill_all
readdir_on_root X =
    fill_all X
      (codes "."
        ∷ codes ".."
        ∷ codes "alias"
        ∷ codes "archive"
        ∷ codes "relations"
        ∷ codes "stats"
        ∷ codes "store"
        ∷ codes "tags"
        ∷ [])
      []

unfoldable pub readdir_body : Settings → Sources → QTree → World → (Reply × List Text) × World
readdir_body S X q w =
    let listed : List Text → (Reply × List Text) × World = λ entries. ((success 0, entries), w) in
    let object = readdir_on_object S X q w in
    let in_store = readdir_on_store S X q w in
    let directory : (Reply × List Text) × World = elim q.type [
      | malformed ↦ ((failure enoent, []), w)
      | archive ↦ object
      | root ↦ listed (readdir_on_root X)
      | store ↦ ((success 0, in_store.0), in_store.1)
      | tags ↦ listed (readdir_on_tags S X q w)
      | relations ↦ listed (readdir_on_relations S X q w)
      | stats ↦ listed (readdir_on_stats X)
      | retag ↦ listed (readdir_on_stats X)
      | alias ↦ listed (readdir_on_alias X q w)
    ] in
    elim q.type [
      | malformed ↦ directory
      | _ ↦ if q.points_to_object && is_some q.full_archive_path then object else directory
    ]

-- tagsistant_readdir(): the reply, and the entries in the buffer.
unfoldable pub readdir : Settings → Sources → Text → World → Option ((Reply × List Text) × World)
readdir S X path w = elim (querytree_new S path false true false w) [
  | none ↦ none
  | some (q, w1) ↦
      let (r, w2) = readdir_body S X q w1 in some (r, (exit_operation S q w (r.0, w2)).1)
]
