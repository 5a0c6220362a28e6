-- ===== src/Fuse/Reading.antt =====
-- tagsistant_read() of src/fuse_operations/read.c. `none`: a NULL pointer is followed, or a buffer is
-- overrun.
pub mod Chunks
use tagsistant.Base.{
  ℕ, ◌+◌, ◌-◌, Text, codes, Option, none, some, Bool, true, false, ◌&&◌, ◌||◌, not, List, [], ◌∷◌,
  ◌++◌, map, str_eq, ◌==◌, ltb, leb, if◌then◌else◌, is_some, select, any, length,
}
use tagsistant.Sql.{World, TagRow, TaggingRow, sys_pread}
use tagsistant.Sql.Engine.{Engine}
use tagsistant.Sql.Tags.{printf_s}
use tagsistant.Sql.Aliases.{alias_get}
use tagsistant.Query.{QTree, ErrorMessage, malformed, stats, alias}
use tagsistant.Query.Paths.{is_triple_token, ends_with}
use tagsistant.Resolve.Archive.{print_decimal}
use tagsistant.Resolve.New.{Settings, querytree_new}
use tagsistant.Fuse.{
  Reply, success, failure, enoent, efault, einval, exit_operation, querytree_destroy,
}
use tagsistant.Fuse.Paths.{is_error_path, is_tags_list_file, strip_suffix}
use tagsistant.Fuse.Handles.{FileInfo, Handled, transfer_cached}

-- The first elements, and the others.
unfoldable pub take {ℓ} : {A : Type ℓ} → ℕ → List A → List A
take n [] = []
take n (x ∷ xs) = let more = x ∷ take (n - 1) xs in if n == 0 then [] else more

unfoldable pub drop {ℓ} : {A : Type ℓ} → ℕ → List A → List A
drop n [] = []
drop n (x ∷ xs) = let more = drop (n - 1) xs in if n == 0 then x ∷ xs else more

-- What the program itself writes into the buffer; `none`: nothing, or what pread() reads.
abbrev pub Read : Type 0
Read = (Reply × Option Text) × (FileInfo × World)

-- The texts that the process prints itself: its error messages, its configuration, and the counter
-- `connections`.
pub record Texts : Type 0 where
  pub message : ErrorMessage → Text
  pub configuration : Text
  pub connections : ℕ

-- A line of tagsistant_read_file_tags().
unfoldable tag_line : TagRow → Text
unfolding is_triple_token
tag_line r =
    if is_triple_token r.tagname
    then r.tagname ++ (r.key ++ (b'=' ∷ (r.value ++ 10 ∷ [])))
    else r.tagname ++ 10 ∷ []

unfoldable pub tag_lines : List TagRow → Text
unfolding tag_line
tag_lines [] = []
tag_lines (r ∷ rows) = tag_line r ++ tag_lines rows

-- The tags of an object, by the join of the two tables.
unfoldable pub tags_of : Engine → Bool → ℕ → World → List TagRow
tags_of E conn inode w =
    if conn
    then E.arrange (
        select
          (λ (t : TagRow).
            any (λ (r : TaggingRow). r.tag_id == t.tag_id && r.inode == inode) w.tagging)
          w.tags)
    else []

-- The list of the tags of an object: `size` bytes are copied, whatever the offset is, and the result
-- is the length of the text in the buffer, which a list of that size or more does not end.
unfoldable pub read_tags : Settings → ℕ → QTree → FileInfo → World → Option Read
read_tags S size q fi w =
    let lines = tag_lines (tags_of S.engine q.dbi q.inode w) in
    if q.inode == 0
    then some ((failure efault, none), (fi, w))
    else if ltb (length lines) size
    then some ((success (length lines), some lines), (fi, w))
    else none

-- A path with the suffix: the query is destroyed, and another one is made without the suffix.
unfoldable pub read_tags_list : Settings → ℕ → QTree → FileInfo → World → Option (QTree × Read)
read_tags_list S size q fi w =
    elim (querytree_new S (strip_suffix S.tags_suffix q.full_path) false true true
      (querytree_destroy S false q w w)) [
        | none ↦ none
        | some (q1, w1) ↦ elim (read_tags S size q1 fi w1) [ none ↦ none | some r ↦ some (q1, r) ]
      ]

unfoldable count_line : Text → ℕ → Text
unfolding print_decimal
count_line label n = label ++ (print_decimal n ++ 10 ∷ [])

-- The text of a statistic, by the end of the path.
unfoldable pub stats_text : Texts → Text → QTree → World → Text
unfolding count_line ends_with
stats_text T path q w =
    let counted = λ (n : ℕ). if q.dbi then n else 0 in
    let tags : ℕ = if q.dbi then length w.tags else 2 in
    if ends_with path (codes "/connections")
    then count_line (codes "# of MySQL open connections: ") T.connections
    else if ends_with path (codes "/configuration")
    then T.configuration
    else if ends_with path (codes "/objects")
    then count_line (codes "# of objects: ") (counted (length w.objects))
    else if ends_with path (codes "/tags")
    then count_line (codes "# of tags: ") tags
    else if ends_with path (codes "/relations")
    then count_line (codes "# of relations: ") (counted (length w.relations))
    else []

-- The part of a text that a read at an offset copies.
unfoldable pub copy_part : ℕ → ℕ → Text → Reply × Option Text
unfolding take drop
copy_part size offset text =
    let available = length text - offset in
    let real_size = if ltb available size then available else size in
    if leb offset (length text)
    then (success real_size, some (take real_size (drop offset text)))
    else (success 0, none)

-- An alias is copied whole, whatever size and offset are asked for.
unfoldable pub read_alias : ℕ → QTree → FileInfo → World → Option Read
read_alias size q fi w = elim (alias_get q.dbi (printf_s q.alias) w) [
  | none ↦ some ((success 0, none), (fi, w))
  | some value ↦
      if leb (length value) size then some ((success (length value), some value), (fi, w)) else none
]

unfoldable pub read_object : Settings → ℕ → QTree → FileInfo → World → Option (QTree × Read)
unfolding is_tags_list_file
read_object S size q fi w =
    let (reply, state) = transfer_cached S sys_pread q fi w in
    if is_tags_list_file S.tags_suffix q
    then read_tags_list S size q fi w
    else if is_some q.full_archive_path
    then some (q, ((reply, none), state))
    else some (q, ((failure efault, none), (fi, w)))

-- An error message is copied whole as well.
unfoldable pub read_error : Texts → ℕ → ErrorMessage → FileInfo → World → Option Read
read_error T size e fi w =
    if leb (length (T.message e)) size
    then some ((success (length (T.message e)), some (T.message e)), (fi, w))
    else none

abbrev with_query : QTree → Option Read → Option (QTree × Read)
with_query q none = none
with_query q (some r) = some (q, r)

unfoldable pub read_body :
    Settings → Texts → Text → ℕ → ℕ → QTree → FileInfo → World → Option (QTree × Read)
unfolding is_error_path
read_body S T path size offset q fi w =
    let by_type : Option (QTree × Read) = elim q.type [
      | alias ↦ with_query q (read_alias size q fi w)
      | stats ↦ some (q, (copy_part size offset (stats_text T path q w), (fi, w)))
      | _ ↦ some (q, ((failure einval, none), (fi, w)))
    ] in
    let plain = if q.points_to_object then read_object S size q fi w else by_type in
    let checked : Option (QTree × Read) = elim q.error_message [
      | none ↦ plain
      | some e ↦ if is_error_path path then with_query q (read_error T size e fi w) else plain
    ] in
    elim q.type [ malformed ↦ some (q, ((failure enoent, none), (fi, w))) | _ ↦ checked ]

-- The end of the operation, which destroys the query that was made last.
unfoldable pub exit_read : Settings → World → Option (QTree × Read) → Option Read
unfolding exit_operation
exit_read S before none = none
exit_read S before (some (q, (r, (fi, w)))) = some (r, (fi, (exit_operation S q before (r.0, w)).1))

-- tagsistant_read()
unfoldable pub read : Settings → Texts → Text → ℕ → ℕ → FileInfo → World → Option Read
read S T path size offset fi w = elim (querytree_new S path false true true w) [
  | none ↦ none
  | some (q, w1) ↦ exit_read S w (read_body S T path size offset q fi w1)
]
