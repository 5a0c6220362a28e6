-- ===== src/Resolve/New.antt =====
-- tagsistant_querytree_new() of src/path_resolution.c. The querytree cache is compiled out
-- (TAGSISTANT_ENABLE_QUERYTREE_CACHE is 0). `none`: the call does not return, because a NULL
-- pointer is followed or because the aliases are not expanded within the fuel.
pub mod Findings
pub mod Preserves
use tagsistant.Base.{
  ℕ, Text, codes, Option, none, some, Bool, true, false, ◌&&◌, ◌||◌, not, List, [], ◌∷◌, ◌++◌,
  str_eq, ◌==◌, if◌then◌else◌, select, any, is_some,
}
use tagsistant.Sql.{World, TagRow, TaggingRow, SysCall, SysResult}
use tagsistant.Sql.Engine.{Engine, return_integer}
use tagsistant.Sql.Tags.{printf_s}
use tagsistant.Sql.Objects.{inodes_of}
use tagsistant.Query.{
  QTree, QType, malformed, root, archive, tags, relations, stats, store, alias, AndTag, AndNode,
  null, node, new_qtree, malformed_query,
}
use tagsistant.Query.Paths.{
  split_path, join_path, has_substring, inode_extract_from_path, strip_inode, is_nonempty, slash,
}
use tagsistant.Query.Store.{parse_store}
use tagsistant.Query.Parsing.{Outcome, parsed, failed, segfault}
use tagsistant.Query.Routes.{parse_tags, parse_relations, parse_stats, parse_alias}
use tagsistant.Resolve.{guess_inode}
use tagsistant.Resolve.Archive.{set_inode}
use tagsistant.Resolve.Expand.{expand_path}

-- What the functions read of the process and its libraries: the fields of `tagsistant`, errno where
-- no call has failed, what an uninitialised `tmp_inode` holds at an and-node, how the system answers
-- a call after the calls made so far, and g_path_get_basename().
pub record Settings : Type 0 where
  pub engine : Engine
  pub archive_dir : Text
  pub tags_file : Text
  pub tags_suffix : Text
  pub repository : Text
  pub stale_errno : ℕ
  pub mountpoint : Text
  pub uninitialised : AndTag → ℕ
  pub fuel : ℕ
  pub system : List SysCall → SysCall → SysResult
  pub basename : Text → Text

-- The type of the query by the first token.
unfoldable pub guess_type : Text → QType
guess_type token =
    if str_eq token []
    then root
    else if str_eq token (codes "tags")
    then tags
    else if str_eq token (codes "archive")
    then archive
    else if str_eq token (codes "relations")
    then relations
    else if str_eq token (codes "stats")
    then stats
    else if str_eq token (codes "store")
    then store
    else if str_eq token (codes "alias")
    then alias
    else malformed

-- The taggings of an inode by a tag of that name, as their inodes.
unfoldable tagged_rows : ℕ → Text → World → List ℕ
unfolding inodes_of
tagged_rows inode name w = inodes_of (
    select
      (λ (r : TaggingRow).
        r.inode == inode
        && any (λ (t : TagRow). t.tag_id == r.tag_id && str_eq t.tagname name) w.tags)
      w.tagging)

-- The buffer of one check: it keeps what it held if no row comes back.
unfoldable checked_inode : Settings → Bool → AndTag → ℕ → World → ℕ
unfolding tagged_rows printf_s
checked_inode S conn t inode w = elim (tagged_rows inode (printf_s t.tag) w) [
  | [] ↦ S.uninitialised t
  | x ∷ xs ↦ if conn then return_integer S.engine (x ∷ xs) else S.uninitialised t
]

-- The loops that check whether the object is tagged in at least one and-set.
unfoldable is_valid_and_set : Settings → Bool → AndNode → ℕ → World → Bool
unfolding checked_inode
is_valid_and_set S conn null inode w = true
is_valid_and_set S conn (node t related negated next) inode w =
    checked_inode S conn t inode w == inode && is_valid_and_set S conn next inode w

unfoldable pub is_valid_query : Settings → Bool → List AndNode → ℕ → World → Bool
unfolding is_valid_and_set
is_valid_query S conn [] inode w = false
is_valid_query S conn (and_set ∷ tree) inode w =
    is_valid_and_set S conn and_set inode w || is_valid_query S conn tree inode w

-- The object of an archive/ path. The paths that set_inode() has built are replaced.
unfoldable pub resolve_archive : Settings → List Text → QTree → World → QTree × World
unfolding set_inode
resolve_archive S tokens q w =
    let whole = join_path tokens in
    let inode = inode_extract_from_path whole in
    let path = if inode == 0 then whole else strip_inode whole in
    let (q', w') =
      set_inode S.archive_dir inode (record q { object_path = some path; inode = inode }) w in
    if is_nonempty path
    then (
      record q' {
        archive_path = some path;
        full_archive_path = some (S.archive_dir ++ (slash ∷ path));
      },
      w',
    )
    else (record q' { archive_path = some []; full_archive_path = some S.archive_dir }, w')

-- The inode of a complete store/ query whose path names one, with the object path behind it.
unfoldable pub resolve_named : Settings → Text → ℕ → QTree → World → QTree × World
unfolding set_inode
resolve_named S path inode q w =
    let q' = record q { object_path = some (strip_inode path); inode = inode } in
    let checked =
      if is_valid_query S q.dbi q.tree inode w then (q', w) else set_inode S.archive_dir 0 q' w in
    checked

-- The inode that is guessed for a path that names none.
unfoldable pub resolve_guessed :
    Settings → List Text → Text → QTree → World → Option (QTree × World)
resolve_guessed S tokens path q w =
    let q' = record q { object_path = some path; inode = 0 } in
    elim tokens [
      | [] ↦ some (q', w)
      | token ∷ rest ↦
          if is_nonempty path
          then elim (guess_inode S.engine q.dbi q.tree token w) [
            | none ↦ none
            | some inode ↦ some (record q' { inode = inode }, w)
          ]
          else some (q', w)
    ]

-- What follows for both: the paths, and a query with an object path is complete.
unfoldable pub settle : Settings → QTree → World → QTree × World
unfolding set_inode
settle S q w =
    let (q', w') = set_inode S.archive_dir q.inode q w in
    if is_nonempty (printf_s q'.object_path) && is_some q'.object_path
    then (record q' { points_to_object = true; valid = true; complete = true }, w')
    else (record q' { points_to_object = false }, w')

-- The object of a store/ path.
unfoldable pub resolve_store : Settings → List Text → QTree → World → Option (QTree × World)
unfolding resolve_named resolve_guessed settle
resolve_store S tokens q w =
    let path = join_path tokens in
    let inode = inode_extract_from_path path in
    let named = resolve_named S path inode q w in
    let found : Option (QTree × World) =
      if inode == 0 then resolve_guessed S tokens path q w else some named in
    let settled : Option (QTree × World) = elim found [
      | none ↦ none
      | some r ↦ some (settle S r.0 r.1)
    ] in
    if q.complete then settled else some (record q { points_to_object = false }, w)

-- A malformed query has an error message.
unfoldable pub finish_new : QTree → QTree
finish_new q = elim q.type [
  | malformed ↦ record q {
    error_message = some (elim q.error_message [ none ↦ malformed_query | some e ↦ e ]);
  }
  | _ ↦ q
]

abbrev pub has_object : QTree → Bool
has_object q = elim q.object_path [ none ↦ false | some path ↦ is_nonempty path ]

-- The parsers, and the resolution of the object behind them.
unfoldable pub parse_by_type :
    Settings → Text → Bool → List Text → QTree → World → Option (QTree × World)
unfolding resolve_archive resolve_store
parse_by_type S path disable_reasoner tokens q w = elim q.type [
  | store ↦ elim (parse_store S.engine path disable_reasoner tokens q w) [
    | parsed q' rest w' ↦ resolve_store S rest q' w'
    | failed q' w' ↦ some (q', w')
    | segfault ↦ none
  ]
  | tags ↦ some (parse_tags tokens q, w)
  | relations ↦ some (parse_relations tokens q, w)
  | stats ↦ some (parse_stats tokens q, w)
  | alias ↦ some (parse_alias tokens q, w)
  | archive ↦
      let (q', w') = resolve_archive S tokens q w in
      some (record q' { points_to_object = has_object q' }, w')
  | _ ↦ some (q, w)
]

-- The path after the expansion of its aliases, which only a path with a delimiter undergoes.
unfoldable pub expanded : Settings → Bool → Text → World → Option Text
unfolding has_substring
expanded S conn path w =
    if has_substring path (codes "/@") then expand_path S.fuel conn path w else some path

-- The tokens behind the empty one before the first slash.
unfoldable pub build_tokens :
    Settings → Text → Bool → List Text → QTree → World → Option (QTree × World)
unfolding guess_type parse_by_type finish_new
build_tokens S path disable_reasoner [] q w = none
build_tokens S path disable_reasoner (token ∷ rest) q w =
    elim (parse_by_type S path disable_reasoner rest (record q { type = guess_type token }) w) [
      | none ↦ none
      | some r ↦ some (finish_new r.0, r.1)
    ]

abbrev pub rest_of : List Text → List Text
rest_of [] = []
rest_of (t ∷ rest) = rest

-- `transaction` and `connection` are start_transaction and provide_connection.
unfoldable pub querytree_new : Settings → Text → Bool → Bool → Bool → World → Option (QTree × World)
unfolding build_tokens expanded
querytree_new S path transaction connection disable_reasoner w =
    elim (expanded S connection path w) [
      | none ↦ none
      | some full ↦
          build_tokens S path disable_reasoner (rest_of (split_path full))
            (record new_qtree {
              full_path = path;
              expanded_full_path = full;
              dbi = connection;
              transaction_started = connection && transaction;
            })
            w
    ]
