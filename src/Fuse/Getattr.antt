-- ===== src/Fuse/Getattr.antt =====
-- tagsistant_getattr() of src/fuse_operations/getattr.c, and
-- tagsistant_access() of src/fuse_operations/access.c.
pub mod Relations
pub mod Preserves
use tagsistant.Base.{
  ℕ, ◌+◌, ◌*◌, ◌%◌, Text, codes, Option, none, some, Bool, true, false, ◌&&◌, ◌||◌, not, List, [],
  ◌∷◌, str_eq, ◌==◌, if◌then◌else◌, is_some, select, length,
}
use tagsistant.Sql.{World, RelationRow, SysResult, returned, failed_with, sys_lstat}
use tagsistant.Sql.Engine.{Engine, u32_mod}
use tagsistant.Sql.Tags.{query_integer, get_tag_id, printf_s}
use tagsistant.Sql.Objects.{is_relation}
use tagsistant.Sql.Aliases.{alias_exists, alias_get}
use tagsistant.Query.{
  QTree, malformed, archive, tags, relations, stats, store, alias, Operator, greater_than,
  smaller_than, contains_text,
}
use tagsistant.Query.Paths.{starts_with, has_substring, ends_with, is_all_path}
use tagsistant.Resolve.{check_tagging_consistency}
use tagsistant.Resolve.New.{Settings, querytree_new}
use tagsistant.Fuse.{Reply, success, failure, enoent, eacces, errno, Errno, exit_operation}
use tagsistant.Fuse.Paths.{is_error_path, is_tags_list_file, matches_whole}
use tagsistant.Fuse.Target.{Target, lstat_path, give_up, find_target}
use tagsistant.Fuse.Stat.{Attributes, Processed, aborted, filled, process}

-- The reply, with the buffer of a success.
abbrev pub Stat : Type 0
Stat = Reply × Option Attributes

-- The reply, by what lstat() returned: an abort of the post-processing comes first.
unfoldable pub stat_reply : SysResult → Option Processed → Option (Stat × World)
stat_reply result none = none
stat_reply result (some (aborted w)) = some ((failure enoent, none), w)
stat_reply (returned n) (some (filled a w)) = some ((success 0, some a), w)
stat_reply (failed_with n) (some (filled a w)) = some ((failure (errno n), none), w)

-- The buffer as lstat() fills it.
unfoldable pub plain_attributes : SysResult → Attributes
plain_attributes result = record {
  st_ino = elim result [ returned n ↦ n | failed_with n ↦ 0 ];
  st_size = none;
  st_nlink = none;
  is_listing = false;
}

-- lstat() of the target. The post-processing runs after a failure too.
unfoldable pub lstat_target : Settings → QTree → Option Text → World → Option (Stat × World)
unfolding stat_reply plain_attributes
lstat_target S q path w =
    let result = S.system w.calls (sys_lstat path) in
    stat_reply result
      (process S q (plain_attributes result) (record w { calls = sys_lstat path ∷ w.calls }))

-- The reply, by the target.
unfoldable pub target_reply : Settings → Option (QTree × Target) → Option (QTree × (Stat × World))
target_reply S none = none
target_reply S (some (q, give_up e w)) = some (q, ((failure e, none), w))
target_reply S (some (q, lstat_path path w)) = elim (lstat_target S q path w) [
  | none ↦ none
  | some r ↦ some (q, r)
]

unfoldable pub getattr_body : Settings → Text → QTree → World → Option (QTree × (Stat × World))
unfolding target_reply
getattr_body S path q w = elim q.type [
  | malformed ↦ some (q, ((failure enoent, none), w))
  | _ ↦ target_reply S (find_target S path q w)
]

-- The end of the operation.
unfoldable pub exit_getattr :
    Settings → World → Option (QTree × (Stat × World)) → Option (Stat × World)
unfolding exit_operation
exit_getattr S before none = none
exit_getattr S before (some (q, (stat, w))) = some (stat, (exit_operation S q before (stat.0, w)).1)

-- tagsistant_getattr()
unfoldable pub getattr : Settings → Text → World → Option (Stat × World)
unfolding exit_getattr
getattr S path w = elim (querytree_new S path false true false w) [
  | none ↦ none
  | some (q, w1) ↦ exit_getattr S w (getattr_body S path q w1)
]

unfoldable pub access_reply : Option (Stat × World) → Option (Reply × World)
access_reply none = none
access_reply (some ((success n, a), w)) = some (success 0, w)
access_reply (some ((failure e, a), w)) = some (failure eacces, w)

-- tagsistant_access(): the mode is ignored.
unfoldable pub access : Settings → Text → World → Option (Reply × World)
unfolding access_reply
access S path w = access_reply (getattr S path w)
