-- ===== src/Fuse/Handles.antt =====
-- File handles: tagsistant_open() and tagsistant_release() (src/fuse_operations), and the retry that
-- read() and write() share. TAGSISTANT_ENABLE_FILE_HANDLE_CACHING is 1.
pub mod Checksums
use tagsistant.Base.{
  ℕ, ◌%◌, Text, codes, Option, none, some, Bool, true, false, ◌&&◌, ◌||◌, not, [], ◌∷◌, ◌==◌,
  if◌then◌else◌, is_some,
}
use tagsistant.Sql.{World, SysCall, SysResult, returned, failed_with, sys_open, sys_close}
use tagsistant.Sql.Tags.{execute, printf_s}
use tagsistant.Sql.Objects.{set_checksum}
use tagsistant.Sql.Aliases.{alias_exists}
use tagsistant.Query.{QTree, malformed, stats, alias}
use tagsistant.Resolve.{check_tagging_consistency}
use tagsistant.Resolve.New.{Settings, querytree_new}
use tagsistant.Fuse.{
  Reply, success, failure, enoent, efault, erofs, errno, exit_operation, is_success,
}
use tagsistant.Fuse.Paths.{is_error_path, is_tags_list_file}

-- struct fuse_file_info: the flags O_WRONLY and O_RDWR, and the fields that the handlers set.
pub record FileInfo : Type 0 where
  pub o_wronly : Bool
  pub o_rdwr : Bool
  pub fh : ℕ
  pub keep_cache : Bool

-- -1 in an unsigned long.
abbrev minus_one : ℕ
minus_one = 18446744073709551615

-- A system call, and what it leaves in an int.
unfoldable pub call_int : Settings → SysCall → World → ℕ × World
call_int S call w = (
  elim (S.system w.calls call) [ returned n ↦ n | failed_with e ↦ minus_one ],
  record w { calls = call ∷ w.calls },
)

-- What a handler returns, with its file info and its world.
abbrev pub Handled : Type 0
Handled = Reply × (FileInfo × World)

-- invalidate_object_checksum
unfoldable pub invalidate_checksum : Bool → ℕ → World → World
unfolding execute set_checksum
invalidate_checksum conn inode = execute conn (set_checksum [] inode)

-- The file of the object was opened.
unfoldable pub opened : Settings → ℕ → QTree → FileInfo → World → Option Handled
unfolding invalidate_checksum
opened S fd q fi w =
    let fi1 = record fi { fh = fd } in
    elim (check_tagging_consistency S.engine q w) [
      | none ↦ none
      | some q1 ↦ some (
        success 0,
        (if not q1.is_taggable
            then (fi1, w)
            else if fi.o_wronly || fi.o_rdwr
            then (fi1, invalidate_checksum q1.dbi q1.inode w)
            else (record fi1 { keep_cache = true }, w)),
      )
    ]

-- A path that asks for the tags of an object opens the file of the tags, and keeps no handle.
unfoldable pub open_list : Settings → FileInfo → World → Handled
open_list S fi w = (
  elim (S.system w.calls (sys_open (some S.tags_file))) [
    | returned n ↦ success 0
    | failed_with e ↦ failure (errno e)
  ],
  (fi, record w { calls = sys_open (some S.tags_file) ∷ w.calls }),
)

unfoldable pub open_archived : Settings → QTree → FileInfo → World → Option Handled
open_archived S q fi w =
    let w1 = record w { calls = sys_open q.full_archive_path ∷ w.calls } in
    elim (S.system w.calls (sys_open q.full_archive_path)) [
      | returned fd ↦ opened S fd q fi w1
      | failed_with e ↦ some (failure (errno e), (record fi { fh = 0 }, w1))
    ]

unfoldable pub open_object : Settings → QTree → FileInfo → World → Option Handled
unfolding is_tags_list_file
open_object S q fi w =
    if is_tags_list_file S.tags_suffix q
    then some (open_list S fi w)
    else if is_some q.full_archive_path
    then open_archived S q fi w
    else some (failure efault, (fi, w))

unfoldable pub open_stats : Settings → FileInfo → World → Handled
open_stats S fi w =
    let w1 = record w { calls = sys_open (some S.tags_file) ∷ w.calls } in
    elim (S.system w.calls (sys_open (some S.tags_file))) [
      | returned n ↦ (success 0, (record fi { fh = n; keep_cache = false }, w1))
      | failed_with e ↦ (failure (errno e), (record fi { fh = minus_one; keep_cache = false }, w1))
    ]

unfoldable pub open_alias : QTree → FileInfo → World → Handled
unfolding alias_exists
open_alias q fi w = elim q.alias [
  | none ↦ (failure erofs, (fi, w))
  | some name ↦ (if alias_exists q.dbi name w then success 0 else failure enoent, (fi, w))
]

unfoldable pub open_body : Settings → Text → QTree → FileInfo → World → Option Handled
unfolding is_error_path
open_body S path q fi w =
    let by_type : Handled = elim q.type [
      | stats ↦ open_stats S fi w
      | alias ↦ open_alias q fi w
      | _ ↦ (failure erofs, (fi, w))
    ] in
    let checked =
      if is_some q.error_message && is_error_path path
      then some (success 0, (fi, w))
      else if q.points_to_object
      then open_object S q fi w
      else some by_type in
    elim q.type [ malformed ↦ some (failure enoent, (fi, w)) | _ ↦ checked ]

-- The end of a handler with a file info.
unfoldable pub exit_handled : Settings → QTree → World → Handled → Handled
unfolding exit_operation
exit_handled S q before (reply, (fi, w)) = (reply, (fi, (exit_operation S q before (reply, w)).1))

-- A handler between the creation and the end of its query.
unfoldable pub run_with_handle :
    Settings
    → Bool
    → (QTree → FileInfo → World → Option Handled)
    → Text
    → FileInfo
    → World
    → Option Handled
run_with_handle S disable_reasoner body path fi w =
    elim (querytree_new S path false true disable_reasoner w) [
      | none ↦ none
      | some (q, w1) ↦ elim (body q fi w1) [ none ↦ none | some r ↦ some (exit_handled S q w r) ]
    ]

-- tagsistant_open(). `open` is a keyword.
unfoldable pub open_file : Settings → Text → FileInfo → World → Option Handled
open_file S path = run_with_handle S false (open_body S path) path

-- `if (fi->fh) { close(fi->fh); fi->fh = 0; }`
unfoldable pub close_handle : FileInfo → World → FileInfo × World
close_handle fi w =
    if fi.fh == 0
    then (fi, w)
    else (record fi { fh = 0 }, record w { calls = sys_close fi.fh ∷ w.calls })

unfoldable pub release_body : Settings → QTree → FileInfo → World → Option Handled
unfolding close_handle
release_body S q fi w =
    let checked : Option Handled = elim (check_tagging_consistency S.engine q w) [
      | none ↦ none
      | some q1 ↦ some (success 0, (if q1.is_taggable then close_handle fi w else (fi, w)))
    ] in
    elim q.type [ malformed ↦ some (failure enoent, (fi, w)) | _ ↦ checked ]

-- tagsistant_release()
unfoldable pub release : Settings → Text → FileInfo → World → Option Handled
release S = run_with_handle S false (release_body S)

-- What pread() or pwrite() on a handle gives.
unfoldable pub transfer_on : Settings → (ℕ → SysCall) → ℕ → World → Reply × World
transfer_on S transfer fd w = (
  elim (S.system w.calls (transfer fd)) [
    | returned n ↦ success n
    | failed_with e ↦ failure (errno e)
  ],
  record w { calls = transfer fd ∷ w.calls },
)

-- A handle that is opened for one transfer and kept, whether it was opened or not. A handle 0 counts
-- as none.
unfoldable pub transfer_anew : Settings → (ℕ → SysCall) → QTree → FileInfo → World → Handled
transfer_anew S transfer q fi w =
    let (fd, w1) = call_int S (sys_open q.full_archive_path) w in
    let (reply, w2) = transfer_on S transfer fd w1 in
    let fi1 = record fi { fh = fd } in
    if fd == 0 then (failure (errno S.stale_errno), (fi1, w1)) else (reply, (fi1, w2))

-- The cached handle, and a new one if it fails or is not there.
unfoldable pub transfer_cached : Settings → (ℕ → SysCall) → QTree → FileInfo → World → Handled
unfolding is_success
transfer_cached S transfer q fi w =
    let (reply, w1) = transfer_on S transfer fi.fh w in
    let closed = record w1 { calls = sys_close fi.fh ∷ w1.calls } in
    if fi.fh == 0
    then transfer_anew S transfer q fi w
    else if is_success reply
    then (reply, (fi, w1))
    else transfer_anew S transfer q fi closed
