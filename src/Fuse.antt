-- ===== src/Fuse.antt =====
-- What the handlers of src/fuse_operations share: their replies, the traversal of a querytree, the
-- creation of an object (src/utils.c) and the end of an operation.
pub mod Mkdir
pub mod Rmdir
pub mod Unlink
pub mod Rename
pub mod Create
pub mod Files
pub mod Atomic
pub mod Linking
pub mod Untag
pub mod ReadOnly
pub mod Rollback
pub mod Paths
pub mod Filler
pub mod NextTokens
pub mod Listing
pub mod Handles
pub mod Reading
pub mod Writing
pub mod Target
pub mod Stat
pub mod Getattr
use tagsistant.Base.{
  ℕ, Text, Option, none, some, Bool, true, false, ◌&&◌, not, List, [], ◌∷◌, str_eq, ◌==◌,
  if◌then◌else◌, is_some, select,
}
use tagsistant.Sql.{World, ObjectRow, SysCall, SysResult, returned, failed_with, sys_unlink}
use tagsistant.Sql.Engine.{Engine}
use tagsistant.Sql.Tags.{query_integer, printf_s, tag_object}
use tagsistant.Sql.Objects.{object_inodes, insert_object}
use tagsistant.Query.{QTree, QType, AndTag, AndNode, null, node}
use tagsistant.Resolve.Archive.{set_inode}
use tagsistant.Resolve.New.{Settings}

-- errno, as the handlers set it; `errno` is what a system call left.
pub data Errno : Type 0 where
  eperm enoent eio enomem eacces efault exdev einval erofs : Errno
  errno : ℕ → Errno

-- 0 or a count, or a negated errno.
pub data Reply : Type 0 where
  success : ℕ → Reply
  failure : Errno → Reply

unfoldable pub is_success : Reply → Bool
is_success (success n) = true
is_success (failure e) = false

-- `res = call(…); tagsistant_errno = errno;`
unfoldable pub system_call : Settings → SysCall → World → Reply × World
system_call S call w = (
  elim (S.system w.calls call) [ returned n ↦ success 0 | failed_with n ↦ failure (errno n) ],
  record w { calls = call ∷ w.calls },
)

-- A function that the traversal applies to a tag, or to a namespace, key and value.
abbrev pub Traverser : Type 0
Traverser = Option Text → Option Text → Option Text → World → World

unfoldable pub traverse_and_set : Traverser → AndNode → World → World
traverse_and_set f null w = w
traverse_and_set f (node t related negated next) w =
    traverse_and_set f next
      (if is_some t.tag then f t.tag none none w else f t.namespace t.key t.value w)

-- tagsistant_querytree_traverse()
unfoldable pub querytree_traverse : Traverser → List AndNode → World → World
unfolding traverse_and_set
querytree_traverse f [] w = w
querytree_traverse f (and_set ∷ tree) w = querytree_traverse f tree (traverse_and_set f and_set w)

-- The inode of an object of that name, unless the creation is forced.
unfoldable existing_object : Engine → Bool → Bool → Text → World → ℕ
unfolding query_integer object_inodes
existing_object E conn force name w =
    if force
    then 0
    else query_integer E conn
        (object_inodes (select (λ (o : ObjectRow). str_eq o.objectname name) w.objects))

-- tagsistant_inner_create_and_tag_object(). `none` in place of the inode is the return value -1
-- with EIO.
unfoldable pub create_and_tag_object : Settings → Bool → QTree → World → Option ℕ × (QTree × World)
unfolding existing_object insert_object querytree_traverse tag_object set_inode printf_s
create_and_tag_object S force q w =
    let name = printf_s q.object_path in
    let found = existing_object S.engine q.dbi force name w in
    let inserted : ℕ × World = if q.dbi then insert_object name w else (0, w) in
    let (inode, w1) : ℕ × World = if found == 0 then inserted else (found, w) in
    let (q2, w2) = set_inode S.archive_dir inode q w1 in
    if inode == 0 then (none, (q, w1)) else (
      some inode,
      (q2, querytree_traverse (λ n k v. tag_object S.engine q.dbi n k v inode) q.tree w2),
    )

-- tagsistant_querytree_destroy(): a scheduled unlink, and the end of the transaction. A rollback
-- gives back the database, and not the tag cache or the files.
unfoldable pub querytree_destroy : Settings → Bool → QTree → World → World → World
querytree_destroy S commit q before w =
    let unlinked =
      if q.schedule_for_unlink
      then record w { calls = sys_unlink q.full_archive_path ∷ w.calls }
      else w in
    if q.dbi && q.transaction_started && not commit
    then record unlinked { db = before.db }
    else unlinked

-- The code behind TAGSISTANT_EXIT_OPERATION.
unfoldable pub exit_operation : Settings → QTree → World → Reply × World → Reply × World
unfolding querytree_destroy is_success
exit_operation S q before (reply, w) = (reply, querytree_destroy S (is_success reply) q before w)
