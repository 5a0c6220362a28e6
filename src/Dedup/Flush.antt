-- ===== src/Dedup/Flush.antt =====
-- tagsistant_flush() of src/fuse_operations/flush.c, tagsistant_deduplicate() and
-- tagsistant_fix_checksums() of src/deduplication.c. TAGSISTANT_INLINE_DEDUPLICATION is 1: an object
-- is deduplicated at once.
pub mod Scheduling
use tagsistant.Base.{
  ℕ, Text, codes, Option, none, some, Bool, true, false, ◌&&◌, not, List, [], ◌∷◌, ◌++◌, str_eq,
  ◌==◌, if◌then◌else◌, is_some, select,
}
use tagsistant.Sql.{World, ObjectRow}
use tagsistant.Sql.Engine.{Engine}
use tagsistant.Sql.Tags.{query_integer, printf_s}
use tagsistant.Query.{QTree, malformed}
use tagsistant.Resolve.Archive.{print_decimal}
use tagsistant.Resolve.New.{Settings, querytree_new}
use tagsistant.Fuse.{Reply, success, failure, enoent, exit_operation}
use tagsistant.Fuse.Handles.{FileInfo, Handled, close_handle}
use tagsistant.Sql.Existence.{ones}
use tagsistant.Dedup.{Deduplicated, deduplication_kernel}

abbrev pub lacks_checksum : ObjectRow → Bool
lacks_checksum o = str_eq o.checksum []

-- `select 1 from objects where objectname = … and checksum = ''`
unfoldable pub needs_deduplication : Engine → Bool → Text → World → Bool
unfolding query_integer ones
needs_deduplication E conn name w = not (
    query_integer E conn
      (ones (select (λ (o : ObjectRow). str_eq o.objectname name && lacks_checksum o) w.objects))
    == 0)

-- What the checksum of a file is; it is a parameter of the model.
abbrev pub Digest : Type 0
Digest = Option Text → World → Text

-- The paths pushed on the autotagging queue, the last one first, beside the world.
abbrev pub Queued : Type 0
Queued = List (Text × Option Text) × World

abbrev push : Option (Text × Option Text) → List (Text × Option Text) → List (Text × Option Text)
push none queue = queue
push (some paths) queue = paths ∷ queue

-- tagsistant_deduplicate()
unfoldable pub deduplicate : Settings → Digest → Text → Queued → Option Queued
unfolding deduplication_kernel
deduplicate S digest path (queue, w) = elim (deduplication_kernel S digest path w) [
  | none ↦ none
  | some d ↦ some (push d.queued queue, d.world)
]

-- Whether the path is deduplicated, and the rest of the handler.
unfoldable pub flush_body : Settings → QTree → FileInfo → World → Bool × Handled
unfolding needs_deduplication close_handle
flush_body S q fi w =
    let needed =
      is_some q.full_archive_path
      && needs_deduplication S.engine q.dbi (printf_s q.object_path) w in
    elim q.type [
      | malformed ↦ (false, (failure enoent, (fi, w)))
      | _ ↦ (needed, (success 0, close_handle fi w))
    ]

-- The end of the operation, and the deduplication behind it.
unfoldable pub exit_flush :
    Settings
    → Digest
    → Text
    → QTree
    → List (Text × Option Text)
    → World
    → Bool × Handled
    → Option ((Reply × FileInfo) × Queued)
unfolding exit_operation
exit_flush S digest path q queue before (needed, (reply, (fi, w))) =
    let ended = (exit_operation S q before (reply, w)).1 in
    let deduplicated = deduplicate S digest path (queue, ended) in
    elim (if needed then deduplicated else some (queue, ended)) [
      | none ↦ none
      | some queued ↦ some ((reply, fi), queued)
    ]

-- tagsistant_flush()
unfoldable pub flush :
    Settings → Digest → Text → FileInfo → Queued → Option ((Reply × FileInfo) × Queued)
flush S digest path fi (queue, w) = elim (querytree_new S path false true true w) [
  | none ↦ none
  | some (q, w1) ↦ exit_flush S digest path q queue w (flush_body S q fi w1)
]

-- The path of tagsistant_fix_checksums_callback().
unfoldable pub all_path : ObjectRow → Text
unfolding print_decimal
all_path o = codes "/store/ALL/@@/" ++ print_decimal o.inode ++ (codes "___" ++ o.objectname)

-- The callback on each row.
unfoldable deduplicate_all : Settings → Digest → List ObjectRow → Queued → Option Queued
unfolding deduplicate all_path
deduplicate_all S digest [] queued = some queued
deduplicate_all S digest (o ∷ rows) queued = elim (deduplicate S digest (all_path o) queued) [
  | none ↦ none
  | some queued' ↦ deduplicate_all S digest rows queued'
]

-- tagsistant_fix_checksums(): the rows are those at the start.
unfoldable fix_checksums : Settings → Digest → Queued → Option Queued
unfolding deduplicate_all
fix_checksums S digest (queue, w) =
    deduplicate_all S digest (select lacks_checksum w.objects) (queue, w)
