-- ===== src/Requests.antt =====
-- The table of operations `tagsistant_oper` of src/tagsistant.c: what libfuse calls for a request.
-- The buffers that a handler fills are left out here; its file info is a part of the request.
pub mod Steps
pub mod Reads
pub mod Atomic
use tagsistant.Base.{ℕ, Text, Option, none, some, Bool, true, false, List, []}
use tagsistant.Sql.{World}
use tagsistant.Resolve.New.{Settings}
use tagsistant.Fuse.{Reply}
use tagsistant.Fuse.Mkdir.{mkdir}
use tagsistant.Fuse.Rmdir.{rmdir}
use tagsistant.Fuse.Unlink.{unlink}
use tagsistant.Fuse.Rename.{rename}
use tagsistant.Fuse.Create.{mknod, symlink, link}
use tagsistant.Fuse.Files.{chmod, chown, truncate, utime, readlink}
use tagsistant.Fuse.Filler.{Sources}
use tagsistant.Fuse.Listing.{readdir}
use tagsistant.Fuse.Getattr.{Stat, getattr, access}
use tagsistant.Fuse.Handles.{FileInfo, Handled, open_file}
use tagsistant.Fuse.Reading.{Texts, Read, read}
use tagsistant.Fuse.Writing.{write}
use tagsistant.Dedup.Flush.{Digest, Queued, flush}

-- The handlers, with the arguments that they use.
pub data Request : Type 0 where
  getattr_request readlink_request readdir_request mknod_request mkdir_request : Text → Request
  unlink_request rmdir_request chmod_request chown_request : Text → Request
  truncate_request utime_request access_request : Text → Request
  symlink_request rename_request link_request : Text → Text → Request
  open_request flush_request : Text → FileInfo → Request
  read_request : Text → ℕ → ℕ → FileInfo → Request
  write_request : Text → Text → ℕ → FileInfo → Request

-- What the handlers take from outside of the repository, beside the settings.
pub record Environment : Type 0 where
  pub sources : Sources
  pub texts : Texts
  pub digest : Digest

-- The reply and the world of each kind of handler.
unfoldable pub of_stat : Option (Stat × World) → Option (Reply × World)
of_stat none = none
of_stat (some (stat, w)) = some (stat.0, w)

unfoldable pub of_entries : Option ((Reply × List Text) × World) → Option (Reply × World)
of_entries none = none
of_entries (some (r, w)) = some (r.0, w)

unfoldable pub of_handled : Option Handled → Option (Reply × World)
of_handled none = none
of_handled (some (reply, (fi, w))) = some (reply, w)

unfoldable pub of_read : Option Read → Option (Reply × World)
of_read none = none
of_read (some (r, (fi, w))) = some (r.0, w)

unfoldable pub of_flush : Option ((Reply × FileInfo) × Queued) → Option (Reply × World)
of_flush none = none
of_flush (some (r, (queue, w))) = some (r.0, w)

-- One request. `none`: the process crashes, or an alias is expanded for ever.
unfoldable pub handle : Settings → Environment → Request → World → Option (Reply × World)
handle S X (getattr_request path) w = of_stat (getattr S path w)
handle S X (readlink_request path) w = readlink S path w
handle S X (readdir_request path) w = of_entries (readdir S X.sources path w)
handle S X (mknod_request path) w = mknod S path w
handle S X (mkdir_request path) w = mkdir S path w
handle S X (unlink_request path) w = unlink S path w
handle S X (rmdir_request path) w = rmdir S path w
handle S X (chmod_request path) w = chmod S path w
handle S X (chown_request path) w = chown S path w
handle S X (truncate_request path) w = truncate S path w
handle S X (utime_request path) w = utime S path w
handle S X (access_request path) w = access S path w
handle S X (symlink_request from to) w = symlink S from to w
handle S X (rename_request from to) w = rename S from to w
handle S X (link_request from to) w = link S from to w
handle S X (open_request path fi) w = of_handled (open_file S path fi w)
handle S X (flush_request path fi) w = of_flush (flush S X.digest path fi ([], w))
handle S X (read_request path size offset fi) w = of_read (read S X.texts path size offset fi w)
handle S X (write_request path buf size fi) w = of_handled (write S path buf size fi w)
