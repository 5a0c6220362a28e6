-- ===== src/Fuse/Writing.antt =====
-- tagsistant_write() of src/fuse_operations/write.c.
pub mod Aliases
use tagsistant.Base.{
  ℕ, ◌-◌, min, Text, Option, none, some, Bool, true, false, ◌&&◌, [], ◌∷◌, ◌==◌, if◌then◌else◌,
  is_some, length, any,
}
use tagsistant.Sql.{World, sys_pwrite}
use tagsistant.Sql.Tags.{printf_s}
use tagsistant.Sql.Aliases.{alias_set}
use tagsistant.Query.{QTree, malformed, alias}
use tagsistant.Query.Paths.{slash}
use tagsistant.Resolve.New.{Settings}
use tagsistant.Fuse.{Reply, success, failure, enoent, efault, erofs}
use tagsistant.Fuse.Handles.{FileInfo, Handled, transfer_cached, run_with_handle}
use tagsistant.Fuse.Reading.{take}

-- `ptr = rindex(s, c); if (ptr) *ptr = '/'`
unfoldable pub replace_last : ℕ → Text → Text
unfolding any
replace_last c [] = []
replace_last c (d ∷ s) =
    let rest = replace_last c s in
    if any (λ e. e == c) s then d ∷ rest else if d == c then slash ∷ s else d ∷ s

-- g_regex_replace() of `//` by `/`, once from the left.
unfoldable pub join_slashes : Text → Text
join_slashes [] = []
join_slashes (c ∷ []) = c ∷ []
join_slashes (c ∷ d ∷ s) =
    let joined = slash ∷ join_slashes s in
    let kept = c ∷ join_slashes (d ∷ s) in if c == slash && d == slash then joined else kept

-- TAGSISTANT_ALIAS_MAX_LENGTH
abbrev pub alias_max_length : ℕ
alias_max_length = 1024

-- The text that is saved for a write of `size` bytes.
unfoldable pub alias_value : Text → ℕ → Text
unfolding take replace_last join_slashes
alias_value buf size =
    let text = join_slashes (replace_last 13 (replace_last 10 (take size buf))) in
    take (min (min size (alias_max_length - 1)) (length text)) text

unfoldable pub write_alias : Text → ℕ → Text → QTree → FileInfo → World → Handled
write_alias buf size name q fi w =
    (success size, (fi, alias_set q.dbi name (alias_value buf size) w))

unfoldable pub write_object : Settings → QTree → FileInfo → World → Handled
write_object S q fi w =
    let written = transfer_cached S sys_pwrite q fi w in
    if is_some q.full_archive_path then written else (failure efault, (fi, w))

unfoldable pub write_body : Settings → Text → ℕ → QTree → FileInfo → World → Option Handled
write_body S buf size q fi w =
    let other = if q.points_to_object then write_object S q fi w else (failure erofs, (fi, w)) in
    let on_alias : Handled = elim q.alias [
      | none ↦ other
      | some name ↦ write_alias buf size name q fi w
    ] in
    some (elim q.type [ malformed ↦ (failure enoent, (fi, w)) | alias ↦ on_alias | _ ↦ other ])

-- tagsistant_write()
unfoldable pub write : Settings → Text → Text → ℕ → FileInfo → World → Option Handled
write S path buf size = run_with_handle S true (write_body S buf size) path
