-- ===== src/Fuse/Paths.antt =====
-- The regular expressions that the handlers of src/fuse_operations match against the path of a
-- request, and the suffix that asks for the tags of an object (src/utils.c).
use tagsistant.Base.{
  Text, codes, Bool, false, ◌&&◌, ◌||◌, not, [], ◌∷◌, ◌++◌, str_eq, ◌==◌, if◌then◌else◌,
}
use tagsistant.Query.{QTree}
use tagsistant.Query.Paths.{ends_with, slash}

-- `^…$` on a literal text: `$` stands before a final newline too.
unfoldable pub matches_whole : Text → Text → Bool
matches_whole s t = str_eq s t || str_eq s (t ++ (10 ∷ []))

-- `@/error$`
unfoldable pub is_error_path : Text → Bool
unfolding ends_with
is_error_path path = ends_with path (codes "@/error")

-- `[^/]*` and the suffix, up to the end.
unfoldable matches_name : Text → Text → Bool
matches_name suffix [] = str_eq [] suffix
matches_name suffix (c ∷ s) = str_eq (c ∷ s) suffix || (not (c == slash) && matches_name suffix s)

-- tagsistant_tags_list_rx, `@/[^/]*suffix$` with the suffix escaped.
unfoldable matches_tags_list : Text → Text → Bool
unfolding matches_name
matches_tags_list suffix [] = false
matches_tags_list suffix (c ∷ []) = false
matches_tags_list suffix (c ∷ d ∷ s) =
    (c == b'@' && d == slash && matches_name suffix s) || matches_tags_list suffix (d ∷ s)

-- tagsistant_is_tags_list_file()
unfoldable pub is_tags_list_file : Text → QTree → Bool
unfolding matches_tags_list
is_tags_list_file suffix q = matches_tags_list suffix q.full_path

-- tagsistant_string_tags_list_suffix(): what stands before the suffix at the end.
unfoldable pub strip_suffix : Text → Text → Text
strip_suffix suffix [] = []
strip_suffix suffix (c ∷ s) =
    let rest = c ∷ strip_suffix suffix s in if str_eq (c ∷ s) suffix then [] else rest
