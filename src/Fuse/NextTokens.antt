-- ===== src/Fuse/NextTokens.antt =====
-- tagsistant_readdir_on_store() and what it needs: the tokens that may follow a query
-- (src/fuse_operations/readdir.c).
use tagsistant.Base.{
  Text, codes, Bool, true, false, ◌&&◌, ◌||◌, not, List, [], ◌∷◌, str_eq, ◌==◌, if◌then◌else◌,
  is_some, any,
}
use tagsistant.Sql.{World}
use tagsistant.Sql.Tags.{printf_s}
use tagsistant.Query.{QTree, no_operator}
use tagsistant.Query.Paths.{starts_with, ends_with, is_all_path, is_nonempty}
use tagsistant.Resolve.New.{Settings}
use tagsistant.Fuse.Filler.{
  Sources, fill_all, add_entries, all_tagnames, keys_of, values_of, all_aliases, object_names,
}

abbrev pub dots : List Text
dots = codes "." ∷ codes ".." ∷ []

-- tagsistant_do_add_operators()
unfoldable do_add_operators : QTree → Bool
unfolding ends_with
do_add_operators q =
    not (
      ends_with q.full_path (codes "/+")
      || ends_with q.full_path (codes "/@")
      || ends_with q.full_path (codes "/@@")
      || ends_with q.full_path (codes "/-"))
    && not (str_eq q.full_path (codes "/tags"))
    && (not (is_some q.namespace) || is_some q.value)

-- `[^{}]+` up to the end.
unfoldable is_group_text : Text → Bool
is_group_text s = is_nonempty s && not (any (λ c. c == b'{' || c == b'}') s)

-- What stands behind the two next characters.
unfoldable behind_group : Text → Text
behind_group [] = []
behind_group (d ∷ []) = []
behind_group (d ∷ e ∷ r) = r

-- `/{/[^{}]+$`
unfoldable has_open_group : Text → Bool
unfolding is_group_text starts_with behind_group
has_open_group [] = false
has_open_group (c ∷ s) =
    (starts_with (c ∷ s) (codes "/{/") && is_group_text (behind_group s)) || has_open_group s

-- is_inside_tag_group()
unfoldable is_inside_tag_group : Text → Bool
unfolding has_open_group ends_with
is_inside_tag_group path = has_open_group path || ends_with path (codes "/{")

-- The operators that may follow an incomplete query.
unfoldable pub operator_entries : QTree → List Text
unfolding do_add_operators is_inside_tag_group
operator_entries q =
    let more = if is_all_path q.full_path then [] else codes "+" ∷ codes "-" ∷ codes "{" ∷ [] in
    if not (do_add_operators q)
    then []
    else if is_inside_tag_group q.full_path
    then codes "}" ∷ []
    else codes "@" ∷ codes "@@" ∷ more

-- ALL/, every tag, and every alias behind its identifier.
unfoldable pub add_tags_and_aliases : Settings → Sources → QTree → World → List Text → List Text
unfolding add_entries all_tagnames all_aliases fill_all
add_tags_and_aliases S X q w buf =
    add_entries X q true (all_aliases q.dbi w)
      (add_entries X q false (all_tagnames S.engine q.dbi w) (fill_all X (codes "ALL" ∷ []) buf))

-- What may follow an incomplete query.
unfoldable pub add_next_tokens : Settings → Sources → QTree → World → List Text → List Text
unfolding add_tags_and_aliases values_of keys_of add_entries fill_all
add_next_tokens S X q w buf =
    let namespace = printf_s q.namespace in
    let key = printf_s q.key in
    let values = add_entries X q false (values_of S.engine q.dbi namespace key w) buf in
    let open_triple : List Text = elim q.operator [
      | no_operator ↦
          if is_some q.key
          then fill_all X (codes "eq" ∷ codes "inc" ∷ codes "gt" ∷ codes "lt" ∷ []) buf
          else if is_some q.namespace
          then add_entries X q false (keys_of S.engine q.dbi namespace w) buf
          else add_tags_and_aliases S X q w buf
      | _ ↦ values
    ] in
    if is_all_path q.full_path
    then buf
    else if is_some q.value
    then add_tags_and_aliases S X q w buf
    else open_triple

-- tagsistant_readdir_on_store()
unfoldable pub readdir_on_store : Settings → Sources → QTree → World → List Text × World
unfolding operator_entries add_next_tokens object_names fill_all
readdir_on_store S X q w =
    let (found, w1) = X.reusable_data_set q.tree q.dbi (is_all_path q.full_path) w in
    let buf = fill_all X dots [] in
    if q.complete
    then if is_some q.error_message
      then (fill_all X (codes "error" ∷ []) buf, w)
      else (fill_all X (object_names q.force_inode_in_filenames found) buf, w1)
    else (add_next_tokens S X q w (fill_all X (operator_entries q) buf), w)
