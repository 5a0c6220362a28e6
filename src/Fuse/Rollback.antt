-- ===== src/Fuse/Rollback.antt =====
-- What a rollback leaves in the tag cache (tagsistant_querytree_destroy() of src/path_resolution.c
-- behind the functions of src/sql.c).
use tagsistant.Base.{ℕ, ◌+◌, ◌<◌, ◌≡◌, ◌≢◌, Text, Option, some, Bool, true, false, any, arith}
use tagsistant.Base.Dict.{lookup}
use tagsistant.Sql.{World}
use tagsistant.Sql.Engine.{Engine, u32_mod}
use tagsistant.Sql.Tags.{
  get_tag_id, create_tag, ensure_tag, tag_object, insert_tagging, execute, is_tag, safe_string,
}
use tagsistant.Sql.Tags.Cache.{key_of, get-cached, get_of_cached}
use tagsistant.Sql.Tags.Consistency.{IsConsistent}
use tagsistant.Sql.Tags.Creation.{ensure-has_id}
use tagsistant.Query.{QTree}
use tagsistant.Resolve.New.{Settings}
use tagsistant.Fuse.{querytree_destroy}

ensure-cached :
    (E : Engine) (n k v : Option Text) (w : World)
    → (ensure_tag E true n k v w).0 ≢ 0
    → lookup (key_of n k v) (ensure_tag E true n k v w).1.tag_cache
      ≡ some (ensure_tag E true n k v w).0
unfolding ensure_tag
ensure-cached E n k v w ne =
    let w1 = (get_tag_id E true n k v w).1 in
    ground (arith, get-cached E true n k v w, get-cached E true n k v (create_tag true n k v w1))

insert_tagging-cache :
    (conn : Bool) (id inode : ℕ) (w : World)
    → (execute conn (insert_tagging id inode) w).tag_cache ≡ w.tag_cache
unfolding execute insert_tagging
insert_tagging-cache conn id inode w = ground arith

destroy-cache :
    (S : Settings) (commit : Bool) (q : QTree) (before w : World)
    → (querytree_destroy S commit q before w).tag_cache ≡ w.tag_cache
unfolding querytree_destroy
destroy-cache S commit q before w = ground arith

destroy-rolled_back :
    (S : Settings) (q : QTree) (before w : World)
    → q.dbi ≡ true
    → q.transaction_started ≡ true
    → (querytree_destroy S false q before w).db ≡ before.db
unfolding querytree_destroy
destroy-rolled_back S q before w conn started = ground arith

-- A tag that an operation has created and that its rollback takes back stays known: the lookup goes
-- on to give an id for it, although no row of the table is that tag. This holds on a consistent
-- database in which the tag is missing and an id is left.
pub get_after_rollback :
    (S : Settings) (q : QTree) (n k v : Text) (inode : ℕ) (before : World)
    → q.dbi ≡ true
    → q.transaction_started ≡ true
    → IsConsistent before
    → before.tags_sequence + 1 < u32_mod
    → any (is_tag n k v) before.tags ≡ false
    → let w = tag_object S.engine true (some n) (some k) (some v) inode before in
      let w' = querytree_destroy S false q before w in
      ((get_tag_id S.engine true (some n) (some k) (some v) w').0 ≢ 0)
      × (any (is_tag n k v) w'.tags ≡ false)
unfolding tag_object safe_string
get_after_rollback S q n k v inode before conn started c room missing =
    let r = ensure_tag S.engine true (some n) (some k) (some v) before in
    let w = execute true (insert_tagging r.0 inode) r.1 in
    let w' = querytree_destroy S false q before w in
    let ne : r.0 ≢ 0 = (ensure-has_id S.engine n k v before c room).0 in
    let cached : lookup (key_of (some n) (some k) (some v)) w'.tag_cache ≡ some r.0 =
      rw (destroy-cache S false q before w) (
        rw (insert_tagging-cache true r.0 inode r.1)
          (ensure-cached S.engine (some n) (some k) (some v) before ne)) in
    (
      rw (get_of_cached S.engine true (some n) (some k) (some v) w' r.0 ne cached) ne,
      rw (destroy-rolled_back S q before w conn started) missing,
    )
