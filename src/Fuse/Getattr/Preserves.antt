-- ===== src/Fuse/Getattr/Preserves.antt =====
-- getattr() and access() change nothing of the database (src/fuse_operations/getattr.c, access.c).
use tagsistant.Base.{
  ℕ, ◌≡◌, Text, Option, none, some, Bool, true, false, ◌∷◌, arith, Option-cases, inl, inr,
}
use mathlib.Core.Path.{subst}
use tagsistant.Sql.{World, Db, SysResult, returned, failed_with, sys_lstat}
use tagsistant.Sql.Tags.{get_tag_id}
use tagsistant.Sql.Tags.Cache.{get-db}
use tagsistant.Query.{QTree}
use tagsistant.Resolve.New.{Settings, querytree_new}
use tagsistant.Resolve.New.Preserves.{ResultKeeps, querytree_new-keeps}
use tagsistant.Resolve.{check_tagging_consistency}
use tagsistant.Fuse.{success, failure}
use tagsistant.Fuse.ReadOnly.{exit_operation-db, KeepsDb}
use tagsistant.Fuse.Target.{
  Target, lstat_path, give_up, related_target, relation_target, object_target, archive_target,
  stats_target, alias_target, find_target,
}
use tagsistant.Fuse.Stat.{
  Attributes, Processed, aborted, filled, process, process_store, process_last_tag, process_tag,
  process_tags,
}
use tagsistant.Fuse.Getattr.{
  Stat, stat_reply, plain_attributes, lstat_target, target_reply, getattr_body, exit_getattr,
  getattr, access_reply, access,
}

abbrev target_db : Target → Db
target_db (lstat_path p w) = w.db
target_db (give_up e w) = w.db

abbrev processed_db : Processed → Db
processed_db (aborted w) = w.db
processed_db (filled a w) = w.db

related_target-db :
    (S : Settings) (q : QTree) (id : ℕ) (path : Option Text) (named : Bool) (r : ℕ × World)
    → target_db (related_target S q id path named r) ≡ r.1.db
unfolding related_target
related_target-db S q id path named (related, w) = ground arith

relation_target-db :
    (S : Settings) (q : QTree) (w : World) → target_db (relation_target S q w) ≡ w.db
unfolding relation_target
relation_target-db S q w =
    let (id, w1) = get_tag_id S.engine q.dbi q.namespace q.key q.value w in
    let (first, w2) = get_tag_id S.engine q.dbi q.first_tag none none w in
    ground (
      arith,
      get-db S.engine q.dbi q.namespace q.key q.value w,
      get-db S.engine q.dbi q.first_tag none none w,
      related_target-db S q id (some S.archive_dir) true
          (get_tag_id S.engine q.dbi q.second_tag none none w1),
      related_target-db S q id (some S.archive_dir) false (0, w1),
      related_target-db S q first (some S.archive_dir) false (0, w2),
      related_target-db S q first (some S.archive_dir) true
          (get_tag_id S.engine q.dbi q.second_tag none none w2),
      related_target-db S q id (some S.archive_dir) true
          (get_tag_id S.engine q.dbi q.related_namespace q.related_key q.related_value w1),
      related_target-db S q first (some S.archive_dir) true
          (get_tag_id S.engine q.dbi q.related_namespace q.related_key q.related_value w2),
      get-db S.engine q.dbi q.second_tag none none w1,
      get-db S.engine q.dbi q.second_tag none none w2,
      get-db S.engine q.dbi q.related_namespace q.related_key q.related_value w1,
      get-db S.engine q.dbi q.related_namespace q.related_key q.related_value w2,
    )

process_tag-db :
    (S : Settings) (q : QTree) (last : Text) (a : Attributes) (w : World)
    → processed_db (process_tag S q last a w) ≡ w.db
unfolding process_tag
process_tag-db S q last a w = ground (
  arith,
  get-db S.engine q.dbi q.namespace q.key q.value w,
  get-db S.engine q.dbi (some last) none none w,
)

process_last_tag-db :
    (S : Settings) (q : QTree) (last : Text) (a : Attributes) (w : World)
    → processed_db (process_last_tag S q last a w) ≡ w.db
unfolding process_last_tag
process_last_tag-db S q last a w = ground (arith, process_tag-db S q last a w)

process_store-db :
    (S : Settings) (q : QTree) (a : Attributes) (w : World)
    → processed_db (process_store S q a w) ≡ w.db
unfolding process_store
process_store-db S q a w = elim (Option-cases q.last_tag) [
  | inl no_tag ↦ ground arith
  | inr (last, tag) ↦ ground (arith, process_last_tag-db S q last a w)
]

process_tags-db :
    (S : Settings) (q : QTree) (a : Attributes) (w : World)
    → processed_db (process_tags S q a w) ≡ w.db
unfolding process_tags
process_tags-db S q a w = ground (
  arith,
  get-db S.engine q.dbi q.first_tag q.key q.value w,
  get-db S.engine q.dbi q.namespace q.key q.value w,
)

abbrev FoundKeeps : Db → Option (QTree × Target) → Type 0
FoundKeeps d none = Unit
FoundKeeps d (some r) = target_db r.1 ≡ d

object_target-keeps : (S : Settings) (q : QTree) (w : World) → FoundKeeps w.db (object_target S q w)
unfolding object_target
object_target-keeps S q w = elim (Option-cases (check_tagging_consistency S.engine q w)) [
  | inl crash ↦ ground arith
  | inr (q1, checked) ↦ ground arith
]

archive_target-db : (S : Settings) (q : QTree) (w : World) → target_db (archive_target S q w) ≡ w.db
unfolding archive_target
archive_target-db S q w = ground arith

stats_target-db :
    (S : Settings) (path : Text) (w : World) → target_db (stats_target S path w) ≡ w.db
unfolding stats_target
stats_target-db S path w = ground arith

alias_target-db : (S : Settings) (q : QTree) (w : World) → target_db (alias_target S q w) ≡ w.db
unfolding alias_target
alias_target-db S q w = ground arith

find_target-keeps :
    (S : Settings) (path : Text) (q : QTree) (w : World) → FoundKeeps w.db (find_target S path q w)
unfolding find_target
find_target-keeps S path q w = ground (
  arith,
  object_target-keeps S q w,
  archive_target-db S q w,
  stats_target-db S path w,
  alias_target-db S q w,
  relation_target-db S q w,
)

abbrev ProcessKeeps : Db → Option Processed → Type 0
ProcessKeeps d none = Unit
ProcessKeeps d (some p) = processed_db p ≡ d

process-keeps :
    (S : Settings) (q : QTree) (a : Attributes) (w : World) → ProcessKeeps w.db (process S q a w)
unfolding process
process-keeps S q a w = ground (arith, process_store-db S q a w, process_tags-db S q a w)

abbrev pub StatKeeps : Db → Option (Stat × World) → Type 0
StatKeeps d none = Unit
StatKeeps d (some r) = r.1.db ≡ d

stat_reply-keeps :
    (d : Db) (result : SysResult) (o : Option Processed)
    → ProcessKeeps d o
    → StatKeeps d (stat_reply result o)
unfolding stat_reply
stat_reply-keeps d result none h = tt
stat_reply-keeps d result (some (aborted w)) h = h
stat_reply-keeps d (returned n) (some (filled a w)) h = h
stat_reply-keeps d (failed_with n) (some (filled a w)) h = h

lstat_target-keeps :
    (S : Settings) (q : QTree) (path : Option Text) (w : World)
    → StatKeeps w.db (lstat_target S q path w)
unfolding lstat_target
lstat_target-keeps S q path w =
    let result = S.system w.calls (sys_lstat path) in
    let w1 = record w { calls = sys_lstat path ∷ w.calls } in
    stat_reply-keeps w.db result (process S q (plain_attributes result) w1)
      (process-keeps S q (plain_attributes result) w1)

abbrev BodyKeeps : Db → Option (QTree × (Stat × World)) → Type 0
BodyKeeps d none = Unit
BodyKeeps d (some r) = r.1.1.db ≡ d

target_reply-keeps :
    (S : Settings) (d : Db) (o : Option (QTree × Target))
    → FoundKeeps d o
    → BodyKeeps d (target_reply S o)
unfolding target_reply
target_reply-keeps S d none h = tt
target_reply-keeps S d (some (q, give_up e w)) h = h
target_reply-keeps S d (some (q, lstat_path path w)) h =
    ground (arith, lstat_target-keeps S q path w)

getattr_body-keeps :
    (S : Settings) (path : Text) (q : QTree) (w : World) → BodyKeeps w.db (getattr_body S path q w)
unfolding getattr_body
getattr_body-keeps S path q w =
    ground
      (arith, target_reply-keeps S w.db (find_target S path q w) (find_target-keeps S path q w))

exit_getattr-keeps :
    (S : Settings) (before : World) (o : Option (QTree × (Stat × World)))
    → BodyKeeps before.db o
    → StatKeeps before.db (exit_getattr S before o)
unfolding exit_getattr
exit_getattr-keeps S before none h = tt
exit_getattr-keeps S before (some (q, (stat, w))) h = exit_operation-db S q before (stat.0, w) h

pub getattr-keeps : (S : Settings) (path : Text) (w : World) → StatKeeps w.db (getattr S path w)
unfolding getattr
getattr-keeps S path w =
    elim (querytree_new S path false true false w)
        as (λ o.
          ResultKeeps false w.db o
          → StatKeeps w.db (elim o [
            | none ↦ none
            | some (q, w1) ↦ exit_getattr S w (getattr_body S path q w1)
          ])) [
            | none ↦ λ h. tt
            | some (q, w1) ↦ λ h. exit_getattr-keeps S w (getattr_body S path q w1) (
                subst (λ d. BodyKeeps d (getattr_body S path q w1)) h.1
                  (getattr_body-keeps S path q w1))
          ]
      (querytree_new-keeps S path false true false w)

access_reply-keeps :
    (before : World) (o : Option (Stat × World))
    → StatKeeps before.db o
    → KeepsDb before (access_reply o)
unfolding access_reply
access_reply-keeps before none h = tt
access_reply-keeps before (some ((success n, a), w)) h = h
access_reply-keeps before (some ((failure e, a), w)) h = h

pub access-keeps : (S : Settings) (path : Text) (w : World) → KeepsDb w (access S path w)
unfolding access
access-keeps S path w = access_reply-keeps w (getattr S path w) (getattr-keeps S path w)
