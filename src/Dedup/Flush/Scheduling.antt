-- ===== src/Dedup/Flush/Scheduling.antt =====
-- What flush() hands to the deduplication (src/fuse_operations/flush.c, src/deduplication.c).
use mathlib.Core.Path.{subst}
use tagsistant.Base.{
  ℕ, ◌≡◌, Text, some, Bool, true, false, ◌&&◌, ◌||◌, Option, none, is_some, ◌≢◌, refl, ap, sym, ◌∙◌,
  List, [], ◌∷◌, str_eq, any, arith, str_eq_refl,
}
use tagsistant.Sql.{World, Db, ObjectRow}
use tagsistant.Sql.Tags.{printf_s}
use tagsistant.Sql.Engine.{Engine}
use tagsistant.Query.{
  QTree, QType, malformed, root, archive, tags, retag, relations, stats, store, alias,
}
use tagsistant.Resolve.{check_tagging_consistency}
use tagsistant.Resolve.New.{Settings, querytree_new}
use tagsistant.Resolve.New.Preserves.{querytree_new-db}
use tagsistant.Fuse.{Reply, success, exit_operation}
use tagsistant.Fuse.Handles.{FileInfo, opened, close_handle}
use tagsistant.Fuse.Handles.Checksums.{is_object, is_named, opened-is_object}
use tagsistant.Sql.Existence.{query_ones}
use tagsistant.Dedup.Flush.{
  needs_deduplication, lacks_checksum, Digest, deduplicate, flush_body, exit_flush, flush,
}

-- A flush() deduplicates if any object of that name has no checksum, whichever object it is.
needs_deduplication_lem :
    (E : Engine) (name : Text) (w : World)
    → needs_deduplication E true name w
      ≡ any (λ (o : ObjectRow). str_eq o.objectname name && lacks_checksum o) w.objects
unfolding needs_deduplication
needs_deduplication_lem E name w = ground (
  arith,
  query_ones E (λ (o : ObjectRow). str_eq o.objectname name && lacks_checksum o) w.objects,
)

any-implies :
    (p q : ObjectRow → Bool) (rows : List ObjectRow)
    → ((o : ObjectRow) → p o ≡ true → q o ≡ true)
    → any p rows ≡ true
    → any q rows ≡ true
unfolding any
any-implies p q [] h e = e
any-implies p q (o ∷ rows) h e = ground (arith, any-implies p q rows h, h o)

-- What open() leaves for the test of flush().
opened-needs_deduplication :
    (S : Settings) (fd : ℕ) (name : Text) (q q1 : QTree) (fi fi' : FileInfo) (w w' : World)
    (reply : Reply)
    → check_tagging_consistency S.engine q w ≡ some q1
    → q1.is_taggable ≡ true
    → q1.dbi ≡ true
    → (fi.o_wronly || fi.o_rdwr) ≡ true
    → any (is_named q1.inode name) w.objects ≡ true
    → opened S fd q fi w ≡ some (reply, (fi', w'))
    → needs_deduplication S.engine true name w' ≡ true
opened-needs_deduplication S fd name q q1 fi fi' w w' reply e taggable conn writing named result =
    let (w1, result1, objects) = opened-is_object S fd q q1 fi w e taggable conn writing in
    let emptied : needs_deduplication S.engine true name w1 ≡ true =
      rw (needs_deduplication_lem S.engine name w1) (
        any-implies (is_object q1.inode name []) _ w1.objects (λ o h. ground arith)
          (ground (arith, objects q1.inode name [], str_eq_refl []))) in
    let same : w1 ≡ w' = (cc) in
    subst (λ x. needs_deduplication S.engine true name x ≡ true) same emptied

-- A query that is well formed.
unless_malformed :
    {A : Type 0} (t : QType) (a b : A)
    → t ≢ malformed
    → elim t as (λ t'. A) [ malformed ↦ a | _ ↦ b ] ≡ b
unless_malformed malformed a b h = absurd (h refl)
unless_malformed root a b h = refl
unless_malformed archive a b h = refl
unless_malformed tags a b h = refl
unless_malformed retag a b h = refl
unless_malformed relations a b h = refl
unless_malformed stats a b h = refl
unless_malformed store a b h = refl
unless_malformed alias a b h = refl

flush_body-needed :
    (S : Settings) (name : Text) (q : QTree) (fi : FileInfo) (w : World)
    → q.type ≢ malformed
    → q.dbi ≡ true
    → q.object_path ≡ some name
    → is_some q.full_archive_path ≡ true
    → needs_deduplication S.engine true name w ≡ true
    → flush_body S q fi w ≡ (true, (success 0, close_handle fi w))
unfolding flush_body printf_s
flush_body-needed S name q fi w typed conn named archived needed =
    unless_malformed q.type _ _ typed ∙ rw (conn, named, archived, needed) refl

-- After open() of an object for writing by a path that its query leads to, with a connection and the
-- object in the database, come calls that leave the database as open() left it, such as writes. Then
-- a flush() by a path with the name of the object, if the path is resolved to a place in the archive
-- and with a connection, succeeds, closes the handle and ends its operation, and then deduplicates
-- the path.
pub flush-opened :
    (S : Settings) (digest : Digest) (fd : ℕ) (name path : Text) (q q1 q2 : QTree)
    (fi fi1 fi2 : FileInfo) (queue : List (Text × Option Text)) (w w1 w2 w3 : World) (reply : Reply)
    → check_tagging_consistency S.engine q w ≡ some q1
    → q1.is_taggable ≡ true
    → q1.dbi ≡ true
    → (fi.o_wronly || fi.o_rdwr) ≡ true
    → any (is_named q1.inode name) w.objects ≡ true
    → opened S fd q fi w ≡ some (reply, (fi1, w1))
    → w2.db ≡ w1.db
    → querytree_new S path false true true w2 ≡ some (q2, w3)
    → q2.type ≢ malformed
    → q2.dbi ≡ true
    → q2.object_path ≡ some name
    → is_some q2.full_archive_path ≡ true
    → let (fi3, w4) = close_handle fi2 w3 in
      let ended = (exit_operation S q2 w2 (success 0, w4)).1 in
      flush S digest path fi2 (queue, w2) ≡ (elim (deduplicate S digest path (queue, ended)) [
        | none ↦ none
        | some queued ↦ some ((success 0, fi3), queued)
      ])
unfolding flush exit_flush
flush-opened S digest fd name path q q1 q2 fi fi1 fi2 queue w w1 w2 w3 reply e taggable conn writing
      named result kept resolved typed conn2 named2 archived =
    let left =
      opened-needs_deduplication S fd name q q1 fi fi1 w w1 reply e taggable conn writing named
        result in
    let same : w3.db ≡ w1.db = querytree_new-db S path false true true w2 w3 q2 resolved ∙ kept in
    let needed : needs_deduplication S.engine true name w3 ≡ true =
      needs_deduplication_lem S.engine name w3
      ∙ ap
          (λ (d : Db).
            any (λ (o : ObjectRow). str_eq o.objectname name && lacks_checksum o) d.objects)
          same
      ∙ sym (needs_deduplication_lem S.engine name w1)
      ∙ left in
    rw (resolved, flush)
      (rw (flush_body-needed S name q2 fi2 w3 typed conn2 named2 archived needed) refl)
