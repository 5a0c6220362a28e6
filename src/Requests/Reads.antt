-- ===== src/Requests/Reads.antt =====
-- What read() and flush() do to the database (src/fuse_operations/read.c, flush.c).
use mathlib.Core.Path.{subst}
use tagsistant.Base.{
  ℕ, ◌≡◌, ◌⊎◌, ap, ◌∙◌, Text, Option, none, some, Bool, true, false, [], arith, Option-cases, inl,
  inr, if◌then◌else◌,
}
use tagsistant.Sql.{World, Db, sys_pread}
use tagsistant.Query.{QTree, ErrorMessage}
use tagsistant.Resolve.New.{Settings, querytree_new}
use tagsistant.Resolve.New.Preserves.{ResultKeeps, querytree_new-keeps}
use tagsistant.Fuse.{Reply, success, failure, exit_operation, querytree_destroy}
use tagsistant.Fuse.Paths.{strip_suffix}
use tagsistant.Fuse.Atomic.{KeepsOnFailure}
use tagsistant.Fuse.ReadOnly.{KeepsDb, exit_operation-db}
use tagsistant.Fuse.Handles.{FileInfo, Handled}
use tagsistant.Fuse.Reading.{
  Texts, Read, read_tags, read_tags_list, read_alias, read_object, read_error, read_body, exit_read,
  read,
}
use tagsistant.Dedup.Flush.{Digest, Queued, flush_body, exit_flush, flush, deduplicate}
use tagsistant.Requests.{of_read, of_flush}
use tagsistant.Requests.Steps.{transfer_cached-db}

abbrev PlainKeeps : Db → Option Read → Type 0
PlainKeeps d none = Unit
PlainKeeps d (some r) = r.1.1.db ≡ d

abbrev BodyKeeps : Db → Option (QTree × Read) → Type 0
BodyKeeps d none = Unit
BodyKeeps d (some r) = r.1.1.1.db ≡ d

read_tags-keeps :
    (S : Settings) (size : ℕ) (q : QTree) (fi : FileInfo) (w : World)
    → PlainKeeps w.db (read_tags S size q fi w)
unfolding read_tags
read_tags-keeps S size q fi w = ground arith

destroy-db : (S : Settings) (q : QTree) (w : World) → (querytree_destroy S false q w w).db ≡ w.db
unfolding querytree_destroy
destroy-db S q w = ground arith

paired :
    (q : QTree) (d : Db) (o : Option Read)
    → PlainKeeps d o
    → BodyKeeps d (elim o [ none ↦ none | some r ↦ some (q, r) ])
paired q d none h = tt
paired q d (some r) h = h

read_tags_list-keeps :
    (S : Settings) (size : ℕ) (q : QTree) (fi : FileInfo) (w : World)
    → BodyKeeps w.db (read_tags_list S size q fi w)
unfolding read_tags_list
read_tags_list-keeps S size q fi w =
    let w0 = querytree_destroy S false q w w in
    let path = strip_suffix S.tags_suffix q.full_path in
    elim (querytree_new S path false true true w0)
        as (λ o.
          ResultKeeps false w0.db o
          → BodyKeeps w.db (elim o [
            | none ↦ none
            | some (q1, w1) ↦ elim (read_tags S size q1 fi w1) [
              | none ↦ none
              | some r ↦ some (q1, r)
            ]
          ])) [
            | none ↦ λ h. tt
            | some (q1, w1) ↦ λ h.
                subst
                  (λ d.
                    BodyKeeps d
                      (elim (read_tags S size q1 fi w1) [ none ↦ none | some r ↦ some (q1, r) ]))
                  (h.1 ∙ destroy-db S q w)
                  (paired q1 w1.db (read_tags S size q1 fi w1) (read_tags-keeps S size q1 fi w1))
          ]
      (querytree_new-keeps S path false true true w0)

read_object-keeps :
    (S : Settings) (size : ℕ) (q : QTree) (fi : FileInfo) (w : World)
    → BodyKeeps w.db (read_object S size q fi w)
unfolding read_object
read_object-keeps S size q fi w =
    ground (arith, read_tags_list-keeps S size q fi w, transfer_cached-db S sys_pread q fi w)

read_alias-keeps :
    (size : ℕ) (q : QTree) (fi : FileInfo) (w : World) → PlainKeeps w.db (read_alias size q fi w)
unfolding read_alias
read_alias-keeps size q fi w = ground arith

read_error-keeps :
    (T : Texts) (size : ℕ) (e : ErrorMessage) (fi : FileInfo) (w : World)
    → PlainKeeps w.db (read_error T size e fi w)
unfolding read_error
read_error-keeps T size e fi w = ground arith

read_body-keeps :
    (S : Settings) (T : Texts) (path : Text) (size offset : ℕ) (q : QTree) (fi : FileInfo)
    (w : World)
    → BodyKeeps w.db (read_body S T path size offset q fi w)
unfolding read_body
read_body-keeps S T path size offset q fi w = elim (Option-cases q.error_message) [
  | inl fine ↦ ground (arith, read_object-keeps S size q fi w, read_alias-keeps size q fi w)
  | inr (e, wrong) ↦ ground (
    arith,
    read_object-keeps S size q fi w,
    read_alias-keeps size q fi w,
    read_error-keeps T size e fi w,
  )
]

exit_read-keeps :
    (S : Settings) (before : World) (o : Option (QTree × Read))
    → BodyKeeps before.db o
    → KeepsDb before (of_read (exit_read S before o))
unfolding exit_read of_read
exit_read-keeps S before none h = tt
exit_read-keeps S before (some (q, (r, (fi, w)))) h = exit_operation-db S q before (r.0, w) h

pub read-keeps :
    (S : Settings) (T : Texts) (path : Text) (size offset : ℕ) (fi : FileInfo) (w : World)
    → KeepsDb w (of_read (read S T path size offset fi w))
unfolding read
read-keeps S T path size offset fi w =
    elim (querytree_new S path false true true w)
        as (λ o.
          ResultKeeps false w.db o
          → KeepsDb w (
              of_read (elim o [
                | none ↦ none
                | some (q, w1) ↦ exit_read S w (read_body S T path size offset q fi w1)
              ]))) [
                | none ↦ λ h. unfold of_read in tt
                | some (q, w1) ↦ λ h. exit_read-keeps S w (read_body S T path size offset q fi w1) (
                    subst (λ d. BodyKeeps d (read_body S T path size offset q fi w1)) h.1
                      (read_body-keeps S T path size offset q fi w1))
              ]
      (querytree_new-keeps S path false true true w)

-- A flush() fails only on a malformed path, and deduplicates nothing then.
flush_body-failure :
    (S : Settings) (q : QTree) (fi : FileInfo) (w : World)
    → ((flush_body S q fi w).1.0 ≡ success 0)
      ⊎ (((flush_body S q fi w).0 ≡ false) × ((flush_body S q fi w).1.1.1 ≡ w))
unfolding flush_body
flush_body-failure S q fi w = ground arith

succeeded :
    (before : World) (fi : FileInfo) (o : Option Queued)
    → KeepsOnFailure before
        (of_flush (elim o [ none ↦ none | some queued ↦ some ((success 0, fi), queued) ]))
unfolding of_flush
succeeded before fi none = tt
succeeded before fi (some (queue, w)) = tt

flush_reply :
    (before : World) (reply : Reply) (fi : FileInfo) (w : World)
    → w.db ≡ before.db
    → KeepsOnFailure before (of_flush (some ((reply, fi), ([], w))))
unfolding of_flush
flush_reply before (success n) fi w h = tt
flush_reply before (failure e) fi w h = h

exit_flush-keeps :
    (S : Settings) (digest : Digest) (path : Text) (q : QTree) (before w1 : World)
    (r : Bool × Handled)
    → w1.db ≡ before.db
    → (r.1.0 ≡ success 0) ⊎ ((r.0 ≡ false) × (r.1.1.1 ≡ w1))
    → KeepsOnFailure before (of_flush (exit_flush S digest path q [] before r))
unfolding exit_flush
exit_flush-keeps S digest path q before w1 (needed, (reply, (fi, w))) e (inl won) =
    let ended = (exit_operation S q before (success 0, w)).1 in
    rw won (
      succeeded before fi
        (if needed then deduplicate S digest path ([], ended) else some ([], ended)))
exit_flush-keeps S digest path q before w1 (needed, (reply, (fi, w))) e (inr lost) = rw lost.0 (
    flush_reply before reply fi (exit_operation S q before (reply, w)).1
      (exit_operation-db S q before (reply, w) (ap (λ (v : World). v.db) lost.1 ∙ e)))

pub flush-keeps :
    (S : Settings) (digest : Digest) (path : Text) (fi : FileInfo) (w : World)
    → KeepsOnFailure w (of_flush (flush S digest path fi ([], w)))
unfolding flush
flush-keeps S digest path fi w =
    elim (querytree_new S path false true true w)
        as (λ o.
          ResultKeeps false w.db o
          → KeepsOnFailure w (
              of_flush (elim o [
                | none ↦ none
                | some (q, w1) ↦ exit_flush S digest path q [] w (flush_body S q fi w1)
              ]))) [
                | none ↦ λ h. unfold of_flush in tt
                | some (q, w1) ↦ λ h.
                    exit_flush-keeps S digest path q w w1 (flush_body S q fi w1) h.1
                      (flush_body-failure S q fi w1)
              ]
      (querytree_new-keeps S path false true true w)
