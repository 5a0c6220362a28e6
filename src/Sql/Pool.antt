-- ===== src/Sql/Pool.antt =====
-- The connection pool of src/sql.c with tagsistant_query_rwlock: tagsistant_db_connection() and
-- tagsistant_db_connection_release(), and their interleavings by the threads of FUSE.
pub mod Sharing
use tagsistant.Base.{
  ℕ, suc, ◌+◌, ◌-◌, ◌≡◌, Option, none, some, Bool, true, false, ◌&&◌, ◌||◌, not, List, [], ◌∷◌,
  ◌==◌, if◌then◌else◌, length,
}

-- A connection in use, and whether it was asked for with a transaction.
pub record Lease : Type 0 where
  pub conn : ℕ
  pub transaction : Bool

-- The pool, the connections in use, and the lock. The counter `connections` is `opened` less
-- `closed`, and `next` is the name of the next connection.
pub record Pool : Type 0 where
  pub pool : List ℕ
  pub leases : List Lease
  pub opened : ℕ
  pub closed : ℕ
  pub next : ℕ
  pub readers : ℕ
  pub writer : Bool

abbrev pub empty_pool : Pool
empty_pool = record {
  pool = [];
  leases = [];
  opened = 0;
  closed = 0;
  next = 0;
  readers = 0;
  writer = false;
}

-- What the loop over the pool leaves: `dbi`, the pool, and how many connections it has closed.
pub record Scan : Type 0 where
  pub dbi : Option ℕ
  pub rest : List ℕ
  pub dropped : ℕ

-- The loop. A connection that neither answers nor reconnects is closed and its link is deleted, which
-- clears the link and frees it; then `pool->next` is read from the freed link. `stale`: the freed
-- memory still holds the NULL, so that the loop ends, with the closed connection in `dbi`. Otherwise
-- the behaviour is undefined, which is `none`.
unfoldable pub scan : (ℕ → Bool) → Bool → List ℕ → Option Scan
scan alive stale [] = some (record { dbi = none; rest = []; dropped = 0 })
scan alive stale (c ∷ pool) =
    if alive c
    then some (record { dbi = some c; rest = pool; dropped = 0 })
    else if stale
    then some (record { dbi = some c; rest = pool; dropped = 1 })
    else none

-- The lock that tagsistant_db_connection() waits for.
unfoldable pub may_lock : Bool → Pool → Bool
may_lock transaction p = not p.writer && (not transaction || p.readers == 0)

unfoldable pub lock : Bool → Pool → Pool
lock transaction p =
    if transaction then record p { writer = true } else record p { readers = p.readers + 1 }

-- A lease of the connection that the loop has found, or of a new one. `opens`: a new connection can be
-- opened; the program exits where it cannot.
unfoldable pub take_lease : Bool → Bool → Pool → Scan → Option (ℕ × Pool)
unfolding lock
take_lease opens transaction p found =
    let scanned = record (lock transaction p) {
      pool = found.rest;
      closed = p.closed + found.dropped;
    } in
    let lease = λ (c : ℕ). record { conn = c; transaction = transaction } ∷ p.leases in
    elim found.dbi [
      | some c ↦ some (c, record scanned { leases = lease c })
      | none ↦
          if opens
          then some (
            p.next,
            record scanned { leases = lease p.next; opened = p.opened + 1; next = p.next + 1 },
          )
          else none
    ]

-- tagsistant_db_connection() behind the lock. `none`: the program exits, or its behaviour is
-- undefined.
unfoldable pub db_connection : (ℕ → Bool) → Bool → Bool → Bool → Pool → Option (ℕ × Pool)
unfolding scan take_lease
db_connection alive stale opens transaction p = elim (scan alive stale p.pool) [
  | none ↦ none
  | some found ↦ take_lease opens transaction p found
]

unfoldable pub drop_lease : ℕ → List Lease → List Lease
drop_lease c [] = []
drop_lease c (l ∷ leases) =
    let rest = l ∷ drop_lease c leases in if l.conn == c then leases else rest

unfoldable pub find_lease : ℕ → List Lease → Option Lease
find_lease c [] = none
find_lease c (l ∷ leases) = if l.conn == c then some l else find_lease c leases

-- tagsistant_db_connection_release()
unfoldable pub db_connection_release : ℕ → Bool → Pool → Pool
unfolding drop_lease
db_connection_release c is_writer_locked p =
    let back = record p { pool = c ∷ p.pool; leases = drop_lease c p.leases } in
    if is_writer_locked
    then record back { writer = false }
    else record back { readers = p.readers - 1 }

-- A thread takes a connection, or gives its own back with the lock that it holds. A thread that
-- gives it back with the other lock, as tagsistant_fix_checksums() does, leaves the lock in a state
-- that GLib does not define. The index tells whether the step is of the defined kinds only.
pub data Step : Bool → Pool → Pool → Type 0 where
  take_connection :
      {defined : Bool} {p p' : Pool} (alive : ℕ → Bool) (stale opens transaction : Bool) (c : ℕ)
      → may_lock transaction p ≡ true
      → db_connection alive stale opens transaction p ≡ some (c, p')
      → Step defined p p'
  give_back :
      {defined : Bool} {p p' : Pool} (c : ℕ) (l : Lease)
      → find_lease c p.leases ≡ some l
      → p' ≡ db_connection_release c l.transaction p
      → Step defined p p'
  give_back_wrongly :
      {p p' : Pool} (c : ℕ) (l : Lease) (readers : ℕ) (writer : Bool)
      → find_lease c p.leases ≡ some l
      → p' ≡ record (db_connection_release c (not l.transaction) p) {
        readers = readers;
        writer = writer;
      }
      → Step false p p'

-- The states that threads reach, by steps of the defined kinds only or by all of them.
pub data Reach : Bool → Pool → Type 0 where
  start : {defined : Bool} → Reach defined empty_pool
  later : {defined : Bool} {p p' : Pool} → Reach defined p → Step defined p p' → Reach defined p'
