-- ===== src/Sql/Pool/Sharing.antt =====
-- No connection is shared, and a transaction is alone (the connection pool of src/sql.c).
use mathlib.Core.Path.{subst, sym}
use mathlib.Core.Bool.{false≢true}
use tagsistant.Base.{
  ℕ, ◌+◌, ◌≤◌, ◌≡◌, refl, some, inl, inr, ◌⊎◌, Bool-cases, Bool, true, not, ◌||◌, List, [], ◌∷◌,
  ◌==◌, ==_iff, if◌then◌else◌, arith, length,
}
use tagsistant.Sql.Pool.{
  Lease, Pool, scan, may_lock, lock, take_lease, db_connection, drop_lease, find_lease,
  db_connection_release, Step, take_connection, give_back, give_back_wrongly, Reach, start, later,
}

abbrev occurrences : ℕ → List ℕ → ℕ
occurrences c [] = 0
occurrences c (d ∷ pool) = (if d == c then 1 else 0) + occurrences c pool

abbrev holders : ℕ → List Lease → ℕ
holders c [] = 0
holders c (l ∷ leases) = (if l.conn == c then 1 else 0) + holders c leases

abbrev transactions : List Lease → ℕ
transactions [] = 0
transactions (l ∷ leases) = (if l.transaction then 1 else 0) + transactions leases

List-cases : (xs : List ℕ) → (xs ≡ []) ⊎ ((x : ℕ) × (rest : List ℕ) × (xs ≡ x ∷ rest))
List-cases [] = inl refl
List-cases (x ∷ rest) = inr (x, rest, refl)

-- How often a connection is in the pool or in use.
abbrev pub uses : ℕ → Pool → ℕ
uses c p = occurrences c p.pool + holders c p.leases

-- Each connection is in one place, and a name that is not in use yet is in none.
pub record IsUnshared (p : Pool) : Type 0 where
  pub single : (c : ℕ) → uses c p ≤ 1
  pub fresh : (c : ℕ) → p.next ≤ c → uses c p ≡ 0

-- The lock counts the leases, and a transaction excludes every other lease.
pub record IsLocked (p : Pool) : Type 0 where
  pub counted : p.readers + transactions p.leases ≡ length p.leases
  pub locked : transactions p.leases ≡ (if p.writer then 1 else 0)
  pub alone : p.writer ≡ true → p.readers ≡ 0

uses-taken :
    (alive : ℕ → Bool) (stale opens transaction : Bool) (c : ℕ) (p p' : Pool)
    → db_connection alive stale opens transaction p ≡ some (c, p')
    → (x : ℕ)
    → ((uses x p' ≡ uses x p) × (p'.next ≡ p.next))
      ⊎ ((uses x p' ≡ uses x p + (if p.next == x then 1 else 0)) × (p'.next ≡ p.next + 1))
unfolding db_connection take_lease lock scan
uses-taken alive stale opens transaction c p p' e x = elim (List-cases p.pool) [
  | inl empty ↦ inr (ground arith)
  | inr (d, rest, found) ↦ inl (ground arith)
]

-- The lock and the leases after a connection is taken.
lease-taken :
    (alive : ℕ → Bool) (stale opens transaction : Bool) (c : ℕ) (p p' : Pool)
    → db_connection alive stale opens transaction p ≡ some (c, p')
    → (length p'.leases ≡ length p.leases + 1)
      × (transactions p'.leases ≡ transactions p.leases + (if transaction then 1 else 0))
      × (p'.readers ≡ p.readers + (if transaction then 0 else 1))
      × (p'.writer ≡ (transaction || p.writer))
unfolding db_connection take_lease lock scan
lease-taken alive stale opens transaction c p p' e = ground arith

take_connection-IsUnshared :
    (alive : ℕ → Bool) (stale opens transaction : Bool) (c : ℕ) (p p' : Pool)
    → db_connection alive stale opens transaction p ≡ some (c, p')
    → IsUnshared p
    → IsUnshared p'
take_connection-IsUnshared alive stale opens transaction c p p' e s = record {
  single = λ x.
      ground (arith, uses-taken alive stale opens transaction c p p' e x, s.single x, s.fresh x);
  fresh = λ x h.
      ground (arith, uses-taken alive stale opens transaction c p p' e x, s.single x, s.fresh x);
}

take_connection-IsLocked :
    (alive : ℕ → Bool) (stale opens transaction : Bool) (c : ℕ) (p p' : Pool)
    → may_lock transaction p ≡ true
    → db_connection alive stale opens transaction p ≡ some (c, p')
    → IsLocked p
    → IsLocked p'
unfolding may_lock
take_connection-IsLocked alive stale opens transaction c p p' free e s =
    let facts = lease-taken alive stale opens transaction c p p' e in
    record {
      counted = ground (arith, facts, s.counted);
      locked = ground (arith, facts, s.locked);
      alone = λ h. ground (arith, facts, s.alone);
    }

-- What giving back does to the leases.
dropped :
    (c : ℕ) (l : Lease) (leases : List Lease)
    → find_lease c leases ≡ some l
    → ((x : ℕ) → holders x (drop_lease c leases) + (if c == x then 1 else 0) ≡ holders x leases)
      × (length (drop_lease c leases) + 1 ≡ length leases)
      × (transactions (drop_lease c leases) + (if l.transaction then 1 else 0)
          ≡ transactions leases)
unfolding find_lease drop_lease
dropped c l [] e = absurd (cc)
dropped c l (k ∷ leases) e = elim (Bool-cases (k.conn == c)) [
  | inl here ↦ (λ x. ground (arith, (==_iff k.conn c).0 here), ground arith, ground arith)
  | inr there ↦
      let rest = dropped c l leases (ground arith) in
      (λ x. ground (arith, rest.0 x), ground (arith, rest.1), ground (arith, rest.2))
]

transactions-le-length : (leases : List Lease) → transactions leases ≤ length leases
transactions-le-length [] = omega arith
transactions-le-length (l ∷ leases) = ground (arith, transactions-le-length leases)

-- The lock does not matter for who has a connection.
give_back-IsUnshared :
    (c : ℕ) (l : Lease) (kind : Bool) (p : Pool)
    → find_lease c p.leases ≡ some l
    → (readers : ℕ) (writer : Bool) → IsUnshared p
    → IsUnshared (record (db_connection_release c kind p) { readers = readers; writer = writer })
unfolding db_connection_release
give_back-IsUnshared c l kind p e readers writer s =
    let facts = dropped c l p.leases e in
    record {
      single = λ x. ground (arith, facts.0 x, s.single x);
      fresh = λ x h. ground (arith, facts.0 x, s.fresh x);
    }

give_back-IsLocked :
    (c : ℕ) (l : Lease) (p : Pool)
    → find_lease c p.leases ≡ some l
    → IsLocked p
    → IsLocked (db_connection_release c l.transaction p)
unfolding db_connection_release
give_back-IsLocked c l p e s =
    let facts = dropped c l p.leases e in
    let few = transactions-le-length (drop_lease c p.leases) in
    record {
      counted = ground (arith, facts.1, facts.2, few, s.counted, s.locked);
      locked = ground (arith, facts.1, facts.2, few, s.counted, s.locked);
      alone = λ h. ground (arith, facts.1, facts.2, few, s.counted, s.locked, s.alone);
    }

Step-IsUnshared : {defined : Bool} {p p' : Pool} → Step defined p p' → IsUnshared p → IsUnshared p'
Step-IsUnshared {p = p} {p' = p'} (take_connection alive stale opens transaction c free e) s =
    take_connection-IsUnshared alive stale opens transaction c p p' e s
Step-IsUnshared {p = p} (give_back c l found e) s =
    let p1 = db_connection_release c l.transaction p in
    subst IsUnshared (sym e) (give_back-IsUnshared c l l.transaction p found p1.readers p1.writer s)
Step-IsUnshared {p = p} (give_back_wrongly c l readers writer found e) s =
    subst IsUnshared (sym e) (give_back-IsUnshared c l (not l.transaction) p found readers writer s)

Step-IsLocked :
    {defined : Bool} {p p' : Pool} → Step defined p p' → defined ≡ true → IsLocked p → IsLocked p'
Step-IsLocked {p = p} {p' = p'} (take_connection alive stale opens transaction c free e) h s =
    take_connection-IsLocked alive stale opens transaction c p p' free e s
Step-IsLocked {p = p} (give_back c l found e) h s =
    subst IsLocked (sym e) (give_back-IsLocked c l p found s)
Step-IsLocked (give_back_wrongly c l readers writer found e) h s = absurd (false≢true h)

Reach-IsUnshared : {defined : Bool} {p : Pool} → Reach defined p → IsUnshared p
Reach-IsUnshared start = record { single = λ c. omega arith; fresh = λ c h. refl }
Reach-IsUnshared (later r st) = Step-IsUnshared st (Reach-IsUnshared r)

Reach-IsLocked : {defined : Bool} {p : Pool} → Reach defined p → defined ≡ true → IsLocked p
Reach-IsLocked start h = record { counted = refl; locked = refl; alone = λ w. refl }
Reach-IsLocked (later r st) h = Step-IsLocked st h (Reach-IsLocked r h)

-- In every state that threads reach, releases with the wrong lock included, a connection is in the
-- pool once, or in use by one thread, or neither. In every state that they reach without such a
-- release, a thread with a transaction is moreover the only one that has a connection.
pub Reach-IsSound :
    {defined : Bool} {p : Pool} → Reach defined p → IsUnshared p × (defined ≡ true → IsLocked p)
Reach-IsSound r = (Reach-IsUnshared r, Reach-IsLocked r)
