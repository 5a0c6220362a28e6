-- ===== src/Tests/Pool.antt =====
-- The connection pool and the statements of src/sql.c at concrete states.
use tagsistant.Base.{codes, some, true, false, [], ◌∷◌, ◌++◌, ◌≡◌, refl, any, contains}
use tagsistant.Sql.Options.{mysql_backend, db_init, db_init_mysql}
use tagsistant.Sql.Pool.{
  Pool, empty_pool, db_connection, take_lease, db_connection_release, scan, find_lease, drop_lease,
  may_lock, lock, Reach, start, later, take_connection, give_back,
}
use tagsistant.Sql.Pool.Sharing.{IsUnshared, IsLocked, Reach-IsSound}
use tagsistant.Sql.Statement.{literal, argument, statement}
use tagsistant.Sql.Statement.Quoting.{statement-eq-intended, intended, has_mark}

-- A thread with a transaction has opened a connection.
abbrev transacting : Pool
transacting = record empty_pool {
  leases = record { conn = 0; transaction = true } ∷ [];
  opened = 1;
  next = 1;
  writer = true;
}

-- It has given the connection back.
abbrev idle : Pool
idle = record transacting { pool = 0 ∷ []; leases = []; writer = false }

idle-Reach : Reach true idle
unfolding db_connection take_lease scan may_lock lock db_connection_release find_lease drop_lease
idle-Reach =
    later (later start (take_connection (λ c. true) true true true 0 refl refl))
      (give_back {p = transacting} 0 (record { conn = 0; transaction = true }) refl refl)

Reach-IsSound_example : IsUnshared idle × (true ≡ true → IsLocked idle)
Reach-IsSound_example = Reach-IsSound idle-Reach

statement-eq-intended_example :
    statement (literal (codes "x = \"") ∷ argument (codes "a\"b") ∷ literal (codes "\"") ∷ [])
    ≡ intended (literal (codes "x = \"") ∷ argument (codes "a\"b") ∷ literal (codes "\"") ∷ [])
unfolding any has_mark contains
statement-eq-intended_example =
    statement-eq-intended
      (literal (codes "x = \"") ∷ argument (codes "a\"b") ∷ literal (codes "\"") ∷ []) refl

db_init_mysql_example :
    db_init (
      codes "mysql:"
      ++ (codes "db.local" ++ b':' ∷ (codes "tags" ++ b':' ∷ (codes "me" ++ b':' ∷ codes "a:b"))))
    ≡ record {
      backend = mysql_backend;
      backend_name = some (codes "mysql");
      host = some (codes "db.local");
      db = some (codes "tags");
      username = some (codes "me");
      password = some (codes "a:b");
    }
unfolding any
db_init_mysql_example =
    db_init_mysql (codes "db.local") (codes "tags") (codes "me") (codes "a:b") refl refl refl refl
      refl
