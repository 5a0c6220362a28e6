-- ===== src/Reasoner/Preserves.antt =====
-- The reasoner and the database (src/reasoner.c).
use tagsistant.Base.{ℕ, zero, suc, Option, none, some, Bool, ◌≡◌, refl, arith, length, ◌+◌}
use mathlib.Core.Path.{subst}
use tagsistant.Sql.{World, Db}
use tagsistant.Sql.Engine.{Engine}
use tagsistant.Sql.Tags.Cache.{get-db}
use tagsistant.Query.{AndTag, AndNode}
use tagsistant.Reasoner.{node_id, reason_about, reasoner_inner, reasoner, tag_at}

pub node_id-db :
    (E : Engine) (conn : Bool) (t : AndTag) (w : World) → (node_id E conn t w).1.db ≡ w.db
unfolding node_id
node_id-db E conn t w =
    ground (arith, get-db E conn t.tag none none w, get-db E conn t.namespace t.key t.value w)

abbrev KeepsSomeDb : Db → Option (AndNode × World) → Type 0
KeepsSomeDb d none = Unit
KeepsSomeDb d (some r) = r.1.db ≡ d

reasoner_inner-db :
    (fuel : ℕ) (E : Engine) (conn : Bool) (pos : ℕ) (start : AndNode) (w : World)
    → KeepsSomeDb w.db (reasoner_inner fuel E conn pos start w)
unfolding reasoner_inner reason_about
reasoner_inner-db zero E conn pos start w = tt
reasoner_inner-db (suc fuel) E conn pos start w =
    elim (tag_at pos start)
      as (λ o. KeepsSomeDb w.db (elim o [
        | none ↦ some (start, w)
        | some t ↦
            reasoner_inner fuel E conn (suc pos) (reason_about E conn pos t start w).0
              (reason_about E conn pos t start w).1
      ])) [
        | none ↦ refl
        | some t ↦
            let r = reason_about E conn pos t start w in
            subst (λ d. KeepsSomeDb d (reasoner_inner fuel E conn (suc pos) r.0 r.1))
              (node_id-db E conn t w) (reasoner_inner-db fuel E conn (suc pos) r.0 r.1)
      ]

-- The reasoner changes nothing of the database.
pub reasoner-db :
    (E : Engine) (conn : Bool) (start : AndNode) (w : World) → (reasoner E conn start w).1.db ≡ w.db
unfolding reasoner
reasoner-db E conn start w = ground (arith, reasoner_inner-db (length w.tags + 2) E conn 0 start w)
