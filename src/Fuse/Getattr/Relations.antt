-- ===== src/Fuse/Getattr/Relations.antt =====
-- The check of a relation by getattr(), against the rows of the table
-- (src/fuse_operations/getattr.c).
use tagsistant.Base.{
  ℕ, ◌≡◌, Text, codes, some, true, ◌&&◌, ◌||◌, ◌==◌, str_eq, str_eq_iff, arith, any, any_congr,
  Bool-cases, inl, inr, if◌then◌else◌,
}
use tagsistant.Sql.{World, RelationRow}
use tagsistant.Sql.Engine.{Engine}
use tagsistant.Sql.Objects.{is_relation}
use tagsistant.Query.{QTree}
use tagsistant.Query.Paths.{is_valid_relation}
use tagsistant.Fuse.Target.{valid_relation}
use tagsistant.Sql.Existence.{query_ones}

-- A relation is valid for getattr() exactly if it is one of the three and a row of the table leads
-- from the left tag to the right one. This holds for is_equivalent too, whatever row leads back.
pub valid_relation_iff :
    (E : Engine) (q : QTree) (name : Text) (id related : ℕ) (w : World)
    → q.dbi ≡ true
    → q.relation ≡ some name
    → valid_relation E q id related w ≡ (
        if is_valid_relation (some name) && any (is_relation id related name) w.relations
        then 1
        else 0)
unfolding valid_relation is_valid_relation
valid_relation_iff E q name id related w conn e =
    let both = λ (r : RelationRow).
      str_eq r.relation (codes "is_equivalent")
      && ((r.tag1_id == id && r.tag2_id == related) || (r.tag2_id == related && r.tag1_id == id)) in
    elim (Bool-cases (str_eq name (codes "is_equivalent"))) [
      | inl equivalent ↦
          let same : any both w.relations ≡ any (is_relation id related name) w.relations =
            any_congr both (is_relation id related name) w.relations (λ r.
              rw ((str_eq_iff name (codes "is_equivalent")).0 equivalent)
                (unfold is_relation in ground arith)) in
          ground (arith, query_ones E both w.relations)
      | inr directed ↦ ground (arith, query_ones E (is_relation id related name) w.relations)
    ]
