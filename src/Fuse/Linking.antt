-- ===== src/Fuse/Linking.antt =====
-- tagsistant_link() without a transaction (src/fuse_operations/link.c).
use tagsistant.Base.{Text, some, Bool, true, false, ◌≡◌, refl, ◌∙◌, arith}
use mathlib.Core.Path.{subst}
use tagsistant.Sql.{World}
use tagsistant.Query.{QTree}
use tagsistant.Query.Store.Preserves.{holds_transaction}
use tagsistant.Resolve.New.{Settings, querytree_new}
use tagsistant.Resolve.New.Preserves.{ResultKeeps, querytree_new-keeps}
use tagsistant.Fuse.{Reply, is_success, querytree_destroy}
use tagsistant.Fuse.Create.{link, link_body, inner_path}

destroy-db :
    (S : Settings) (commit : Bool) (q : QTree) (before w : World)
    → holds_transaction q ≡ false
    → (querytree_destroy S commit q before w).db ≡ w.db
unfolding querytree_destroy
destroy-db S commit q before w h = ground arith

-- Whatever a link() has done to the database stays, also if it fails.
pub link-db :
    (S : Settings) (from to : Text) (w w1 w2 w3 : World) (source q : QTree) (reply : Reply)
    → querytree_new S (inner_path S from) true false false w ≡ some (source, w1)
    → querytree_new S to false true false w1 ≡ some (q, w2)
    → link_body S from source q w2 ≡ some (reply, w3)
    → (w' : World) × ((link S from to w ≡ some (reply, w')) × (w'.db ≡ w3.db))
unfolding link
link-db S from to w w1 w2 w3 source q reply e1 e2 e3 =
    let h1 =
      subst (ResultKeeps false w.db) e1
        (querytree_new-keeps S (inner_path S from) true false false w) in
    let h2 = subst (ResultKeeps false w1.db) e2 (querytree_new-keeps S to false true false w1) in
    let w4 = querytree_destroy S (is_success reply) source w w3 in
    (
      querytree_destroy S (is_success reply) q w w4,
      (
        rw (e1, link) (rw (e2, link) (rw (e3, link) refl)),
        destroy-db S (is_success reply) q w w4 h2.0
            ∙ destroy-db S (is_success reply) source w w3 h1.0,
      ),
    )
