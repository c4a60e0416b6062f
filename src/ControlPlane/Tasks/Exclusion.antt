-- ===== src/ControlPlane/Tasks/Exclusion.antt =====
-- apps/control-plane/src/task-store.ts: `claimNext` twice in a row.
use mathlib.Core.Path.{subst}
use samdi.Common.{ℕ, ◌≡◌, ◌≢◌, sym, ap, String, some, List, arith, eq_iff, returned, final}
use samdi.Common.Table.{find}
use samdi.Domain.{pending, claimed}
use samdi.ControlPlane.Db.{Db, Task, task_key}
use samdi.ControlPlane.Tasks.{claim_next}
use samdi.ControlPlane.Tasks.Steps.{Changes}
use samdi.ControlPlane.Identifiers.{IsInjective}
use samdi.ControlPlane.Tasks.Invariant.{IsValid, Changes-IsValid}
use samdi.ControlPlane.Tasks.Refinement.{after, after-Changes, claim_call}
use samdi.ControlPlane.Tasks.Claim.{Claimed, Returns, claim_takes_oldest}
use samdi.ControlPlane.Tasks.History.{wait, wait-IsValid}

contradicts :
    (db : Db) (t u r : Task)
    → t.id ≡ u.id
    → find task_key t.id db.tasks ≡ some t
    → t.status ≡ claimed
    → find task_key u.id db.tasks ≡ some r
    → r.status ≡ pending
    → ⊥
contradicts db t u r same there is_claimed there' is_pending = ground arith

module _ (uuid : ℕ → String) (db db' : Db) (v : IsValid uuid db) (w : String) (labels : List String)
    (lease : ℕ) (t : Task) where
  -- What was claimed stands in the tables afterwards, claimed.
  claimed_after :
      Claimed uuid db v w labels lease (some t) db'
      → (find task_key t.id db'.tasks ≡ some t) × (t.status ≡ claimed)
  claimed_after (r, old, et, rows) =
      let at = rows t.id in
      (ground (arith, at, et, eq_iff r.id t.id), ap (λ (x : Task). x.status) et)

  -- What is claimed was pending before.
  pending_before :
      Claimed uuid db v w labels lease (some t) db'
      → (r : Task) × (find task_key t.id db.tasks ≡ some r) × (r.status ≡ pending)
  pending_before (r, old, et, rows) =
      let fits = old.fits in
      (
        r,
        subst (λ (x : Task). find task_key x.id db.tasks ≡ some r) (sym et) old.there,
        ground (arith, fits),
      )

  module _ (ran : claim_next uuid w labels lease db ≡ returned (some t) db') where
    pub claim_did : Claimed uuid db v w labels lease (some t) db'
    claim_did =
        subst (Returns uuid db v w labels lease (Claimed uuid db v w labels lease)) ran
          (claim_takes_oldest uuid db v w labels lease)

    pub claim-IsValid : IsInjective uuid → IsValid uuid db'
    unfolding after
    claim-IsValid injective = Changes-IsValid uuid injective db db' v (
        subst (λ o. Changes uuid db (final o)) ran
          (after-Changes uuid (claim_call w labels lease) db injective v))

module _ (uuid : ℕ → String) (injective : IsInjective uuid) (db db₁ db₂ : Db) (v : IsValid uuid db)
    (w₁ w₂ : String) (labels₁ labels₂ : List String) (lease₁ lease₂ n : ℕ) (t u : Task)
    (first_claim : claim_next uuid w₁ labels₁ lease₁ db ≡ returned (some t) db₁)
    (second_claim : claim_next uuid w₂ labels₂ lease₂ (wait n db₁) ≡ returned (some u) db₂) where
  -- From valid tables and with identifiers that never repeat, where a claim returns a task, the
  -- next claim, by any worker, for any labels and at any later time, returns no task or another
  -- one.
  pub claim_once : t.id ≢ u.id
  claim_once same =
      let v₁ =
        wait-IsValid uuid injective n db₁
          (claim-IsValid uuid db db₁ v w₁ labels₁ lease₁ t first_claim injective) in
      let now =
        claimed_after uuid db db₁ v w₁ labels₁ lease₁ t
          (claim_did uuid db db₁ v w₁ labels₁ lease₁ t first_claim) in
      let (r, there, was) =
        pending_before uuid (wait n db₁) db₂ v₁ w₂ labels₂ lease₂ u
          (claim_did uuid (wait n db₁) db₂ v₁ w₂ labels₂ lease₂ u second_claim) in
      contradicts db₁ t u r same now.0 now.1 there was
