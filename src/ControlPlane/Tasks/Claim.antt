-- ===== src/ControlPlane/Tasks/Claim.antt =====
-- apps/control-plane/src/task-store.ts: `claimNext`, which task it takes and what it writes.
use mathlib.Core.Option.{some-injective}
use mathlib.Core.Path.{subst}
use samdi.Common.{
  ℕ, ◌≤◌, ◌≡◌, refl, String, true, false, Option, none, some, List, [], ◌∷◌, ◌==◌, if◌then◌else◌,
  arith, eq_iff, Outcome, returned, threw, All, Option-cases, Bool-cases, inl, inr,
}
use samdi.Common.Table.{find, find-update, select, find-select, All-find}
use samdi.Common.Order.{order_by, IsSorted, IsSorted-order_by, order_by-All}
use samdi.ControlPlane.Db.{Db, Task, task_key, Failure}
use samdi.ControlPlane.Tasks.{claim_next, claimable, first}
use samdi.ControlPlane.Tasks.Invariant.{IsValid}
use samdi.ControlPlane.Tasks.Effects.{taken, next_claimable, next_claimable-IsFound, claim_next_lem}

-- `r` is the oldest task that a claim for the labels may take.
pub record IsOldestClaimable (labels : List String) (db : Db) (r : Task) : Type 0 where
  pub there : find task_key r.id db.tasks ≡ some r
  pub fits : claimable labels r ≡ true
  pub oldest :
      (j : String) (u : Task)
      → find task_key j db.tasks ≡ some u
      → claimable labels u ≡ true
      → r.created_at ≤ u.created_at

first-oldest :
    (rows : List Task) (r : Task)
    → IsSorted (λ t. t.created_at) rows
    → first rows ≡ some r
    → All (λ u. r.created_at ≤ u.created_at) rows
first-oldest [] r s h = tt
first-oldest (x ∷ rows) r s h =
    subst (λ y. All (λ u. y.created_at ≤ u.created_at) (x ∷ rows)) (some-injective _ _ h)
      (omega arith, s.0)

first-none : (rows : List Task) → first rows ≡ none → All (λ _. ⊥) rows
first-none [] h = tt
first-none (x ∷ rows) h = cc

module _ (uuid : ℕ → String) (db : Db) (v : IsValid uuid db) (w : String) (labels : List String)
    (lease_seconds : ℕ) where
  next_claimable-oldest :
      (r : Task) → next_claimable labels db ≡ some r → IsOldestClaimable labels db r
  next_claimable-oldest r h =
      let rows = select (claimable labels) db.tasks in
      let row = next_claimable-IsFound uuid db v labels r h in
      record {
        there = row.0;
        fits = row.1;
        oldest = λ j u fu cu.
            All-find task_key (λ x. r.created_at ≤ x.created_at) j rows {x = u}
              (order_by-All (λ t. t.created_at) (λ x. r.created_at ≤ x.created_at) rows
                (first-oldest (order_by (λ t. t.created_at) rows) r
                  (IsSorted-order_by (λ t. t.created_at) rows) h))
              (ground (arith, find-select task_key j (claimable labels) db.tasks v.unique));
      }

  -- What a claim that returns `result` has done.
  abbrev pub Claimed : Option Task → Db → Type 0
  Claimed none db' =
      (db' ≡ db)
      × ((j : String) (u : Task) → find task_key j db.tasks ≡ some u → claimable labels u ≡ false)
  Claimed (some t) db' =
      (r : Task) × IsOldestClaimable labels db r
      × (t ≡ taken w lease_seconds db.clock r)
      × ((j : String)
          → find task_key j db'.tasks ≡ (if r.id == j then some t else find task_key j db.tasks))

  abbrev pub Returns : (Option Task → Db → Type 0) → Outcome Failure Db (Option Task) → Type 0
  Returns P (returned a db') = P a db'
  Returns P (threw e db') = ⊥

  next_claimable-none :
      next_claimable labels db ≡ none
      → (j : String) (u : Task) → find task_key j db.tasks ≡ some u
      → claimable labels u ≡ false
  next_claimable-none h j u fu = elim (Bool-cases (claimable labels u)) [
    | inr unfit ↦ unfit
    | inl fit ↦
        let rows = select (claimable labels) db.tasks in
        absurd (
          All-find task_key (λ _. ⊥) j rows {x = u}
            (order_by-All (λ t. t.created_at) (λ _. ⊥) rows
              (first-none (order_by (λ t. t.created_at) rows) h))
            (ground (arith, find-select task_key j (claimable labels) db.tasks v.unique)))
  ]

  -- On valid tables a claim does not throw. It returns nothing only when no task is pending under
  -- the labels, and then changes nothing. Otherwise it returns the oldest of those, now claimed by
  -- the worker with a lease of `lease_seconds` from now, and that is the one row of the tasks that
  -- changes.
  pub claim_takes_oldest : Returns Claimed (claim_next uuid w labels lease_seconds db)
  claim_takes_oldest =
      rw (claim_next_lem uuid db v w labels lease_seconds)
        (elim (Option-cases (next_claimable labels db)) [
          | inl absent ↦ rw absent (refl, next_claimable-none absent)
          | inr (r, found) ↦ rw found (
            r,
            next_claimable-oldest r found,
            refl,
            λ j. ground (
              arith,
              find-update task_key (taken w lease_seconds db.clock) (λ t. refl) r.id j db.tasks,
              (next_claimable-oldest r found).there,
              eq_iff r.id j,
            ),
          )
        ])
