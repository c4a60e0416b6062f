-- ===== src/Worker/Daemon/Heartbeats.antt =====
-- apps/worker/src/index.ts: the heartbeat of the process, and what it keeps alive on the control plane.
use Prim.Native.Nat.{◌/◌}
use samdi.Common.{
  ℕ, ◌+◌, ◌*◌, ◌≤◌, ◌<◌, ◌↔◌, ◌≡◌, refl, sym, ap, ◌∙◌, String, true, Option, none, some, List, [],
  ◌∷◌, map, ltb, if◌then◌else◌, arith, includes, ◌||◌, ◌==◌, Bool-cases, inl, inr, final,
}
use samdi.Common.Table.{find}
use samdi.Domain.{waiting}
use samdi.ControlPlane.Db.{Db, Task, task_key}
use samdi.ControlPlane.Identifiers.{IsInjective}
use samdi.ControlPlane.Tasks.{extend_waiting_leases, sweep_expired_leases, held_by}
use samdi.ControlPlane.Tasks.Invariant.{IsValid}
use samdi.ControlPlane.Tasks.Stalling.{extended_row}
use samdi.ControlPlane.Tasks.History.{wait}
use samdi.ControlPlane.Tasks.Heartbeat.{heartbeat_protects}
use samdi.Worker.Process.{PendingApproval}
use samdi.Worker.Daemon.{Daemon}
use samdi.Worker.Daemon.Requests.{approvals, is_waiting}

-- `Math.max(5_000, Math.floor((leaseSeconds * 1000) / 3))`
unfoldable pub heartbeat_period : ℕ → ℕ
heartbeat_period lease_seconds =
    let third = (lease_seconds * 1000) / 3 in if ltb third 5000 then 5000 else third

abbrev pub approval_ids : List PendingApproval → List String
approval_ids = map (λ a. a.task_id)

abbrev named_by : List PendingApproval → Option (List String)
named_by [] = none
named_by (a ∷ as_) = some (approval_ids (a ∷ as_))

abbrev or_empty : Option (List String) → List String
or_empty none = []
or_empty (some l) = l

-- The tasks that a heartbeat names; with none it is not sent.
unfoldable pub heartbeat_tasks : Daemon → Option (List String)
heartbeat_tasks d = named_by (approvals d.worker)

includes-approval_ids :
    (id : String) (as_ : List PendingApproval) → includes (approval_ids as_) id ≡ is_waiting id as_
includes-approval_ids id [] = refl
includes-approval_ids id (a ∷ as_) = ap (λ b. a.task_id == id || b) (includes-approval_ids id as_)

period_fits :
    (lease_seconds : ℕ) → 5 ≤ lease_seconds → heartbeat_period lease_seconds ≤ lease_seconds * 1000
unfolding heartbeat_period
period_fits lease_seconds h = elim (Bool-cases (ltb ((lease_seconds * 1000) / 3) 5000)) [
  | inl e ↦ rw e (omega arith)
  | inr e ↦ rw e (omega arith)
]

three_periods_fit :
    (lease_seconds : ℕ)
    → 15 ≤ lease_seconds
    → 3 * heartbeat_period lease_seconds ≤ lease_seconds * 1000
unfolding heartbeat_period
three_periods_fit lease_seconds h = ground arith

too_late :
    (lease_seconds : ℕ) → lease_seconds < 5 → lease_seconds * 1000 < heartbeat_period lease_seconds
unfolding heartbeat_period
too_late lease_seconds h = ground arith

-- The period of the heartbeats is at most the lease exactly when the lease is at least 5 seconds.
pub heartbeat_period_lem :
    (lease_seconds : ℕ)
    → (heartbeat_period lease_seconds ≤ lease_seconds * 1000) ↔ (5 ≤ lease_seconds)
heartbeat_period_lem lease_seconds =
    (λ fits. ground (arith, too_late lease_seconds), λ long. period_fits lease_seconds long)

named :
    (id : String) (ids : List String) (as_ : List PendingApproval)
    → named_by as_ ≡ some ids
    → includes ids id ≡ is_waiting id as_
named id ids [] e = cc
named id ids (a ∷ as_) e =
    ap (λ l. includes (or_empty l) id) (sym e) ∙ includes-approval_ids id (a ∷ as_)

module _ (uuid : ℕ → String) (injective : IsInjective uuid) (db : Db) (v : IsValid uuid db)
    (d : Daemon) (task_ids : List String) (w : String) (lease_seconds n : ℕ) (t : Task)
    (there : find task_key t.id db.tasks ≡ some t) where
  -- On valid tables and with identifiers that never repeat: if the worker shows a task as waiting
  -- for approval, holds it and the task is waiting, the heartbeat that the process sends names it,
  -- and where the lease is at least 15 seconds a sweep at most three periods of the heartbeat
  -- later leaves the task as it was, with the new lease.
  pub heartbeats_keep_task :
      heartbeat_tasks d ≡ some task_ids
      → is_waiting t.id (approvals d.worker) ≡ true
      → held_by w t.worker_id ≡ true
      → t.status ≡ waiting
      → 15 ≤ lease_seconds
      → n ≤ 3 * heartbeat_period lease_seconds
      → find task_key t.id
          (final (
            sweep_expired_leases uuid
              (wait n (final (extend_waiting_leases w task_ids lease_seconds db))))).tasks
        ≡ some (extended_row (db.clock + lease_seconds * 1000) t)
  unfolding heartbeat_tasks
  heartbeats_keep_task sent asked held waits long early =
      heartbeat_protects uuid injective db v w task_ids lease_seconds n t.id t there
        (ground (arith, named t.id task_ids (approvals d.worker) sent))
        (ground (arith, three_periods_fit lease_seconds))
