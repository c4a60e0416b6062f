-- ===== src/ControlPlane/Tasks/Heartbeat.antt =====
-- apps/control-plane/src/task-store.ts: heartbeats and the sweep together, and the two ways out of
-- `stalled`.
use samdi.Common.{
  ℕ, ◌+◌, ◌*◌, ◌≤◌, ◌≡◌, ap, String, Bool, true, false, some, List, [], ◌∷◌, arith, Outcome,
  returned, threw, final,
}
use samdi.Common.Table.{find, select}
use samdi.Domain.{running, waiting, stalled, same_status, status_in, retry, abandon}
use samdi.ControlPlane.Db.{Db, Task, task_key}
use samdi.ControlPlane.Tasks.{
  extend_waiting_leases, sweep_expired_leases, resolve_stalled, lease_before, extendable,
}
use samdi.ControlPlane.Identifiers.{IsInjective}
use samdi.ControlPlane.Tasks.Invariant.{IsValid, Changes-IsValid}
use samdi.ControlPlane.Tasks.Effects.{resolve_stalled_lem}
use samdi.ControlPlane.Tasks.Stalling.{stalled_row, extended_row, clock-extended_all}
use samdi.ControlPlane.Tasks.Leases.{find-extend, find-sweep, extend-Changes, extend_lem}
use samdi.ControlPlane.Tasks.History.{wait, wait-IsValid}

module _ (uuid : ℕ → String) (injective : IsInjective uuid) (db : Db) (v : IsValid uuid db)
    (w : String) (task_ids : List String) (lease_seconds n : ℕ) (id : String) (t : Task)
    (there : find task_key id db.tasks ≡ some t) where
  -- The tables after a heartbeat, `n` milliseconds later.
  abbrev pub beaten : Db
  beaten = wait n (final (extend_waiting_leases w task_ids lease_seconds db))

  clock-extend : beaten.clock ≡ db.clock + n
  clock-extend = rw (extend_lem uuid injective db v w task_ids lease_seconds) (
      ap (λ (c : ℕ). c + n)
        (clock-extended_all (db.clock + lease_seconds * 1000)
          (select (extendable w task_ids) db.tasks) db))

  beaten-IsValid : IsValid uuid beaten
  beaten-IsValid =
      wait-IsValid uuid injective n (final (extend_waiting_leases w task_ids lease_seconds db)) (
        Changes-IsValid uuid injective db
          (final (extend_waiting_leases w task_ids lease_seconds db)) v
          (extend-Changes uuid injective db v w task_ids lease_seconds))

  -- On valid tables and with identifiers that never repeat, a waiting task that its worker names
  -- in a heartbeat is not stalled by a sweep at most `lease_seconds` later: it is as it was, with
  -- the new lease.
  pub heartbeat_protects :
      extendable w task_ids t ≡ true
      → n ≤ lease_seconds * 1000
      → find task_key id (final (sweep_expired_leases uuid beaten)).tasks
        ≡ some (extended_row (db.clock + lease_seconds * 1000) t)
  heartbeat_protects named early = ground (
    arith,
    find-sweep uuid injective beaten beaten-IsValid id,
    find-extend uuid injective db v w task_ids lease_seconds id,
    clock-extend,
  )

  -- On valid tables and with identifiers that never repeat, a running task whose lease has passed
  -- is stalled by the sweep, whatever heartbeat came before it.
  pub heartbeat_spares_none :
      t.status ≡ running
      → lease_before (db.clock + n) t.lease_expires_at ≡ true
      → find task_key id (final (sweep_expired_leases uuid beaten)).tasks
        ≡ some (stalled_row (db.clock + n) t)
  heartbeat_spares_none runs late = ground (
    arith,
    find-sweep uuid injective beaten beaten-IsValid id,
    find-extend uuid injective db v w task_ids lease_seconds id,
    clock-extend,
  )

abbrev pub is_returned {ℓ} : {E S A : Type ℓ} → Outcome E S A → Bool
is_returned (returned a s) = true
is_returned (threw e s) = false

-- On valid tables `resolveStalled` accepts a retry of an existing task exactly when the task is
-- stalled, and a surrender exactly when it is running, waiting or stalled.
pub resolve_accepts :
    (uuid : ℕ → String) (db : Db) (id : String) (t : Task)
    → IsValid uuid db
    → find task_key id db.tasks ≡ some t
    → (is_returned (resolve_stalled uuid id retry db) ≡ same_status stalled t.status)
      × (is_returned (resolve_stalled uuid id abandon db)
          ≡ status_in (running ∷ waiting ∷ stalled ∷ []) t.status)
resolve_accepts uuid db id t v there = (
  ground (arith, resolve_stalled_lem uuid db v id retry),
  ground (arith, resolve_stalled_lem uuid db v id abandon),
)
