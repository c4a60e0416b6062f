-- ===== src/ControlPlane/Tasks/Leases.antt =====
-- Leases: what `sweepExpiredLeases`, `recoverWorkerTasks` and `extendWaitingLeases` do to each task.
use samdi.Common.{
  ℕ, ◌+◌, ◌*◌, ◌≡◌, String, Bool, true, false, Option, none, some, List, [], ◌∷◌, if◌then◌else◌,
  length, arith, returned, final, ◌>>=◌, All-imp,
}
use samdi.Common.Table.{
  find, select, select_none, has-find, find-select, IsFound, select-IsFound, HasUniqueKeys-select,
}
use samdi.Domain.{waiting, in_flight, same_status}
use samdi.ControlPlane.Db.{Db, Task, Field, text, task_key}
use samdi.ControlPlane.Tasks.{
  recover_worker_tasks, extend_waiting_leases, sweep_expired_leases, held_in_flight, overdue,
  extendable, ids, stall_all,
}
use samdi.ControlPlane.Tasks.Steps.{Changes}
use samdi.ControlPlane.Identifiers.{IsInjective}
use samdi.ControlPlane.Tasks.Invariant.{IsValid}
use samdi.ControlPlane.Tasks.Stalling.{
  stalled_row, extended_row, stalled_all, find-stalled_all, stall_all_lem, extended_all,
  find-extended_all, set_leases_lem, extended_all-Changes,
}

-- The row, changed if it passes the test.
abbrev pub changed_if : (Task → Bool) → (Task → Task) → Option Task → Option Task
changed_if p f none = none
changed_if p f (some t) = if p t then some (f t) else some t

abbrev pub recovery_reason : List (String × Field)
recovery_reason = ("reason", text "worker 재시작") ∷ []

module _ (uuid : ℕ → String) (injective : IsInjective uuid) (db : Db) (v : IsValid uuid db) where
  -- The loop over selected rows that are in flight.
  stall_selected :
      (why : List (String × Field)) (p : Task → Bool)
      → ((t : Task) → p t ≡ true → in_flight t.status ≡ true)
      → (stall_all uuid why (select p db.tasks) db
          ≡ returned tt (stalled_all uuid why (select p db.tasks) db))
        × Changes uuid db (stalled_all uuid why (select p db.tasks) db)
  stall_selected why p flying =
      let found = select-IsFound task_key p db.tasks v.unique in
      stall_all_lem uuid injective why (select p db.tasks) db v
        (HasUniqueKeys-select task_key p db.tasks v.unique)
        (All-imp (IsFound task_key p db.tasks) (λ x. find task_key x.id db.tasks ≡ some x)
          (λ x h. h.0) (select p db.tasks) found)
        (All-imp (IsFound task_key p db.tasks) (λ x. in_flight x.status ≡ true)
          (λ x h. flying x h.1) (select p db.tasks) found)

  find-stall_selected :
      (why : List (String × Field)) (p : Task → Bool) (j : String)
      → find task_key j (stalled_all uuid why (select p db.tasks) db).tasks
        ≡ changed_if p (stalled_row db.clock) (find task_key j db.tasks)
  find-stall_selected why p j = ground (
    arith,
    find-stalled_all uuid why (select p db.tasks) db j,
    has-find task_key j (select p db.tasks),
    find-select task_key j p db.tasks v.unique,
  )

  overdue_flying : (t : Task) → overdue db.clock t ≡ true → in_flight t.status ≡ true
  overdue_flying t h = ground arith

  held_flying : (w : String) (t : Task) → held_in_flight w t ≡ true → in_flight t.status ≡ true
  held_flying w t h = ground arith

  pub sweep_lem :
      sweep_expired_leases uuid db
      ≡ returned
          (length (select (overdue db.clock) db.tasks))
          (stalled_all uuid [] (select (overdue db.clock) db.tasks) db)
  unfolding sweep_expired_leases
  sweep_lem = rw ((stall_selected [] (overdue db.clock) overdue_flying).0, ◌>>=◌)

  pub sweep-Changes : Changes uuid db (final (sweep_expired_leases uuid db))
  sweep-Changes = rw sweep_lem (stall_selected [] (overdue db.clock) overdue_flying).1

  -- On valid tables and with identifiers that never repeat, the sweep stalls exactly the tasks
  -- that are claimed, running or waiting with a lease that is past, and leaves every other row of
  -- the tasks as it was.
  pub find-sweep :
      (j : String)
      → find task_key j (final (sweep_expired_leases uuid db)).tasks
        ≡ changed_if (overdue db.clock) (stalled_row db.clock) (find task_key j db.tasks)
  find-sweep j = rw sweep_lem (find-stall_selected [] (overdue db.clock) j)

  pub recover_lem :
      (w : String)
      → recover_worker_tasks uuid w db
        ≡ returned
            (ids (select (held_in_flight w) db.tasks))
            (stalled_all uuid recovery_reason (select (held_in_flight w) db.tasks) db)
  unfolding recover_worker_tasks
  recover_lem w = rw ((stall_selected recovery_reason (held_in_flight w) (held_flying w)).0, ◌>>=◌)

  pub recover-Changes : (w : String) → Changes uuid db (final (recover_worker_tasks uuid w db))
  recover-Changes w =
      rw (recover_lem w) (stall_selected recovery_reason (held_in_flight w) (held_flying w)).1

  -- On valid tables and with identifiers that never repeat, the recovery of a worker stalls
  -- exactly the tasks that it holds claimed, running or waiting, and leaves every other row of the
  -- tasks as it was.
  pub find-recover :
      (w j : String)
      → find task_key j (final (recover_worker_tasks uuid w db)).tasks
        ≡ changed_if (held_in_flight w) (stalled_row db.clock) (find task_key j db.tasks)
  find-recover w j = rw (recover_lem w) (find-stall_selected recovery_reason (held_in_flight w) j)

  none_named : (w : String) (t : Task) → extendable w [] t ≡ false
  none_named w t = ground arith

  pub extend_lem :
      (w : String) (task_ids : List String) (lease_seconds : ℕ)
      → extend_waiting_leases w task_ids lease_seconds db
        ≡ returned (ids (select (extendable w task_ids) db.tasks)) (
            extended_all
              (db.clock + lease_seconds * 1000)
              (select (extendable w task_ids) db.tasks)
              db)
  unfolding extend_waiting_leases extended_all
  extend_lem w [] lease_seconds = rw (select_none (extendable w []) db.tasks (none_named w))
  extend_lem w (i ∷ is) lease_seconds = rw (
    set_leases_lem (db.clock + lease_seconds * 1000) (select (extendable w (i ∷ is)) db.tasks) db,
    ◌>>=◌,
  )

  pub extend-Changes :
      (w : String) (task_ids : List String) (lease_seconds : ℕ)
      → Changes uuid db (final (extend_waiting_leases w task_ids lease_seconds db))
  extend-Changes w task_ids lease_seconds =
      let p = extendable w task_ids in
      let found = select-IsFound task_key p db.tasks v.unique in
      rw (extend_lem w task_ids lease_seconds) (
        extended_all-Changes uuid (db.clock + lease_seconds * 1000) (select p db.tasks) db
          (HasUniqueKeys-select task_key p db.tasks v.unique)
          (All-imp (IsFound task_key p db.tasks) (λ x. find task_key x.id db.tasks ≡ some x)
            (λ x h. h.0) (select p db.tasks) found)
          (All-imp (IsFound task_key p db.tasks) (λ x. same_status waiting x.status ≡ true)
            (λ x h. ground arith) (select p db.tasks) found))

  -- On valid tables and with identifiers that never repeat, a heartbeat moves the lease of exactly
  -- the waiting tasks that the worker holds and names, and leaves every other row of the tasks as
  -- it was.
  pub find-extend :
      (w : String) (task_ids : List String) (lease_seconds : ℕ) (j : String)
      → find task_key j (final (extend_waiting_leases w task_ids lease_seconds db)).tasks
        ≡ changed_if
            (extendable w task_ids)
            (extended_row (db.clock + lease_seconds * 1000))
            (find task_key j db.tasks)
  find-extend w task_ids lease_seconds j = rw (extend_lem w task_ids lease_seconds) (
      ground (
        arith,
        find-extended_all (db.clock + lease_seconds * 1000)
            (select (extendable w task_ids) db.tasks) db j,
        has-find task_key j (select (extendable w task_ids) db.tasks),
        find-select task_key j (extendable w task_ids) db.tasks v.unique,
      ))
