-- ===== src/ControlPlane/Tasks/Effects.antt =====
-- apps/control-plane/src/task-store.ts: the methods of the store on valid tables, branch by branch:
-- the value or the error, and the tables that are left.
use mathlib.Core.Option.{some-injective}
use mathlib.Core.Path.{subst}
use samdi.Common.{
  ℕ, ◌+◌, ◌*◌, ◌≡◌, refl, String, Option, none, some, List, [], ◌∷◌, if◌then◌else◌, arith, eq_iff,
  inl, inr, Option-cases, ◌>>◌, All, returned, threw,
}
use samdi.Common.Table.{find, update, find-update, has-find, select, IsFound, select-IsFound}
use samdi.Common.Order.{order_by, All-order_by}
use samdi.Domain.{
  pending, claimed, same_status, can_transition, TaskReport, report_target, Resolution,
  resolution_target,
}
use samdi.ControlPlane.Audit.{report_event, report_fields, resolution_event, append_event}
use samdi.ControlPlane.Db.{
  Db, Task, TaskEvent, Field, text, instant, task_key, task_event_key, task_not_found,
  task_not_pending, invalid_transition,
}
use samdi.ControlPlane.Tasks.{
  get_row, update_task, apply_report, set_agent, resolve_stalled, claim_next, first, claimable,
}
use samdi.ControlPlane.Tasks.Steps.{changed, logged}
use samdi.ControlPlane.Tasks.Invariant.{IsValid}

-- The rows that the methods write.
abbrev pub reported : TaskReport → ℕ → Task → Task
reported report t r = record r { status = report_target report; updated_at = t }

abbrev pub assigned : String → ℕ → Task → Task
assigned agent t r = record r { agent = some agent; updated_at = t }

abbrev pub resolved : Resolution → ℕ → Task → Task
resolved action t r = record r {
  status = resolution_target action;
  worker_id = none;
  lease_expires_at = none;
  updated_at = t;
}

abbrev pub taken : String → ℕ → ℕ → Task → Task
taken worker_id lease_seconds t r = record r {
  status = claimed;
  worker_id = some worker_id;
  lease_expires_at = some (t + lease_seconds * 1000);
  updated_at = t;
}

pub first-All :
    (P : Task → Type 0) (rows : List Task) (t : Task) → All P rows → first rows ≡ some t → P t
first-All P [] t h e = cc
first-All P (r ∷ rows) t h e = subst P (some-injective _ _ e) h.0

-- The row that a claim for the labels takes.
abbrev pub next_claimable : List String → Db → Option Task
next_claimable labels db = first (order_by (λ t. t.created_at) (select (claimable labels) db.tasks))

abbrev pub claim_fields : String → ℕ → Db → List (String × Field)
claim_fields worker_id lease_seconds db =
    ("workerId", text worker_id)
    ∷ ("leaseExpiresAt", instant (db.clock + lease_seconds * 1000))
    ∷ []

module _ (uuid : ℕ → String) where
  abbrev pub event : Db → String → String → List (String × Field) → TaskEvent
  event db task_id type fields = record {
    id = uuid db.drawn;
    task_id = task_id;
    at = db.clock;
    type = type;
    fields = fields;
  }

  abbrev pub written : String → (Task → Task) → String → List (String × Field) → Db → Db
  written id f type fields db = logged (event db id type fields) (changed id f db)

  module _ (db : Db) (v : IsValid uuid db) where
    -- An audit event of a task that is there is always written.
    pub append_event_lem :
        (id : String) (type : String) (fields : List (String × Field)) (f : Task → Task) (t : Task)
        → ((r : Task) → (f r).id ≡ r.id)
        → find task_key id db.tasks ≡ some t
        → append_event uuid id type fields (changed id f db)
          ≡ returned tt (written id f type fields db)
    append_event_lem id type fields f t same found = ground (
      arith,
      has-find task_event_key (uuid db.drawn) db.task_events,
      v.new_events db.drawn (omega arith),
      has-find task_key id (update task_key id f db.tasks),
      find-update task_key f same id id db.tasks,
      eq_iff id id,
    )

    -- The end of each method: the row is changed, the event written, the row read again.
    write_row :
        (id : String) (type : String) (fields : List (String × Field)) (f : Task → Task) (t : Task)
        → ((r : Task) → (f r).id ≡ r.id)
        → find task_key id db.tasks ≡ some t
        → (do update_task id f; append_event uuid id type fields; get_row id) db
          ≡ returned (f t) (written id f type fields db)
    write_row id type fields f t same found = ground (
      arith,
      append_event_lem id type fields f t same found,
      find-update task_key f same id id db.tasks,
      eq_iff id id,
    )

    -- On valid tables `applyReport` throws `TaskNotFoundError` on an unknown task and
    -- `InvalidTransitionError` on a move that the state machine does not allow, and then writes
    -- nothing. Otherwise it sets the status that the report names, logs the report and returns the
    -- row as it then is.
    pub apply_report_lem :
        (id : String) (report : TaskReport)
        → apply_report uuid id report db ≡ elim (find task_key id db.tasks) [
          | none ↦ threw (task_not_found id) db
          | some t ↦
              if can_transition t.status (report_target report)
              then returned (reported report db.clock t) (
                  written id
                    (reported report db.clock)
                    (report_event report)
                    (report_fields report)
                    db)
              else threw (invalid_transition t.status (report_target report)) db
        ]
    unfolding apply_report
    apply_report_lem id report = elim (Option-cases (find task_key id db.tasks)) [
      | inl absent ↦ ground arith
      | inr (t, found) ↦ ground (
        arith,
        write_row id (report_event report) (report_fields report) (reported report db.clock) t
            (λ r. refl) found,
      )
    ]

    -- On valid tables `setAgent` throws `TaskNotFoundError` on an unknown task and
    -- `TaskNotPendingError` on one that is not pending, and then writes nothing. Otherwise it sets
    -- the agent, logs it and returns the row as it then is.
    pub set_agent_lem :
        (id agent : String)
        → set_agent uuid id agent db ≡ elim (find task_key id db.tasks) [
          | none ↦ threw (task_not_found id) db
          | some t ↦
              if same_status pending t.status
              then returned (assigned agent db.clock t) (
                  written id
                    (assigned agent db.clock)
                    "agent_assigned"
                    (("agent", text agent) ∷ [])
                    db)
              else threw (task_not_pending id t.status) db
        ]
    unfolding set_agent
    set_agent_lem id agent = elim (Option-cases (find task_key id db.tasks)) [
      | inl absent ↦ ground arith
      | inr (t, found) ↦ ground (
        arith,
        write_row id "agent_assigned" (("agent", text agent) ∷ []) (assigned agent db.clock) t
            (λ r. refl) found,
      )
    ]

    -- On valid tables `resolveStalled` throws `TaskNotFoundError` on an unknown task and
    -- `InvalidTransitionError` on a move that the state machine does not allow, and then writes
    -- nothing. Otherwise it sets the status of the action, clears the worker and the lease, logs
    -- the action and returns the row as it then is.
    pub resolve_stalled_lem :
        (id : String) (action : Resolution)
        → resolve_stalled uuid id action db ≡ elim (find task_key id db.tasks) [
          | none ↦ threw (task_not_found id) db
          | some t ↦
              if can_transition t.status (resolution_target action)
              then returned
                  (resolved action db.clock t)
                  (written id (resolved action db.clock) (resolution_event action) [] db)
              else threw (invalid_transition t.status (resolution_target action)) db
        ]
    unfolding resolve_stalled
    resolve_stalled_lem id action = elim (Option-cases (find task_key id db.tasks)) [
      | inl absent ↦ ground arith
      | inr (t, found) ↦ ground (
        arith,
        write_row id (resolution_event action) [] (resolved action db.clock) t (λ r. refl) found,
      )
    ]

    pub next_claimable-IsFound :
        (labels : List String) (t : Task)
        → next_claimable labels db ≡ some t
        → IsFound task_key (claimable labels) db.tasks t
    next_claimable-IsFound labels t h =
        first-All (IsFound task_key (claimable labels) db.tasks)
          (order_by (λ r. r.created_at) (select (claimable labels) db.tasks)) t
          (All-order_by (λ r. r.created_at) (IsFound task_key (claimable labels) db.tasks)
            (select (claimable labels) db.tasks)
            (select-IsFound task_key (claimable labels) db.tasks v.unique))
          h

    -- Without a pending task of the labels it returns `null` and writes nothing. Otherwise it takes
    -- the first of them for the worker, with a lease, and logs that.
    pub claim_next_lem :
        (worker_id : String) (labels : List String) (lease_seconds : ℕ)
        → claim_next uuid worker_id labels lease_seconds db ≡ elim (next_claimable labels db) [
          | none ↦ returned none db
          | some t ↦
              let f = taken worker_id lease_seconds db.clock in
              returned
                (some (f t))
                (written t.id f "claimed" (claim_fields worker_id lease_seconds db) db)
        ]
    unfolding claim_next
    claim_next_lem worker_id labels lease_seconds = elim (Option-cases (next_claimable labels db)) [
      | inl absent ↦ ground arith
      | inr (t, found) ↦
          let row = next_claimable-IsFound labels t found in
          ground (
            arith,
            row.1,
            write_row t.id "claimed" (claim_fields worker_id lease_seconds db)
                (taken worker_id lease_seconds db.clock) t (λ r. refl) row.0,
          )
    ]
