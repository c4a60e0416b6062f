-- ===== src/ControlPlane/Tasks.antt =====
-- apps/control-plane/src/task-store.ts: `TaskStore` and `SqlitePayloadStore`. A method is an action
-- on the database; `uuid n` is the n-th identifier that `randomUUID` gives.
pub mod Steps
pub mod Invariant
pub mod Effects
pub mod Stalling
pub mod Claim
pub mod Leases
pub mod Refinement
pub mod History
pub mod Paths
pub mod Exclusion
pub mod Heartbeat
pub mod Creation
pub mod Listing
pub mod Pages
use samdi.Common.{
  ℕ, ◌+◌, ◌*◌, String, Bool, false, ◌&&◌, Option, none, some, List, [], ◌∷◌, ◌++◌, map, ◌==◌,
  includes, length, if◌then◌else◌, ◌>>=◌, ◌>>◌, pure, throw, gets, modify, returned, ltb,
}
use samdi.Common.Table.{find, select, update}
use samdi.Common.Order.{order_by}
use samdi.Domain.{
  TaskStatus, pending, claimed, waiting, stalled, same_status, can_transition, in_flight,
  TaskReport, report_target, Resolution, resolution_target,
}
use samdi.ControlPlane.Audit.{
  status_name, field_if, report_event, report_fields, resolution_event, append_event,
}
use samdi.ControlPlane.Db.{
  Db, Query, Task, Field, text, instant, task_not_found, task_not_pending, invalid_transition,
  task_key, payload_key, insert_payload, insert_task, now, random_uuid, transaction,
}

-- `assertTransition`
abbrev pub assert_transition : TaskStatus → TaskStatus → Query (Unit {0})
assert_transition from to =
    if can_transition from to then pure tt else throw (invalid_transition from to)

-- `getRow`
abbrev pub get_row : String → Query Task
get_row task_id db = elim (find task_key task_id db.tasks) [
  | none ↦ throw (task_not_found task_id) db
  | some row ↦ returned row db
]

-- `this.payloads.get(ref)`
abbrev pub get_payload : String → Db → Option String
get_payload ref db = elim (find payload_key ref db.payloads) [
  | none ↦ none
  | some row ↦ some row.body
]

-- `UPDATE tasks SET … WHERE id = ?`
abbrev pub update_task : String → (Task → Task) → Query (Unit {0})
update_task task_id f = modify (λ db. record db { tasks = update task_key task_id f db.tasks })

-- `lease_expires_at < ?`, which is not true of NULL.
abbrev pub lease_before : ℕ → Option ℕ → Bool
lease_before t none = false
lease_before t (some lease) = ltb lease t

-- `worker_id = ?`
abbrev pub held_by : String → Option String → Bool
held_by worker_id none = false
held_by worker_id (some w) = w == worker_id

-- The first row of a query with `LIMIT 1`.
abbrev pub first : List Task → Option Task
first [] = none
first (row ∷ _) = some row

-- `status = 'pending' AND label IN (…)`
abbrev pub claimable : List String → Task → Bool
claimable labels t = same_status pending t.status && includes labels t.label

-- The rows of `recoverWorkerTasks`.
abbrev pub held_in_flight : String → Task → Bool
held_in_flight worker_id t = held_by worker_id t.worker_id && in_flight t.status

-- The rows of `extendWaitingLeases`.
abbrev pub extendable : String → List String → Task → Bool
extendable worker_id task_ids t =
    held_by worker_id t.worker_id && (same_status waiting t.status && includes task_ids t.id)

-- The rows of `sweepExpiredLeases`.
abbrev pub overdue : ℕ → Task → Bool
overdue t task = in_flight task.status && lease_before t task.lease_expires_at

abbrev pub ids : List Task → List String
ids = map (λ t. t.id)

-- One `UPDATE tasks SET lease_expires_at = ? WHERE id = ?` for each row, and no audit event.
unfoldable pub set_leases : ℕ → List Task → Query (Unit {0})
set_leases until [] = pure tt
set_leases until (row ∷ rows) = do
  update_task row.id (λ r. record r { lease_expires_at = some until })
  set_leases until rows

unfoldable pub extend_waiting_leases : String → List String → ℕ → Query (List String)
extend_waiting_leases worker_id [] lease_seconds = pure []
extend_waiting_leases worker_id (task_id ∷ task_ids) lease_seconds = do
  t ← now
  rows ← gets (λ db. select (extendable worker_id (task_id ∷ task_ids)) db.tasks)
  set_leases (t + lease_seconds * 1000) rows
  pure (ids rows)

module _ (uuid : ℕ → String) where
  unfoldable pub put_payload : String → Query String
  put_payload payload = do
    ref ← random_uuid uuid
    t ← now
    insert_payload (record { ref = ref; body = payload; created_at = t })
    pure ref

  unfoldable pub create_task : String → String → String → Option String → Option String → Query Task
  unfolding put_payload
  create_task channel_id label payload agent thread_id = do
    ref ← put_payload payload
    t ← now
    id ← random_uuid uuid
    insert_task (record {
      id = id;
      channel_id = channel_id;
      label = label;
      payload_ref = ref;
      status = pending;
      agent = agent;
      thread_id = thread_id;
      worker_id = none;
      lease_expires_at = none;
      created_at = t;
      updated_at = t;
    })
    append_event uuid id "created" (
        ("channelId", text channel_id)
        ∷ ("label", text label)
        ∷ (field_if "agent" agent ++ field_if "threadId" thread_id))
    get_row id

  claim_row : String → ℕ → Option Task → Query (Option Task)
  claim_row worker_id lease_seconds none = pure none
  claim_row worker_id lease_seconds (some row) = do
    assert_transition row.status claimed
    t ← now
    update_task row.id (λ r. record r {
      status = claimed;
      worker_id = some worker_id;
      lease_expires_at = some (t + lease_seconds * 1000);
      updated_at = t;
    })
    append_event uuid row.id "claimed"
        (("workerId", text worker_id) ∷ ("leaseExpiresAt", instant (t + lease_seconds * 1000)) ∷ [])
    claimed_row ← get_row row.id
    pure (some claimed_row)

  unfoldable pub claim_next : String → List String → ℕ → Query (Option Task)
  unfolding claim_row
  claim_next worker_id labels lease_seconds = transaction do
    row ← gets (λ db. first (order_by (λ t. t.created_at) (select (claimable labels) db.tasks)))
    claim_row worker_id lease_seconds row

  unfoldable pub apply_report : String → TaskReport → Query Task
  apply_report task_id report = do
    row ← get_row task_id
    assert_transition row.status (report_target report)
    t ← now
    update_task task_id (λ r. record r { status = report_target report; updated_at = t })
    append_event uuid task_id (report_event report) (report_fields report)
    get_row task_id

  unfoldable pub set_agent : String → String → Query Task
  set_agent task_id agent = do
    row ← get_row task_id
    (if same_status pending row.status
        then pure tt
        else throw (task_not_pending task_id row.status))
    t ← now
    update_task task_id (λ r. record r { agent = some agent; updated_at = t })
    append_event uuid task_id "agent_assigned" (("agent", text agent) ∷ [])
    get_row task_id

  unfoldable pub resolve_stalled : String → Resolution → Query Task
  resolve_stalled task_id action = do
    row ← get_row task_id
    assert_transition row.status (resolution_target action)
    t ← now
    update_task task_id (λ r. record r {
      status = resolution_target action;
      worker_id = none;
      lease_expires_at = none;
      updated_at = t;
    })
    append_event uuid task_id (resolution_event action) []
    get_row task_id

  -- One round of the loops of `recoverWorkerTasks` and `sweepExpiredLeases`.
  unfoldable pub stall : List (String × Field) → Task → Query (Unit {0})
  stall why row = do
    t ← now
    update_task row.id (λ r. record r { status = stalled; updated_at = t })
    append_event uuid row.id "stalled" (("from", text (status_name row.status)) ∷ why)

  unfoldable pub stall_all : List (String × Field) → List Task → Query (Unit {0})
  unfolding stall
  stall_all why [] = pure tt
  stall_all why (row ∷ rows) = do stall why row; stall_all why rows

  unfoldable pub recover_worker_tasks : String → Query (List String)
  recover_worker_tasks worker_id = do
    rows ← gets (λ db. select (held_in_flight worker_id) db.tasks)
    stall_all (("reason", text "worker 재시작") ∷ []) rows
    pure (ids rows)

  -- Run by the timer of apps/control-plane/src/index.ts.
  unfoldable pub sweep_expired_leases : Query ℕ
  sweep_expired_leases = do
    t ← now
    rows ← gets (λ db. select (overdue t) db.tasks)
    stall_all [] rows
    pure (length rows)
