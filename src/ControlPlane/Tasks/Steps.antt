-- ===== src/ControlPlane/Tasks/Steps.antt =====
-- The changes that the task tables may see, apart from how the store is written: each with the audit
-- event that comes with it.
use samdi.Common.{
  ℕ, ◌+◌, ◌≡◌, ap, String, Bool, true, false, Option, none, some, [], ◌∷◌, ◌++◌, ◌==◌,
  if◌then◌else◌, ◌||◌,
}
use samdi.Common.Table.{find, update}
use samdi.Domain.{
  TaskStatus, pending, claimed, running, waiting, stalled, rejected, completed, failed,
  can_transition,
}
use samdi.ControlPlane.Db.{Db, Task, TaskEvent, Payload, task_key}

-- The status that an audit event brings its task to; `none` for one that moves nothing.
unfoldable pub event_status : String → Option TaskStatus
event_status type =
    if type == "created" || type == "retried"
    then some pending
    else if type == "claimed"
    then some claimed
    else if type == "report:started" || type == "report:resumed"
    then some running
    else if type == "report:waiting"
    then some waiting
    else if type == "stalled"
    then some stalled
    else if type == "report:rejected"
    then some rejected
    else if type == "report:completed"
    then some completed
    else if type == "report:failed" || type == "abandoned"
    then some failed
    else none

-- Whether a worker and a lease are recorded, as the status wants it: neither before a claim, both
-- from the claim on, and both or neither on a failed task (giving up a stalled one clears them).
abbrev pub is_held_right : TaskStatus → Option String → Option ℕ → Bool
is_held_right pending none none = true
is_held_right pending _ _ = false
is_held_right failed none none = true
is_held_right _ (some _) (some _) = true
is_held_right _ _ _ = false

-- A change of a row that leaves alone what is set at its creation.
pub record KeepsOrigin (f : Task → Task) : Type 0 where
  pub id : (t : Task) → (f t).id ≡ t.id
  pub channel_id : (t : Task) → (f t).channel_id ≡ t.channel_id
  pub label : (t : Task) → (f t).label ≡ t.label
  pub payload_ref : (t : Task) → (f t).payload_ref ≡ t.payload_ref
  pub thread_id : (t : Task) → (f t).thread_id ≡ t.thread_id
  pub created_at : (t : Task) → (f t).created_at ≡ t.created_at

-- A function that sets none of those columns is such a change.
pub origin_kept :
    (f : Task → Task)
    → ((t : Task)
        → f t ≡ record t {
          status = (f t).status;
          agent = (f t).agent;
          worker_id = (f t).worker_id;
          lease_expires_at = (f t).lease_expires_at;
          updated_at = (f t).updated_at;
        })
    → KeepsOrigin f
origin_kept f h = record {
  id = λ t. ap (λ (x : Task). x.id) (h t);
  channel_id = λ t. ap (λ (x : Task). x.channel_id) (h t);
  label = λ t. ap (λ (x : Task). x.label) (h t);
  payload_ref = λ t. ap (λ (x : Task). x.payload_ref) (h t);
  thread_id = λ t. ap (λ (x : Task). x.thread_id) (h t);
  created_at = λ t. ap (λ (x : Task). x.created_at) (h t);
}

-- The database after a row is changed, with or without an audit event.
abbrev pub changed : String → (Task → Task) → Db → Db
changed id f db = record db { tasks = update task_key id f db.tasks }

abbrev pub logged : TaskEvent → Db → Db
logged e db = record db { task_events = db.task_events ++ e ∷ []; drawn = db.drawn + 1 }

module _ (uuid : ℕ → String) where
  pub data Change (db db' : Db) : Type 0 where
    -- an identifier is drawn and not used
    draw : db' ≡ record db { drawn = db.drawn + 1 } → Change db db'
    -- a text is stored
    stash :
        (p : Payload)
        → p.ref ≡ uuid db.drawn
        → db' ≡ record db { payloads = db.payloads ++ p ∷ []; drawn = db.drawn + 1 }
        → Change db db'
    -- a task appears, pending and held by no one
    create :
        (t : Task) (e : TaskEvent)
        → t.id ≡ uuid db.drawn
        → t.status ≡ pending
        → t.worker_id ≡ none
        → t.lease_expires_at ≡ none
        → e.id ≡ uuid (db.drawn + 1)
        → e.task_id ≡ t.id
        → event_status e.type ≡ some pending
        → db' ≡ logged e (record db { tasks = db.tasks ++ t ∷ []; drawn = db.drawn + 1 })
        → Change db db'
    -- a task takes an edge of the state machine, and the audit log says so
    move :
        (id : String) (t : Task) (f : Task → Task) (e : TaskEvent)
        → find task_key id db.tasks ≡ some t
        → can_transition t.status (f t).status ≡ true
        → KeepsOrigin f
        → is_held_right (f t).status (f t).worker_id (f t).lease_expires_at ≡ true
        → e.id ≡ uuid db.drawn
        → e.task_id ≡ id
        → event_status e.type ≡ some (f t).status
        → db' ≡ logged e (changed id f db)
        → Change db db'
    -- a pending task is given an agent
    assign :
        (id : String) (t : Task) (f : Task → Task) (e : TaskEvent)
        → find task_key id db.tasks ≡ some t
        → t.status ≡ pending
        → KeepsOrigin f
        → (f t).status ≡ t.status
        → (f t).worker_id ≡ t.worker_id
        → (f t).lease_expires_at ≡ t.lease_expires_at
        → e.id ≡ uuid db.drawn
        → e.task_id ≡ id
        → event_status e.type ≡ none
        → db' ≡ logged e (changed id f db)
        → Change db db'
    -- a waiting task has its lease moved
    extend :
        (id : String) (t : Task) (lease : ℕ)
        → find task_key id db.tasks ≡ some t
        → t.status ≡ waiting
        → db' ≡ changed id (λ r. record r { lease_expires_at = some lease }) db
        → Change db db'

  pub data Changes (db : Db) : Db → Type 0 where
    none_yet : Changes db db
    next_change : {db₁ db₂ : Db} → Changes db db₁ → Change db₁ db₂ → Changes db db₂
