-- ===== src/ControlPlane/Tasks/Creation.antt =====
-- apps/control-plane/src/task-store.ts: `createTask`, on both branches.
use samdi.Common.{
  ℕ, ◌+◌, ◌≡◌, String, Option, none, List, [], ◌∷◌, ◌++◌, if◌then◌else◌, arith, eq_iff, returned,
  threw,
}
use samdi.Common.Table.{has, has-find, find-append}
use samdi.Domain.{pending}
use samdi.ControlPlane.Audit.{field_if}
use samdi.ControlPlane.Db.{
  Db, Task, TaskEvent, Field, text, channel_key, payload_key, task_key, task_event_key,
  constraint_violation,
}
use samdi.ControlPlane.Tasks.{create_task}
use samdi.ControlPlane.Tasks.Steps.{logged}
use samdi.ControlPlane.Tasks.Invariant.{IsValid}

abbrev pub created_fields : String → String → Option String → Option String → List (String × Field)
created_fields channel_id label agent thread_id =
    ("channelId", text channel_id)
    ∷ ("label", text label)
    ∷ (field_if "agent" agent ++ field_if "threadId" thread_id)

module _ (uuid : ℕ → String) (channel_id label payload : String) (agent thread_id : Option String)
    (db : Db) where
  abbrev pub stored : Db
  stored = record db {
    payloads =
        db.payloads ++ record { ref = uuid db.drawn; body = payload; created_at = db.clock } ∷ [];
    drawn = db.drawn + 1;
  }

  abbrev pub new_task : Task
  new_task = record {
    id = uuid (db.drawn + 1);
    channel_id = channel_id;
    label = label;
    payload_ref = uuid db.drawn;
    status = pending;
    agent = agent;
    thread_id = thread_id;
    worker_id = none;
    lease_expires_at = none;
    created_at = db.clock;
    updated_at = db.clock;
  }

  abbrev pub created_event : TaskEvent
  created_event = record {
    id = uuid (db.drawn + 1 + 1);
    task_id = uuid (db.drawn + 1);
    at = db.clock;
    type = "created";
    fields = created_fields channel_id label agent thread_id;
  }

  abbrev pub with_task : Db
  with_task =
      logged created_event
        (record stored { tasks = db.tasks ++ new_task ∷ []; drawn = db.drawn + 1 + 1 })

  -- On valid tables `createTask` returns the new pending task, stored with its payload and a
  -- `created` event, when the channel is in the table. When it is not, the insertion throws, no
  -- task and no event is written, and the payload stays stored.
  pub create_task_lem :
      IsValid uuid db
      → create_task uuid channel_id label payload agent thread_id db ≡ (
          if has channel_key channel_id db.channels
          then returned new_task with_task
          else threw constraint_violation (record stored { drawn = db.drawn + 1 + 1 }))
  unfolding create_task
  create_task_lem v = ground (
    arith,
    has-find payload_key (uuid db.drawn) db.payloads,
    v.new_payloads db.drawn (omega arith),
    has-find payload_key (uuid db.drawn) stored.payloads,
    find-append payload_key (uuid db.drawn) db.payloads
        (record { ref = uuid db.drawn; body = payload; created_at = db.clock } ∷ []),
    has-find task_key (uuid (db.drawn + 1)) db.tasks,
    v.new_tasks (db.drawn + 1) (omega arith),
    has-find task_event_key (uuid (db.drawn + 1 + 1)) db.task_events,
    v.new_events (db.drawn + 1 + 1) (omega arith),
    has-find task_key (uuid (db.drawn + 1)) with_task.tasks,
    find-append task_key (uuid (db.drawn + 1)) db.tasks (new_task ∷ []),
    eq_iff (uuid db.drawn) (uuid db.drawn),
    eq_iff (uuid (db.drawn + 1)) (uuid (db.drawn + 1)),
  )
