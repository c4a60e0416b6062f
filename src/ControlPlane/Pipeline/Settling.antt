-- ===== src/ControlPlane/Pipeline/Settling.antt =====
-- What an answer of the interpreter does to its thread, and to events that came meanwhile.
use samdi.Common.{
  ℕ, ◌≡◌, refl, String, Bool, true, false, Option, none, some, [], ◌∷◌, ◌++◌, arith, returned,
  ◌>>=◌, ◌>>◌, eq_refl,
}
use samdi.Common.Table.{find, has, update, find-update}
use samdi.ControlPlane.Db.{Db, Thread, thread_key, channel_key}
use samdi.ControlPlane.Memory.{Runtime, Server, on_db}
use samdi.ControlPlane.Tasks.Invariant.{IsValid}
use samdi.ControlPlane.Tasks.Creation.{create_task_lem, new_task, with_task}
use samdi.ControlPlane.Threads.{
  Closing, as_dispatched, as_discarded, close, closed, interpreted, mark_interpreted,
}
use samdi.ControlPlane.Pipeline.{
  InterpretVerdict, needs_context, noise, fast_pass, complete, dispatch, follow, settle,
}

-- The thread after an answer, as a change of its row: `n` events are interpreted at `t`.
abbrev pub settled : InterpretVerdict → ℕ → ℕ → Thread → Thread
settled (needs_context reason) n t row = interpreted n t row
settled (noise reason) n t row = closed as_discarded t (interpreted n t row)
settled (fast_pass label instruction) n t row = closed as_dispatched t (interpreted n t row)
settled (complete label instruction) n t row = closed as_dispatched t (interpreted n t row)

-- The label and the instruction of the task that an answer asks for.
abbrev pub task_asked : InterpretVerdict → Option (String × String)
task_asked (needs_context reason) = none
task_asked (noise reason) = none
task_asked (fast_pass label instruction) = some (label, instruction)
task_asked (complete label instruction) = some (label, instruction)

abbrev pub TasksAfter :
    (ℕ → String) → Runtime → Thread → Option (String × String) → Db → Db → Type 0
TasksAfter uuid r t none db db' = (db'.tasks ≡ db.tasks) × (db'.payloads ≡ db.payloads)
TasksAfter uuid r t (some a) db db' =
    (db'.tasks ≡ db.tasks ++ new_task uuid r.id a.0 a.1 t.agent (some t.id) db ∷ [])
    × (db'.payloads
        ≡ db.payloads
          ++ record {
            ref = (new_task uuid r.id a.0 a.1 t.agent (some t.id) db).payload_ref;
            body = a.1;
            created_at = db.clock;
          }
            ∷ [])

-- `a ? 1 : 0` on the answer: the thread waits for more.
abbrev pub waits : InterpretVerdict → Bool
waits (needs_context reason) = true
waits (noise reason) = false
waits (fast_pass label instruction) = false
waits (complete label instruction) = false

module _ (uuid : ℕ → String) (r : Runtime) (t : Thread) (s : Server) where
  -- The thread is marked; then it is closed, if `c` says how.
  abbrev marked : Db
  marked = record s.db {
    threads = update thread_key t.id (interpreted t.event_seq s.db.clock) s.db.threads;
  }

  abbrev closed_in : Closing → Db → Db
  closed_in c db = record db { threads = update thread_key t.id (closed c s.db.clock) db.threads }

  find-marked :
      (row : Thread)
      → find thread_key t.id s.db.threads ≡ some row
      → find thread_key t.id marked.threads ≡ some (interpreted t.event_seq s.db.clock row)
  find-marked row found = ground (
    arith,
    eq_refl t.id,
    find-update thread_key (interpreted t.event_seq s.db.clock) (λ x. refl) t.id t.id s.db.threads,
  )

  find-closed :
      (c : Closing) (db : Db) (row : Thread)
      → find thread_key t.id db.threads ≡ some row
      → find thread_key t.id (closed_in c db).threads ≡ some (closed c s.db.clock row)
  find-closed c db row found = ground (
    arith,
    eq_refl t.id,
    find-update thread_key (closed c s.db.clock) (λ x. refl) t.id t.id db.threads,
  )

  -- What `settle` did: it returned, with the thread and the tasks as the answer wants them.
  abbrev pub Settled : InterpretVerdict → Thread → Type 0
  Settled verdict row =
      (db' : Db) × (settle uuid r t verdict s ≡ returned tt (record s { db = db' }))
      × (find thread_key t.id db'.threads ≡ some (settled verdict t.event_seq s.db.clock row))
      × TasksAfter uuid r t (task_asked verdict) s.db db'
      × (db'.channels ≡ s.db.channels)

  module _ (v : IsValid uuid s.db) (known : has channel_key r.id s.db.channels ≡ true)
      (row : Thread) (found : find thread_key t.id s.db.threads ≡ some row) where
    marked-IsValid : IsValid uuid marked
    marked-IsValid = record {
      unique = v.unique;
      new_tasks = v.new_tasks;
      new_events = v.new_events;
      new_payloads = v.new_payloads;
      held = v.held;
      audited = v.audited;
    }

    dispatched_lem :
        (label instruction : String)
        → (on_db (mark_interpreted t.id t.event_seq) >> dispatch uuid r t label instruction) s
          ≡ returned tt (record s {
            db =
                closed_in as_dispatched
                  (with_task uuid r.id label instruction t.agent (some t.id) marked);
          })
    unfolding mark_interpreted dispatch close
    dispatched_lem label instruction =
        rw
          (
            create_task_lem uuid r.id label instruction t.agent (some t.id) marked marked-IsValid,
            ◌>>=◌,
            known,
          )
          refl

    -- On valid tables, for a thread of the table and a channel of the table, following an answer
    -- does not throw. The thread has the events of its snapshot marked as interpreted; it stays as
    -- it is on `needs_context`, is discarded on `noise` and dispatched on `fast_pass` and
    -- `complete`. The last two add one pending task, with the label of the answer and the agent
    -- and the identifier of the thread, and store the instruction of the answer as the payload
    -- that the task refers to; the others leave the tasks and the payloads as they were.
    pub settle_lem : (verdict : InterpretVerdict) → Settled verdict row
    unfolding settle follow mark_interpreted close
    settle_lem (needs_context reason) = (marked, refl, find-marked row found, (refl, refl), refl)
    settle_lem (noise reason) = (
      closed_in as_discarded marked,
      refl,
      find-closed as_discarded marked _ (find-marked row found),
      (refl, refl),
      refl,
    )
    settle_lem (fast_pass label instruction) = (
      closed_in as_dispatched (with_task uuid r.id label instruction t.agent (some t.id) marked),
      dispatched_lem label instruction,
      find-closed as_dispatched (with_task uuid r.id label instruction t.agent (some t.id) marked) _
          (find-marked row found),
      (refl, refl),
      refl,
    )
    settle_lem (complete label instruction) = (
      closed_in as_dispatched (with_task uuid r.id label instruction t.agent (some t.id) marked),
      dispatched_lem label instruction,
      find-closed as_dispatched (with_task uuid r.id label instruction t.agent (some t.id) marked) _
          (find-marked row found),
      (refl, refl),
      refl,
    )
