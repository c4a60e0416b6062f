-- ===== src/ControlPlane/Pipeline.antt =====
-- apps/control-plane/src/pipeline.ts: `Pipeline`, from an event to a task. `interpret t r input` is
-- what the interpreter of the channel answers at the time `t`; it gives `none` where it throws. A
-- call of `interpretThread` is split at its `await`: `settle` is what it does with an answer, on the
-- tables as they are by then.
pub mod Frames
pub mod Settling
pub mod Running
pub mod Ingesting
pub mod Overlap
use samdi.Common.{
  ℕ, ◌+◌, String, Bool, true, false, Option, none, some, List, [], ◌∷◌, ◌++◌, map, ◌==◌, includes,
  if◌then◌else◌, Outcome, returned, threw, ◌>>=◌, ◌>>◌, pure, throw, gets, modify,
}
use samdi.Common.Table.{find, has, update, delete}
use samdi.ControlPlane.Db.{
  Failure, InterpreterMode, passthrough, claude, http, Thread, unknown_channel, type_error, now,
  random_uuid,
}
use samdi.ControlPlane.Memory.{Runtime, Server, Serve, on_db, entry_key}
use samdi.ControlPlane.Tasks.{create_task}
use samdi.ControlPlane.Threads.{
  as_dispatched, as_discarded, append, close, events, due_for_interpretation, expire_stale,
  mark_interpreted,
}

pub data InterpretVerdict : Type 0 where
  fast_pass : String → String → InterpretVerdict
  needs_context : String → InterpretVerdict
  complete : String → String → InterpretVerdict
  noise : String → InterpretVerdict

pub record InterpretInput : Type 0 where
  pub channel_id : String
  pub labels : List String
  pub events : List (ℕ × String)

abbrev pub is_passthrough : Runtime → Bool
is_passthrough r = elim r.interpreter.mode [ passthrough ↦ true | claude ↦ false | http ↦ false ]

-- The closed set of labels, or the label of the channel.
abbrev pub labels_for : List String → String → List String
labels_for [] label = label ∷ []
labels_for (l ∷ ls) label = l ∷ ls

abbrev pub input_of : Runtime → Thread → Server → InterpretInput
input_of r thread s = record {
  channel_id = r.id;
  labels = labels_for r.interpreter.labels r.label;
  events = map (λ e. (e.received_at, e.payload)) (events thread.id s.db);
}

-- `this.timers.set(channelId, timer)`, for a timer that replaces the one before it
abbrev pub set_timer : String → ℕ → List (String × ℕ) → List (String × ℕ)
set_timer channel_id at timers =
    if has entry_key channel_id timers
    then update entry_key channel_id (λ e. (e.0, at)) timers
    else timers ++ (channel_id, at) ∷ []

-- `scheduleInterpretation`
abbrev pub schedule_interpretation : String → ℕ → Serve (Unit {0})
schedule_interpretation channel_id debounce_ms =
    modify
      (λ s. record s { timers = set_timer channel_id (s.db.clock + (debounce_ms + 50)) s.timers })

abbrev pub add_in_flight : String → Serve (Unit {0})
add_in_flight id = modify (λ s. record s { in_flight = s.in_flight ++ id ∷ [] })

-- `try { … } finally { this.inFlight.delete(id) }`
abbrev pub finally_delete :
    {A : Type 0} → String → Outcome Failure Server A → Outcome Failure Server A
finally_delete id (returned a s) =
    returned a (record s { in_flight = delete (λ i. i == id) s.in_flight })
finally_delete id (threw e s) = threw e (record s { in_flight = delete (λ i. i == id) s.in_flight })

-- `opts.contextKey ?? randomUUID()`
abbrev pub context_key_or : (ℕ → String) → Option String → Serve String
context_key_or uuid none = on_db (random_uuid uuid)
context_key_or uuid (some key) = pure key

-- `thread.id`
abbrev pub id_of : Option Thread → Serve String
id_of none = throw type_error
id_of (some thread) = pure thread.id

module _ (uuid : ℕ → String) where
  unfoldable pub ingest_thread :
      Runtime
      → String
      → String
      → Option String
      → Option String
      → Serve (Option String × Option String)
  ingest_thread r channel_id payload agent context_key = do
    key ← context_key_or uuid context_key
    thread ← on_db (append uuid channel_id key payload agent)
    schedule_interpretation channel_id r.interpreter.debounce_ms
    id ← id_of thread
    pure (none, some id)

  unfoldable pub ingest_task :
      Runtime → String → String → Option String → Serve (Option String × Option String)
  ingest_task r channel_id payload agent = do
    task ← on_db (create_task uuid channel_id r.label payload agent none)
    pure (some task.id, none)

  -- The identifiers of the task and of the thread.
  unfoldable pub ingest :
      String → String → Option String → Option String → Serve (Option String × Option String)
  unfolding ingest_task ingest_thread
  ingest channel_id payload agent context_key s = elim (find entry_key channel_id s.runtimes) [
    | none ↦ throw (unknown_channel channel_id) s
    | some e ↦
        if is_passthrough e.1
        then ingest_task e.1 channel_id payload agent s
        else ingest_thread e.1 channel_id payload agent context_key s
  ]

  dispatch : Runtime → Thread → String → String → Serve (Unit {0})
  dispatch r thread label instruction = do
    task ← on_db (create_task uuid r.id label instruction thread.agent (some thread.id))
    on_db (close thread.id as_dispatched)

  follow : Runtime → Thread → InterpretVerdict → Serve (Unit {0})
  unfolding dispatch
  follow r thread (needs_context reason) = pure tt
  follow r thread (noise reason) = on_db (close thread.id as_discarded)
  follow r thread (fast_pass label instruction) = dispatch r thread label instruction
  follow r thread (complete label instruction) = dispatch r thread label instruction

  unfoldable pub settle : Runtime → Thread → InterpretVerdict → Serve (Unit {0})
  unfolding follow
  settle r thread verdict = do
    on_db (mark_interpreted thread.id thread.event_seq)
    follow r thread verdict

  module _ (interpret : ℕ → Runtime → InterpretInput → Option InterpretVerdict) where
    -- An interpreter that throws leaves no trace.
    answered : Runtime → Thread → Option InterpretVerdict → Serve (Unit {0})
    answered r thread none = pure tt
    answered r thread (some verdict) = settle r thread verdict

    unfoldable pub interpret_thread : Runtime → Thread → Serve (Unit {0})
    unfolding answered
    interpret_thread r thread = do
      input ← gets (input_of r thread)
      t ← on_db now
      answered r thread (interpret t r input)

    -- The loop of `runDue`, which counts the threads it handled.
    unfoldable pub run_threads : Runtime → List Thread → Serve ℕ
    run_threads r [] = pure 0
    run_threads r (thread ∷ threads) =
        let rest = run_threads r threads in
        do
          busy ← gets (λ s. includes s.in_flight thread.id)
          if busy then rest else do
            add_in_flight thread.id
            (λ s. finally_delete thread.id (interpret_thread r thread s))
            handled ← rest
            pure (handled + 1)

    unfoldable pub run_due : String → Serve ℕ
    unfolding run_threads
    run_due channel_id s = elim (find entry_key channel_id s.runtimes) [
      | none ↦ pure 0 s
      | some e ↦
          if is_passthrough e.1
          then pure 0 s
          else run_threads e.1 (due_for_interpretation channel_id e.1.interpreter.debounce_ms s.db)
              s
    ]

    -- The loop of `sweep`.
    unfoldable pub sweep_channels : List (String × Runtime) → Serve (Unit {0})
    unfolding run_due
    sweep_channels [] = pure tt
    sweep_channels (e ∷ entries) =
        let rest = sweep_channels entries in
        if is_passthrough e.1
        then rest
        else do on_db (expire_stale e.0 e.1.interpreter.ttl_seconds); run_due e.0; rest

    unfoldable pub sweep : Serve (Unit {0})
    unfolding sweep_channels
    sweep s = sweep_channels s.runtimes s
