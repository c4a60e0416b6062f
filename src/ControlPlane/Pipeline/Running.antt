-- ===== src/ControlPlane/Pipeline/Running.antt =====
-- apps/control-plane/src/pipeline.ts: the loops of `runDue` and `sweep`.
use samdi.Common.{
  ℕ, ◌+◌, ◌≤◌, String, Option, none, some, List, [], ◌∷◌, ◌++◌, includes, arith, Outcome, returned,
  threw, final, ◌>>=◌, ◌>>◌, pure, Option-cases, Bool-cases, inl, inr, All, All-imp,
}
use samdi.Common.Table.{find, select, IsFound, select-IsFound}
use samdi.Common.Order.{All-order_by}
use samdi.ControlPlane.Db.{Db, Thread, thread_key}
use samdi.ControlPlane.Identifiers.{IsInjective}
use samdi.ControlPlane.Memory.{Runtime, Server, on_db, entry_key}
use samdi.ControlPlane.Tasks.{create_task}
use samdi.ControlPlane.Threads.{
  Closing, as_dispatched, as_discarded, close, mark_interpreted, expire_stale,
  due_for_interpretation, is_due,
}
use samdi.ControlPlane.Pipeline.{
  InterpretVerdict, needs_context, noise, fast_pass, complete, InterpretInput, input_of,
  is_passthrough, dispatch, follow, settle, answered, interpret_thread, run_threads, run_due,
  sweep_channels, sweep, finally_delete,
}
use samdi.ControlPlane.Pipeline.Frames.{
  after_both, final-on_db, IsSound, mark-IsSound, close-IsSound, expire-IsSound, create-IsSound,
}

module _ (uuid : ℕ → String) (injective : IsInjective uuid) (seqs : String → ℕ) where
  abbrev Q : Server → Type 0
  Q s = IsSound uuid seqs s.db

  close-Q : (k : String) (c : Closing) (s : Server) → Q s → Q (final (on_db (close k c) s))
  close-Q k c s v =
      final-on_db (IsSound uuid seqs) (close k c) s (close-IsSound uuid seqs s.db v k c)

  dispatch-Q :
      (r : Runtime) (t : Thread) (label instruction : String) (s : Server)
      → Q s
      → Q (final (dispatch uuid r t label instruction s))
  unfolding dispatch
  dispatch-Q r t label instruction s v =
      after_both Q (on_db (create_task uuid r.id label instruction t.agent (some t.id)))
        (λ _. on_db (close t.id as_dispatched)) s
        (final-on_db (IsSound uuid seqs)
          (create_task uuid r.id label instruction t.agent (some t.id)) s
          (create-IsSound uuid injective s.db seqs r.id label instruction t.agent (some t.id) v))
        (λ _ s' v'. close-Q t.id as_dispatched s' v')

  follow-Q :
      (r : Runtime) (t : Thread) (verdict : InterpretVerdict) (s : Server)
      → Q s
      → Q (final (follow uuid r t verdict s))
  unfolding follow
  follow-Q r t (needs_context reason) s v = v
  follow-Q r t (noise reason) s v = close-Q t.id as_discarded s v
  follow-Q r t (fast_pass label instruction) s v = dispatch-Q r t label instruction s v
  follow-Q r t (complete label instruction) s v = dispatch-Q r t label instruction s v

  pub settle-IsSound :
      (r : Runtime) (t : Thread) (verdict : InterpretVerdict) (s : Server)
      → t.event_seq ≤ seqs t.id
      → IsSound uuid seqs s.db
      → IsSound uuid seqs (final (settle uuid r t verdict s)).db
  unfolding settle
  settle-IsSound r t verdict s le v =
      after_both Q (on_db (mark_interpreted t.id t.event_seq)) (λ _. follow uuid r t verdict) s
        (final-on_db (IsSound uuid seqs) (mark_interpreted t.id t.event_seq) s
          (mark-IsSound uuid seqs s.db v t.id t.event_seq le))
        (λ _ s' v'. follow-Q r t verdict s' v')

  module _ (interpret : ℕ → Runtime → InterpretInput → Option InterpretVerdict) where
    answered-Q :
        (r : Runtime) (t : Thread) (answer : Option InterpretVerdict) (s : Server)
        → t.event_seq ≤ seqs t.id
        → Q s
        → Q (final (answered uuid interpret r t answer s))
    unfolding answered
    answered-Q r t none s le v = v
    answered-Q r t (some verdict) s le v = settle-IsSound r t verdict s le v

    interpret-Q :
        (r : Runtime) (t : Thread) (s : Server)
        → t.event_seq ≤ seqs t.id
        → Q s
        → Q (final (interpret_thread uuid interpret r t s))
    unfolding interpret_thread
    interpret-Q r t s le v = answered-Q r t (interpret s.db.clock r (input_of r t s)) s le v

    finally-Q :
        (id : String) (o : Outcome _ Server (Unit {0}))
        → Q (final o)
        → Q (final (finally_delete id o))
    finally-Q id (returned a s) v = v
    finally-Q id (threw e s) v = v

    abbrev Known : Thread → Type 0
    Known t = t.event_seq ≤ seqs t.id

    run-Q :
        (r : Runtime) (threads : List Thread) (s : Server)
        → All Known threads
        → Q s
        → Q (final (run_threads uuid interpret r threads s))
    unfolding run_threads
    run-Q r [] s known v = v
    run-Q r (t ∷ threads) s known v =
        let rest = run_threads uuid interpret r threads in
        let flying = record s { in_flight = s.in_flight ++ t.id ∷ [] } in
        elim (Bool-cases (includes s.in_flight t.id)) [
          | inl busy ↦ rw (◌>>=◌, busy) (run-Q r threads s known.1 v)
          | inr free ↦
              rw (◌>>=◌, free)
                (after_both Q (λ s'. finally_delete t.id (interpret_thread uuid interpret r t s'))
                  (λ _. rest >>= λ handled. pure (handled + 1)) flying
                  (finally-Q t.id (interpret_thread uuid interpret r t flying)
                    (interpret-Q r t flying known.0 v))
                  (λ _ s' v'.
                    after_both Q rest (λ handled. pure (handled + 1)) s'
                      (run-Q r threads s' known.1 v') (λ _ s'' v''. v'')))
        ]

    -- The threads that are due are in the table as they are in the list.
    due-Known :
        (db : Db) (channel_id : String) (debounce_ms : ℕ)
        → IsSound uuid seqs db
        → All Known (due_for_interpretation channel_id debounce_ms db)
    due-Known db channel_id debounce_ms v =
        let rows = select (is_due channel_id debounce_ms db.clock) db.threads in
        All-order_by (λ t. t.last_event_at) Known rows
          (All-imp (IsFound thread_key (is_due channel_id debounce_ms db.clock) db.threads) Known
            (λ t found. ground (arith, found.0, v.counts t.id)) rows
            (select-IsFound thread_key (is_due channel_id debounce_ms db.clock) db.threads
              (v.threaded.unique)))

    pub run_due-IsSound :
        (channel_id : String) (s : Server)
        → IsSound uuid seqs s.db
        → IsSound uuid seqs (final (run_due uuid interpret channel_id s)).db
    unfolding run_due
    run_due-IsSound channel_id s v = elim (Option-cases (find entry_key channel_id s.runtimes)) [
      | inl absent ↦ rw (final, absent) v
      | inr (e, found) ↦ elim (Bool-cases (is_passthrough e.1)) [
        | inl p ↦ rw (final, found, p) v
        | inr n ↦
            rw (final, found, n)
              (run-Q e.1 (due_for_interpretation channel_id e.1.interpreter.debounce_ms s.db) s
                (due-Known s.db channel_id e.1.interpreter.debounce_ms v) v)
      ]
    ]

    sweep_channels-Q :
        (entries : List (String × Runtime)) (s : Server)
        → Q s
        → Q (final (sweep_channels uuid interpret entries s))
    unfolding sweep_channels
    sweep_channels-Q [] s v = v
    sweep_channels-Q (e ∷ entries) s v =
        let rest = sweep_channels uuid interpret entries in
        elim (Bool-cases (is_passthrough e.1)) [
          | inl p ↦ rw p (sweep_channels-Q entries s v)
          | inr n ↦ rw n (
              after_both Q (on_db (expire_stale e.0 e.1.interpreter.ttl_seconds))
                (λ _. run_due uuid interpret e.0 >> rest) s
                (final-on_db (IsSound uuid seqs) (expire_stale e.0 e.1.interpreter.ttl_seconds) s
                  (expire-IsSound uuid seqs s.db e.0 e.1.interpreter.ttl_seconds v))
                (λ _ s' v'.
                  after_both Q (run_due uuid interpret e.0) (λ _. rest) s'
                    (run_due-IsSound e.0 s' v') (λ _ s'' v''. sweep_channels-Q entries s'' v'')))
        ]

    -- With identifiers that never repeat and for all answers of the interpreters, also where they
    -- throw, the sweep of the pipeline keeps the tables of tasks and of threads valid and the
    -- number of events of each thread.
    pub sweep-IsSound :
        (s : Server)
        → IsSound uuid seqs s.db
        → IsSound uuid seqs (final (sweep uuid interpret s)).db
    unfolding sweep
    sweep-IsSound s v = sweep_channels-Q s.runtimes s v
