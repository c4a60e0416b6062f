-- ===== src/ControlPlane/Pipeline/Ingesting.antt =====
-- What an event becomes.
use samdi.Common.{
  ℕ, ◌+◌, ◌≡◌, refl, String, true, false, Option, none, some, List, [], ◌∷◌, arith, returned, final,
  ◌>>=◌, ◌>>◌, pure, Option-cases, Bool-cases, inl, inr, eq_refl,
}
use samdi.Common.Table.{find, has, find-update, find-append, has-find, find-key}
use samdi.ControlPlane.Db.{Db, Thread, thread_key, channel_key}
use samdi.ControlPlane.Identifiers.{IsInjective}
use samdi.ControlPlane.Memory.{Runtime, Server, Serve, on_db, entry_key}
use samdi.ControlPlane.Tasks.Invariant.{IsValid}
use samdi.ControlPlane.Tasks.Creation.{create_task_lem, new_task, with_task}
use samdi.ControlPlane.Threads.{append}
use samdi.ControlPlane.Tasks.{create_task}
use samdi.ControlPlane.Threads.Append.{IsThreaded, append_lem, open_row, seq_of}
use samdi.ControlPlane.Threads.Invariant.{append-IsThreaded}
use samdi.ControlPlane.Pipeline.Frames.{
  after_both, final-on_db, IsSound, create-IsSound, draw-IsSound, append-IsValid,
}
use samdi.ControlPlane.Pipeline.{
  is_passthrough, ingest, ingest_task, ingest_thread, set_timer, id_of, schedule_interpretation,
}

module _ (uuid : ℕ → String) (s : Server) (channel_id payload : String)
    (agent : Option String) where
  -- On valid tables an event of a passthrough channel of the table becomes one pending task with
  -- the label of the channel, the event as its payload and no thread, and that is all that
  -- changes.
  pub ingest_passthrough :
      (context_key : Option String) (r : Runtime)
      → IsValid uuid s.db
      → has channel_key channel_id s.db.channels ≡ true
      → find entry_key channel_id s.runtimes ≡ some (channel_id, r)
      → is_passthrough r ≡ true
      → ingest uuid channel_id payload agent context_key s
        ≡ returned
            (some (new_task uuid channel_id r.label payload agent none s.db).id, none)
            (record s { db = with_task uuid channel_id r.label payload agent none s.db })
  unfolding ingest ingest_task
  ingest_passthrough context_key r v known there direct =
      rw
        (
          ingest,
          there,
          direct,
          ingest_task,
          create_task_lem uuid channel_id r.label payload agent none s.db v,
          ◌>>=◌,
          known,
        )
        refl

  find-set_timer :
      (at : ℕ) (timers : List (String × ℕ))
      → find entry_key channel_id (set_timer channel_id at timers) ≡ some (channel_id, at)
  find-set_timer at timers = elim (Option-cases (find entry_key channel_id timers)) [
    | inl absent ↦ ground (
      arith,
      has-find entry_key channel_id timers,
      find-append entry_key channel_id timers ((channel_id, at) ∷ []),
      eq_refl channel_id,
    )
    | inr (e, found) ↦ ground (
      arith,
      eq_refl channel_id,
      has-find entry_key channel_id timers,
      find-key entry_key channel_id timers found,
      find-update entry_key (λ x. (x.0, at)) (λ x. refl) channel_id channel_id timers,
    )
  ]

  appended :
      (context_key : String)
      → IsThreaded uuid s.db
      → has channel_key channel_id s.db.channels ≡ true
      → (thread : Thread) × (db' : Db) × (append uuid channel_id context_key payload agent s.db
          ≡ returned (some thread) db')
  appended context_key v known =
      rw (append_lem uuid s.db channel_id context_key payload agent v)
        (elim (Option-cases (open_row uuid s.db channel_id context_key payload agent)) [
          | inr (t, found) ↦ rw found (_, _, refl)
          | inl absent ↦ rw (absent, known) (_, _, refl)
        ])

  after_append :
      (context_key : String) (r : Runtime) (thread : Thread) (db' : Db)
      → append uuid channel_id context_key payload agent s.db ≡ returned (some thread) db'
      → find entry_key channel_id s.runtimes ≡ some (channel_id, r)
      → is_passthrough r ≡ false
      → ingest uuid channel_id payload agent (some context_key) s
        ≡ returned
            (none, some thread.id)
            (record s {
              db = db';
              timers = set_timer channel_id (db'.clock + (r.interpreter.debounce_ms + 50)) s.timers;
            })
  unfolding ingest ingest_thread
  after_append context_key r thread db' ran there indirect =
      rw (ingest, there, indirect, ingest_thread, ran, ◌>>=◌) refl

  -- On valid thread tables an event with a context key of a channel of the table that is not
  -- passthrough is appended to the thread of its key, `ingest` returns the identifier of that
  -- thread and no task, and the timer of the channel then fires 50 ms after the debounce time.
  pub ingest_contextual :
      (context_key : String) (r : Runtime)
      → IsThreaded uuid s.db
      → has channel_key channel_id s.db.channels ≡ true
      → find entry_key channel_id s.runtimes ≡ some (channel_id, r)
      → is_passthrough r ≡ false
      → (thread : Thread) × (s' : Server) × (append uuid channel_id context_key payload agent s.db
          ≡ returned (some thread) s'.db)
        × (ingest uuid channel_id payload agent (some context_key) s
            ≡ returned (none, some thread.id) s')
        × (find entry_key channel_id s'.timers
            ≡ some (channel_id, s'.db.clock + (r.interpreter.debounce_ms + 50)))
  ingest_contextual context_key r v known there indirect =
      let (thread, db', ran) = appended context_key v known in
      (
        thread,
        record s {
          db = db';
          timers = set_timer channel_id (db'.clock + (r.interpreter.debounce_ms + 50)) s.timers;
        },
        ran,
        after_append context_key r thread db' ran there indirect,
        find-set_timer (db'.clock + (r.interpreter.debounce_ms + 50)) s.timers,
      )

-- Both stores are valid.
abbrev pub IsSoundNow : (ℕ → String) → Db → Type 0
IsSoundNow uuid db = IsSound uuid (λ k. seq_of (find thread_key k db.threads)) db

now-IsSound :
    (uuid : ℕ → String) (db : Db) → IsValid uuid db → IsThreaded uuid db → IsSoundNow uuid db
now-IsSound uuid db v w = record { valid = v; threaded = w; counts = λ k. refl }

module _ (uuid : ℕ → String) (injective : IsInjective uuid) (channel_id payload : String)
    (agent : Option String) where
  abbrev Both : Server → Type 0
  Both s = IsValid uuid s.db × IsThreaded uuid s.db

  -- What `ingest` does once the event is stored.
  abbrev scheduled : Runtime → Option Thread → Serve (Option String × Option String)
  scheduled r thread = do
    schedule_interpretation channel_id r.interpreter.debounce_ms
    id ← id_of thread
    pure (none, some id)

  scheduled-Both :
      (r : Runtime) (o : Option Thread) (s : Server) → Both s → Both (final (scheduled r o s))
  scheduled-Both r none s b = b
  scheduled-Both r (some t) s b = b

  thread-Both :
      (r : Runtime) (key : String) (s : Server)
      → Both s
      → Both (final ((on_db (append uuid channel_id key payload agent) >>= scheduled r) s))
  thread-Both r key s b =
      after_both Both (on_db (append uuid channel_id key payload agent)) (scheduled r) s
        (final-on_db (λ db. IsValid uuid db × IsThreaded uuid db)
          (append uuid channel_id key payload agent) s
          (
            append-IsValid uuid injective s.db channel_id key payload agent b.1 b.0,
            append-IsThreaded uuid injective s.db b.1 channel_id key payload agent,
          ))
        (λ thread s' b'. scheduled-Both r thread s' b')

  ingest_thread-Both :
      (r : Runtime) (context_key : Option String) (s : Server)
      → Both s
      → Both (final (ingest_thread uuid r channel_id payload agent context_key s))
  unfolding ingest_thread
  ingest_thread-Both r (some key) s b = thread-Both r key s b
  ingest_thread-Both r none s b =
      let drawn =
        draw-IsSound uuid (λ k. seq_of (find thread_key k s.db.threads)) s.db
          (now-IsSound uuid s.db b.0 b.1) in
      thread-Both r (uuid s.db.drawn) (record s { db = record s.db { drawn = s.db.drawn + 1 } })
        (drawn.valid, drawn.threaded)

  ingest_task-Both :
      (r : Runtime) (s : Server)
      → Both s
      → Both (final (ingest_task uuid r channel_id payload agent s))
  unfolding ingest_task
  ingest_task-Both r s b =
      let made =
        create-IsSound uuid injective s.db (λ k. seq_of (find thread_key k s.db.threads)) channel_id
          r.label payload agent none (now-IsSound uuid s.db b.0 b.1) in
      after_both Both (on_db (create_task uuid channel_id r.label payload agent none))
        (λ task. pure (some task.id, none)) s
        (final-on_db (λ db. IsValid uuid db × IsThreaded uuid db)
          (create_task uuid channel_id r.label payload agent none) s (made.valid, made.threaded))
        (λ task s' b'. b')

  -- With identifiers that never repeat, `ingest` keeps the tables of tasks and of threads valid,
  -- on every channel and whether it returns or throws.
  pub ingest-IsValid :
      (context_key : Option String) (s : Server)
      → IsValid uuid s.db
      → IsThreaded uuid s.db
      → IsValid uuid (final (ingest uuid channel_id payload agent context_key s)).db
        × IsThreaded uuid (final (ingest uuid channel_id payload agent context_key s)).db
  unfolding ingest
  ingest-IsValid context_key s v w = elim (Option-cases (find entry_key channel_id s.runtimes)) [
    | inl absent ↦ rw (final, absent) (v, w)
    | inr (e, found) ↦ elim (Bool-cases (is_passthrough e.1)) [
      | inl direct ↦ rw (final, found, direct) (ingest_task-Both e.1 s (v, w))
      | inr indirect ↦ rw (final, found, indirect) (ingest_thread-Both e.1 context_key s (v, w))
    ]
  ]
