-- ===== src/Samples/PipelineRuns.antt =====
-- Runs of the pipeline: an event becomes a task or joins a thread, and the thread is interpreted.
use samdi.Common.{
  ℕ, ◌≤◌, ◌≡◌, refl, String, Option, none, some, [], ◌∷◌, ◌++◌, final, ◌>>◌, arith, map, true,
}
use samdi.Common.Table.{find, has}
use samdi.ControlPlane.Db.{Thread, open_thread, Task, thread_key, channel_key}
use samdi.ControlPlane.Memory.{Server, Runtime}
use samdi.ControlPlane.Channels.{runtime_of}
use samdi.ControlPlane.Tasks.Invariant.{IsValid}
use samdi.ControlPlane.Tasks.{create_task}
use samdi.ControlPlane.Threads.{append, expire_stale, mark_interpreted, close, close_all}
use samdi.ControlPlane.Threads.Append.{IsThreaded, seq_of}
use samdi.ControlPlane.Pipeline.{
  InterpretVerdict, InterpretInput, complete, ingest, settle, sweep, run_threads, interpret_thread,
}
use samdi.ControlPlane.Pipeline.Frames.{IsSound}
use samdi.ControlPlane.Pipeline.Settling.{Settled, settle_lem}
use samdi.ControlPlane.Pipeline.Running.{sweep-IsSound}
use samdi.ControlPlane.Pipeline.Overlap.{settle_twice}
use samdi.ControlPlane.Pipeline.Ingesting.{ingest-IsValid}
use samdi.Samples.Start.{uuid, uuid-IsInjective, demo, mail, start, start-IsValid}
use samdi.Samples.ThreadRuns.{start-IsThreaded}

abbrev pub quiet : Server
quiet = record {
  db = start;
  runtimes = ("demo", runtime_of demo) ∷ ("mail", runtime_of mail) ∷ [];
  in_flight = [];
  timers = [];
}

ingest-IsValid_example :
    IsValid uuid (final (ingest uuid "mail" "hello" none (some "c1") quiet)).db
    × IsThreaded uuid (final (ingest uuid "mail" "hello" none (some "c1") quiet)).db
ingest-IsValid_example =
    ingest-IsValid uuid uuid-IsInjective "mail" "hello" none (some "c1") quiet start-IsValid
      start-IsThreaded

-- Two events of one conversation; the interpreter saw the first only.
abbrev one : Server
one = final (ingest uuid "mail" "first" none (some "c1") quiet)

abbrev busy : Server
busy = final (ingest uuid "mail" "second" none (some "c1") one)

abbrev seqs : String → ℕ
seqs k = seq_of (find thread_key k busy.db.threads)

abbrev row : Thread
row = record {
  id = "x";
  channel_id = "mail";
  context_key = "c1";
  status = open_thread;
  agent = none;
  event_seq = 2;
  interpreted_seq = 0;
  last_event_at = 1000;
  last_interpreted_at = none;
  created_at = 1000;
  updated_at = 1000;
}

abbrev seen_row : Thread
seen_row = record row { event_seq = 1 }

busy_row : find thread_key "x" busy.db.threads ≡ some row
unfolding ingest append
busy_row = refl

busy_known : has channel_key "mail" busy.db.channels ≡ true
unfolding ingest append
busy_known = refl

busy-IsSound : IsSound uuid seqs busy.db
busy-IsSound =
    let (v, t) =
      ingest-IsValid uuid uuid-IsInjective "mail" "first" none (some "c1") quiet start-IsValid
        start-IsThreaded in
    let (v', t') = ingest-IsValid uuid uuid-IsInjective "mail" "second" none (some "c1") one v t in
    record { valid = v'; threaded = t'; counts = λ k. refl }

-- The interpreter saw one event of two.
seen_bound : 1 ≤ seqs "x"
unfolding ingest append
seen_bound = omega arith

settle_lem_example : Settled uuid (runtime_of mail) seen_row busy (complete "ops" "do it") row
settle_lem_example =
    settle_lem uuid (runtime_of mail) seen_row busy busy-IsSound.valid busy_known row busy_row
      (complete "ops" "do it")

settle_twice_example :
    (x y : Task) × ((final (
        (settle uuid (runtime_of mail) seen_row (complete "ops" "a")
            >> settle uuid (runtime_of mail) seen_row (complete "ops" "b"))
          busy)).db.tasks
      ≡ busy.db.tasks ++ x ∷ y ∷ [])
    × (x.thread_id ≡ some "x")
    × (y.thread_id ≡ some "x")
    × (x.label ≡ "ops")
    × (y.label ≡ "ops")
settle_twice_example =
    settle_twice uuid uuid-IsInjective (runtime_of mail) seen_row seqs busy row (complete "ops" "a")
      (complete "ops" "b") ("ops", "a") ("ops", "b") busy-IsSound busy_known busy_row seen_bound
      refl refl

-- An interpreter that calls everything complete.
abbrev eager : ℕ → Runtime → InterpretInput → Option InterpretVerdict
eager t r input = some (complete "ops" "do it")

abbrev later : Server
later = record busy { db = record busy.db { clock = 9000 } }

sweep-IsSound_example : IsSound uuid seqs (final (sweep uuid eager busy)).db
sweep-IsSound_example = sweep-IsSound uuid uuid-IsInjective seqs eager busy busy-IsSound

-- Eight seconds later the sweep makes a task of the thread.
swept_tasks :
    map (λ (t : Task). t.thread_id) (final (sweep uuid eager later)).db.tasks ≡ some "x" ∷ []
unfolding sweep ingest append run_threads interpret_thread settle create_task expire_stale
    mark_interpreted close close_all
swept_tasks = refl
