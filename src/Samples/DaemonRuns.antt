-- ===== src/Samples/DaemonRuns.antt =====
-- The loops and the local API of a worker, on small inputs.
use samdi.Common.{
  true, ◌+◌, ◌≡◌, refl, String, false, Option, none, some, List, [], ◌∷◌, length, arith,
}
use samdi.Worker.State.{Disk, works, fails, unreadable, concurrency_of}
use samdi.Worker.Process.{new_worker}
use samdi.Worker.Daemon.{Loop, new_loops, adjust, staying, Daemon, apply_concurrency}
use samdi.Worker.Daemon.Loops.{lowered_then_raised}
use samdi.Worker.Daemon.Rounds.{rounds, numbers, concurrency_settles, stopped_ends}
use samdi.Worker.Daemon.Requests.{Call, set_concurrency_to}
use samdi.Worker.Daemon.Requests.Serving.{serve}
use samdi.Worker.Daemon.Errors.{Atomic, errors_leave_process}
use samdi.Common.{final, ◌*◌}
use samdi.Common.Table.{find}
use samdi.ControlPlane.Db.{task_key}
use samdi.ControlPlane.Tasks.{extend_waiting_leases, sweep_expired_leases}
use samdi.ControlPlane.Tasks.Stalling.{extended_row}
use samdi.ControlPlane.Tasks.History.{wait}
use samdi.Worker.Daemon.Heartbeats.{heartbeat_period, heartbeat_tasks, heartbeats_keep_task}
use samdi.Samples.Start.{uuid, uuid-IsInjective}
use samdi.Samples.TaskRuns.{asking, asking_task, asking_first, asking-IsValid, first_id}
use samdi.Samples.WorkerRuns.{settings, activity}

abbrev three_loops : List Loop
three_loops = new_loops 3 0

lowered_then_raised_example : staying (adjust 3 3 (adjust 1 3 three_loops)) ≡ 1
lowered_then_raised_example = lowered_then_raised 1 3 3 three_loops refl (omega arith)

abbrev daemon : Daemon
daemon = record {
  worker = new_worker settings activity 0;
  loops = new_loops 2 0;
  started = 2;
  stopping = false;
}

abbrev silent : Call → Option String
silent call = none

-- The file cannot be written.
abbrev full_disk : Disk
full_disk = fails unreadable

errors_leave_process_example :
    Atomic
      ("mock" ∷ [])
      silent
      full_disk
      (serve ("mock" ∷ []) silent full_disk (set_concurrency_to (some 3)) daemon)
      daemon
errors_leave_process_example =
    errors_leave_process ("mock" ∷ []) silent full_disk (set_concurrency_to (some 3)) daemon

-- The concurrency is raised at once: 200, and three loops.
raised :
    (serve ("mock" ∷ []) silent works (set_concurrency_to (some 3)) daemon).0.code ≡ 200
    × (length (serve ("mock" ∷ []) silent works (set_concurrency_to (some 3)) daemon).1.loops ≡ 3)
unfolding serve apply_concurrency adjust new_worker samdi.Worker.State.set_concurrency
    samdi.Worker.State.patch
raised = (refl, refl)

-- The concurrency that cannot be written: 400, and yet three loops are wanted, of which two run.
not_raised :
    (serve ("mock" ∷ []) silent full_disk (set_concurrency_to (some 3)) daemon).0.code ≡ 400
    × (concurrency_of
          (serve
            ("mock" ∷ [])
            silent
            full_disk
            (set_concurrency_to (some 3))
            daemon).1.worker.settings
        ≡ 3)
    × (length (serve ("mock" ∷ []) silent full_disk (set_concurrency_to (some 3)) daemon).1.loops
        ≡ 2)
unfolding serve apply_concurrency adjust new_worker samdi.Worker.State.set_concurrency
    samdi.Worker.State.patch
not_raised = (refl, refl, refl)

-- A daemon that asks the user about the first task of the tables.
abbrev daemon_asking : Daemon
daemon_asking = record daemon {
  worker = record daemon.worker {
    pending_approvals =
        (first_id, record { task_id = first_id; question = "start?"; asked_at = 0 }) ∷ [];
  };
}

heartbeats_keep_task_example :
    find task_key first_id
      (final (
        sweep_expired_leases uuid
          (wait 600000 (final (extend_waiting_leases "w1" (first_id ∷ []) 600 asking))))).tasks
    ≡ some (extended_row (asking.clock + 600 * 1000) asking_task)
unfolding heartbeat_period heartbeat_tasks new_worker
heartbeats_keep_task_example =
    heartbeats_keep_task uuid uuid-IsInjective asking asking-IsValid daemon_asking (first_id ∷ [])
      "w1" 600 600000 asking_task asking_first refl refl refl refl (omega arith) (omega arith)

-- Three loops where two are wanted, and the process told to stop.
abbrev too_many : Daemon
too_many = record daemon { loops = three_loops; started = 3 }

abbrev told_to_stop : Daemon
told_to_stop = record too_many { stopping = true }

concurrency_settles_example :
    length (rounds (numbers (apply_concurrency too_many).loops) (apply_concurrency too_many)).loops
    ≡ concurrency_of too_many.worker.settings
unfolding new_worker
concurrency_settles_example =
    concurrency_settles too_many ((refl, (refl, tt)), ((refl, tt), (tt, tt)))
      (omega arith, (omega arith, (omega arith, tt))) refl refl

stopped_ends_example : (rounds (numbers told_to_stop.loops) told_to_stop).loops ≡ []
stopped_ends_example = stopped_ends told_to_stop ((refl, (refl, tt)), ((refl, tt), (tt, tt))) refl
