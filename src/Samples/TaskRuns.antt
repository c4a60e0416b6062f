-- ===== src/Samples/TaskRuns.antt =====
-- Runs of the task store: a task is created, claimed, started, asks, is kept alive and completed.
use samdi.Common.{ℕ, ◌+◌, ◌≡◌, ◌≢◌, refl, String, Bool, none, some, List, [], ◌∷◌, returned, final}
use samdi.Common.Table.{find}
use samdi.Domain.{
  TaskStatus, claimed, running, waiting, stalled, completed, report_started, report_waiting,
  report_completed, retry, abandon,
}
use samdi.ControlPlane.Db.{Db, Task, task_key}
use samdi.ControlPlane.Tasks.{
  create_task, claim_next, apply_report, resolve_stalled, sweep_expired_leases, stall_all, stall,
  overdue,
}
use samdi.ControlPlane.Tasks.Steps.{Changes}
use samdi.ControlPlane.Tasks.Invariant.{IsValid, status_of}
use samdi.ControlPlane.Tasks.Refinement.{
  Call, create_call, claim_call, report_call, sweep_call, after, after-Changes,
}
use samdi.ControlPlane.Tasks.History.{run, run-IsValid, wait, wait-IsValid}
use samdi.ControlPlane.Tasks.Paths.{Follows, run-Follows}
use samdi.ControlPlane.Tasks.Claim.{Returns, Claimed, claim_takes_oldest}
use samdi.ControlPlane.Tasks.Exclusion.{claim_once}
use samdi.ControlPlane.Tasks.Leases.{changed_if, find-sweep}
use samdi.ControlPlane.Tasks.Stalling.{stalled_row}
use samdi.ControlPlane.Tasks.Heartbeat.{resolve_accepts}
use samdi.ControlPlane.Tasks.Heartbeat.{is_returned}
use samdi.ControlPlane.Tasks.Creation.{create_task_lem, stored, new_task, with_task}
use samdi.ControlPlane.Tasks.Effects.{written}
use samdi.ControlPlane.Db.{Failure, Field, channel_key, constraint_violation, task_not_found}
use samdi.Domain.{same_status, status_in}
use samdi.Common.{if◌then◌else◌, threw, Outcome}
use samdi.Common.Table.{has}
use samdi.Samples.Start.{uuid, uuid-IsInjective, start, start-IsValid}

-- The first task of `start` has the third identifier.
abbrev pub first_id : String
first_id = "xx"

abbrev up_to_claim : List (ℕ × Call)
up_to_claim =
    (0, create_call "demo" "ops" "hello" none none)
    ∷ (5, create_call "demo" "ops" "again" none none)
    ∷ (10, claim_call "w1" ("ops" ∷ []) 600)
    ∷ []

abbrev to_the_end : List (ℕ × Call)
to_the_end =
    (10, report_call first_id report_started)
    ∷ (10, report_call first_id (report_completed (some "done")))
    ∷ []

-- The tables after two creations and one claim.
abbrev mid : Db
mid = run uuid up_to_claim start

abbrev pub first_task : Task
first_task = record {
  id = first_id;
  channel_id = "demo";
  label = "ops";
  payload_ref = "x";
  status = claimed;
  agent = none;
  thread_id = none;
  worker_id = some "w1";
  lease_expires_at = some 601015;
  created_at = 1000;
  updated_at = 1015;
}

mid_first : find task_key first_id mid.tasks ≡ some first_task
unfolding run after create_task claim_next
mid_first = refl

mid-IsValid : IsValid uuid mid
mid-IsValid = run-IsValid uuid uuid-IsInjective up_to_claim start start-IsValid

-- The tables when the first task is done, and when it waits for its user.
abbrev done : Db
done = run uuid to_the_end mid

abbrev pub asking : Db
asking = run uuid ((10, report_call first_id (report_waiting "start?")) ∷ []) mid

abbrev done_task : Task
done_task = record first_task { status = completed; updated_at = 1035 }

abbrev pub asking_task : Task
asking_task = record first_task { status = waiting; updated_at = 1025 }

done_first : find task_key first_id done.tasks ≡ some done_task
unfolding run after create_task claim_next apply_report
done_first = refl

pub asking_first : find task_key first_id asking.tasks ≡ some asking_task
unfolding run after create_task claim_next apply_report
asking_first = refl

done-IsValid : IsValid uuid done
done-IsValid = run-IsValid uuid uuid-IsInjective to_the_end mid mid-IsValid

pub asking-IsValid : IsValid uuid asking
asking-IsValid =
    run-IsValid uuid uuid-IsInjective ((10, report_call first_id (report_waiting "start?")) ∷ [])
      mid mid-IsValid

sweep_late :
    status_of (find task_key first_id (run uuid ((601000, sweep_call) ∷ []) mid).tasks)
    ≡ some stalled
unfolding run after create_task claim_next sweep_expired_leases stall_all stall
sweep_late = refl

after-Changes_example :
    Changes uuid start (after uuid (create_call "demo" "ops" "hello" none none) start)
after-Changes_example =
    after-Changes uuid (create_call "demo" "ops" "hello" none none) start uuid-IsInjective
      start-IsValid

run-IsValid_example : IsValid uuid (run uuid up_to_claim start)
run-IsValid_example = run-IsValid uuid uuid-IsInjective up_to_claim start start-IsValid

run-Follows_example : Follows first_id to_the_end first_task (run uuid to_the_end mid)
run-Follows_example =
    run-Follows uuid uuid-IsInjective to_the_end mid first_id first_task mid-IsValid mid_first

claim_takes_oldest_example :
    Returns uuid mid mid-IsValid "w2"
      ("ops" ∷ [])
      60
      (Claimed uuid mid mid-IsValid "w2" ("ops" ∷ []) 60)
      (claim_next uuid "w2" ("ops" ∷ []) 60 mid)
claim_takes_oldest_example = claim_takes_oldest uuid mid mid-IsValid "w2" ("ops" ∷ []) 60

-- Two claims in a row, on two pending tasks.
abbrev two : Db
two =
    run uuid
      ((0, create_call "demo" "ops" "a" none none)
        ∷ (5, create_call "mail" "ops" "b" none none)
        ∷ [])
      start

two-IsValid : IsValid uuid two
two-IsValid =
    run-IsValid uuid uuid-IsInjective
      ((0, create_call "demo" "ops" "a" none none)
        ∷ (5, create_call "mail" "ops" "b" none none)
        ∷ [])
      start start-IsValid

abbrev taken_by : String → String → String → String → ℕ → ℕ → Task
taken_by w id channel ref created now = record {
  id = id;
  channel_id = channel;
  label = "ops";
  payload_ref = ref;
  status = claimed;
  agent = none;
  thread_id = none;
  worker_id = some w;
  lease_expires_at = some (now + 60000);
  created_at = created;
  updated_at = now;
}

abbrev after_one : Db
after_one = final (claim_next uuid "w1" ("ops" ∷ []) 60 two)

claim_once_example :
    (taken_by "w1" "xx" "demo" "x" 1000 1005).id
    ≢ (taken_by "w2" "xxxxx" "mail" "xxxx" 1005 1007).id
unfolding run after create_task claim_next
claim_once_example =
    claim_once uuid uuid-IsInjective two after_one
      (final (claim_next uuid "w2" ("ops" ∷ []) 60 (wait 2 after_one))) two-IsValid "w1" "w2"
      ("ops" ∷ []) ("ops" ∷ []) 60 60 2 (taken_by "w1" "xx" "demo" "x" 1000 1005)
      (taken_by "w2" "xxxxx" "mail" "xxxx" 1005 1007) refl refl

find-sweep_example :
    find task_key first_id (final (sweep_expired_leases uuid (wait 601000 mid))).tasks
    ≡ changed_if
        (overdue (wait 601000 mid).clock)
        (stalled_row (wait 601000 mid).clock)
        (find task_key first_id mid.tasks)
find-sweep_example =
    find-sweep uuid uuid-IsInjective (wait 601000 mid)
      (wait-IsValid uuid uuid-IsInjective 601000 mid mid-IsValid) first_id

-- The first task started, and hence past the help of heartbeats.
abbrev started : Db
started = run uuid ((10, report_call first_id report_started) ∷ []) mid

abbrev started_task : Task
started_task = record first_task { status = running; updated_at = 1025 }

started_first : find task_key first_id started.tasks ≡ some started_task
unfolding run after create_task claim_next apply_report
started_first = refl

started-IsValid : IsValid uuid started
started-IsValid =
    run-IsValid uuid uuid-IsInjective ((10, report_call first_id report_started) ∷ []) mid
      mid-IsValid

resolve_accepts_example :
    (is_returned (resolve_stalled uuid first_id retry started) ≡ same_status stalled running)
    × (is_returned (resolve_stalled uuid first_id abandon started)
        ≡ status_in (running ∷ waiting ∷ stalled ∷ []) running)
resolve_accepts_example =
    resolve_accepts uuid started first_id started_task started-IsValid started_first

create_task_lem_example : create_task uuid "demo" "ops" "hello" none none start ≡ (
    if has channel_key "demo" start.channels
    then returned
        (new_task uuid "demo" "ops" "hello" none none start)
        (with_task uuid "demo" "ops" "hello" none none start)
    else threw constraint_violation
        (record (stored uuid "demo" "ops" "hello" none none start) { drawn = start.drawn + 1 + 1 }))
create_task_lem_example = create_task_lem uuid "demo" "ops" "hello" none none start start-IsValid

abbrev outcome_of :
    (TaskStatus → Bool)
    → (Task → Task)
    → String
    → List (String × Field)
    → (TaskStatus → Failure)
    → Db
    → Outcome Failure Db Task
outcome_of accepts f type fields refusal db = elim (find task_key first_id db.tasks) [
  | none ↦ threw (task_not_found first_id) db
  | some t ↦
      if accepts t.status
      then returned (f t) (written uuid first_id f type fields db)
      else threw (refusal t.status) db
]
