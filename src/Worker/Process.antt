-- ===== src/Worker/Process.antt =====
-- apps/worker/src/worker.ts: what the class `Worker` keeps while it processes tasks, and what it
-- does with the reports of agents and the decisions of the user.
pub mod Steps
pub mod Protocol
pub mod Soundness
pub mod Following
pub mod Guarantees
pub mod Acceptance
pub mod Registered
pub mod Entries
pub mod Registration
pub mod Current
pub mod Upkeep
pub mod Ongoing
pub mod Promises
pub mod Delivery
use samdi.Common.{
  ℕ, suc, String, Bool, true, false, ◌||◌, Option, none, some, List, [], ◌∷◌, ◌++◌, includes,
  if◌then◌else◌,
}
use samdi.Common.Maps.{get, set, remove, update_at}
use samdi.ControlPlane.Db.{Task}
use samdi.Domain.{TaskReport}
use samdi.Worker.State.{WorkerState}
use samdi.Worker.Activity.{ActivityLog, push}

pub data LocalReport : Type 0 where
  completed : Option String → LocalReport
  failed : String → LocalReport
  ask : String → LocalReport

pub data AskDecision : Type 0 where
  approve deny : AskDecision

pub data WorkerPhase : Type 0 where
  gate agent_running awaiting_approval reporting : WorkerPhase

pub record CurrentTask : Type 0 where
  pub task_id : String
  pub label : String
  pub phase : WorkerPhase
  pub started_at : ℕ

pub record PendingApproval : Type 0 where
  pub task_id : String
  pub question : String
  pub asked_at : ℕ

-- `respondDecision` is the number of the HTTP request that waits for the decision.
pub record QueueItem : Type 0 where
  pub report : LocalReport
  pub respond_decision : Option ℕ

pub record ReportQueue : Type 0 where
  pub items : List QueueItem
  pub waiter : Bool

pub data WorkerError : Type 0 where
  report_refused : WorkerError
  unknown_default_agent : String → WorkerError
  not_an_adapter : String → WorkerError

-- How a call of `processOne` that has a task ends.
pub data Ending : Type 0 where
  returned_true : Ending
  threw : WorkerError → Ending

-- What comes after `await client.report(…)`.
pub data Next : Type 0 where
  denied_by_gate : String → Next
  waits_for_start : String → Next
  not_approved : Next
  starts_agent : String → Next
  completes : Option String → Next
  fails : String → Next
  waits_for_user : QueueItem → String → Next
  resumes : Next
  denied_by_user : Next

-- The `await` at which a call of `processOne` stands. A promise is `none` until it is resolved.
pub data Stage : Type 0 where
  evaluating : Stage
  sending : TaskReport → Next → Stage
  awaiting_start : Option AskDecision → Stage
  awaiting_report : Option (Option QueueItem) → Stage
  awaiting_user : QueueItem → Option AskDecision → Stage
  ended : Ending → Stage

-- A log of what a call has done, the latest first.
pub data Entry : Type 0 where
  sent : TaskReport → Entry
  launched : String → Entry
  heard : AskDecision → Entry

-- A call of `processOne` from its claim on: its local variables, and the log.
pub record Run : Type 0 where
  pub task : Task
  pub instruction : String
  pub stage : Stage
  pub queue : ReportQueue
  pub log : List Entry

-- The maps of the class, the promises being those of the runs that the numbers name; with what
-- `deps` reads and writes.
pub record Worker : Type 0 where
  pub queues : List (String × ℕ)
  pub current_tasks : List (String × CurrentTask)
  pub pending_approvals : List (String × PendingApproval)
  pub approval_resolvers : List (String × ℕ)
  pub agent_overrides : List (String × String)
  pub runs : ℕ → Option Run
  pub next_run : ℕ
  pub next_request : ℕ
  pub answers : List (ℕ × AskDecision)
  pub settings : WorkerState
  pub activity : ActivityLog
  pub clock : ℕ

-- The constructor
unfoldable pub new_worker : WorkerState → ActivityLog → ℕ → Worker
new_worker settings activity t = record {
  queues = [];
  current_tasks = [];
  pending_approvals = [];
  approval_resolvers = [];
  agent_overrides = [];
  runs = λ r. none;
  next_run = 0;
  next_request = 0;
  answers = [];
  settings = settings;
  activity = activity;
  clock = t;
}

-- `activity.push(type, taskId, detail)`
abbrev pub note : String → Option String → Option String → Worker → Worker
note type task_id detail w = record w {
  activity =
      push (record { at = w.clock; type = type; task_id = task_id; detail = detail }) w.activity;
}

abbrev pub put_run : ℕ → Run → Worker → Worker
put_run r run w = record w { runs = update_at w.runs r (some run) }

abbrev phase_set :
    String
    → WorkerPhase
    → Option CurrentTask
    → List (String × CurrentTask)
    → List (String × CurrentTask)
phase_set id phase none tasks = tasks
phase_set id phase (some current) tasks = set id (record current { phase = phase }) tasks

abbrev pub set_phase : String → WorkerPhase → Worker → Worker
set_phase id phase w = record w {
  current_tasks = phase_set id phase (get id w.current_tasks) w.current_tasks;
}

-- `waitForApproval`, up to its `await`
abbrev pub wait_for_approval : ℕ → String → String → Worker → Worker
wait_for_approval r id question w = record w {
  pending_approvals =
      set id (record { task_id = id; question = question; asked_at = w.clock }) w.pending_approvals;
  approval_resolvers = set id r w.approval_resolvers;
}

-- Its `finally`
abbrev pub approval_over : String → Worker → Worker
approval_over id w = record w {
  pending_approvals = remove id w.pending_approvals;
  approval_resolvers = remove id w.approval_resolvers;
}

-- `ReportQueue.push`. A waiter takes the item, and else it is queued.
abbrev pub hand_over : QueueItem → Stage → Stage
hand_over item (awaiting_report none) = awaiting_report (some (some item))
hand_over item stage = stage

unfoldable pub push_item : QueueItem → Run → Run
push_item item run =
    if run.queue.waiter
    then record run {
      queue = record run.queue { waiter = false };
      stage = hand_over item run.stage;
    }
    else record run { queue = record run.queue { items = run.queue.items ++ item ∷ [] } }

-- `ReportQueue.next`
abbrev pub next_of : List QueueItem → Run → Run
next_of [] run = record run {
  queue = record { items = []; waiter = true };
  stage = awaiting_report none;
}
next_of (item ∷ items) run = record run {
  queue = record run.queue { items = items };
  stage = awaiting_report (some (some item));
}

unfoldable pub next_report : Run → Run
next_report run = next_of run.queue.items run

-- What the timer of `next` does
abbrev pub timed_out : Stage → Run → Run
timed_out (awaiting_report none) run = record run {
  queue = record run.queue { waiter = false };
  stage = awaiting_report (some none);
}
timed_out stage run = run

pub data LocalAnswer : Type 0 where
  no_task : LocalAnswer
  accepted : LocalAnswer
  deferred : ℕ → LocalAnswer

abbrev pub with_run : (Run → Run) → ℕ → Option Run → Worker → Worker
with_run f r none w = w
with_run f r (some run) w = put_run r (f run) w

abbrev pub to_queue : ℕ → LocalReport → Worker → LocalAnswer × Worker
to_queue r (ask question) w = (
  deferred w.next_request,
  with_run (push_item (record { report = ask question; respond_decision = some w.next_request })) r
      (w.runs r) (record w { next_request = suc w.next_request }),
)
to_queue r report w = (
  accepted,
  with_run (push_item (record { report = report; respond_decision = none })) r (w.runs r) w,
)

abbrev pub local_report_to : Option ℕ → LocalReport → Worker → LocalAnswer × Worker
local_report_to none report w = (no_task, w)
local_report_to (some r) report w = to_queue r report w

unfoldable pub handle_local_report : String → LocalReport → Worker → LocalAnswer × Worker
unfolding push_item
handle_local_report id report w = local_report_to (get id w.queues) report w

abbrev pub chosen : Option PendingApproval → String → String → Worker → Bool × Worker
chosen none id agent w = (false, w)
chosen (some _) id agent w = (true, record w { agent_overrides = set id agent w.agent_overrides })

unfoldable pub choose_agent : String → String → Worker → Bool × Worker
choose_agent id agent w = chosen (get id w.pending_approvals) id agent w

abbrev pub chosen_agent : String → Worker → Option String
chosen_agent id w = get id w.agent_overrides

-- A promise is resolved once.
abbrev pub resolve : AskDecision → Stage → Stage
resolve d (awaiting_start none) = awaiting_start (some d)
resolve d (awaiting_user item none) = awaiting_user item (some d)
resolve d stage = stage

abbrev pub resolved : AskDecision → Run → Run
resolved d run = record run { stage = resolve d run.stage }

abbrev pub decide_with : Option ℕ → AskDecision → Worker → Bool × Worker
decide_with none d w = (false, w)
decide_with (some r) d w = (true, with_run (resolved d) r (w.runs r) w)

unfoldable pub decide : String → AskDecision → Worker → Bool × Worker
decide id d w = decide_with (get id w.approval_resolvers) d w
