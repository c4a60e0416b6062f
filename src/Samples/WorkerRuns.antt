-- ===== src/Samples/WorkerRuns.antt =====
-- A worker with the approval gate and one adapter, and what it does with one task.
use samdi.Common.{
  ℕ, ◌≡◌, refl, sym, ap, ◌∙◌, Bool-cases, String, true, false, none, some, List, [], ◌∷◌, inl, inr,
  ◌⊎◌,
}
use samdi.Common.Maps.{get, same_number, same_number→eq}
use samdi.Domain.{TaskStatus, report_rejected, report_started, report_waiting, report_completed}
use samdi.ControlPlane.Db.{Task}
use samdi.Gateway.{StartGateDecision, evaluate, default_approval_policy, preview}
use samdi.Common.Texts.{is_blank, text_length}
use samdi.Worker.State.{WorkerState, nothing_changed, absent}
use samdi.Worker.Activity.{ActivityLog}
use samdi.Worker.Process.{
  LocalReport, AskDecision, awaiting_start, awaiting_report, ended, returned_true, Run, Worker,
  new_worker, decide, next_report, sent, heard, launched,
}
use samdi.Worker.Process.Steps.{
  Event, claim_answered, promise_resolved, report_taken, lease_over, agent_reported,
  user_decided_on, run_events, claimed, judge, go_on, start_decided,
}
use samdi.Worker.Process.Guarantees.{HasConsent, launch-HasConsent}
use samdi.Worker.Process.Registered.{live}
use samdi.Worker.Process.Protocol.{verdict_of}
use samdi.Worker.Process.Promises.{Waits, Unknown, decide_reaches_call, ended_leaves_nothing}
use samdi.Worker.Process.Delivery.{report_ends_call, given_up_strands_second, last_completed}

abbrev pub gate : Task → String → StartGateDecision
gate = evaluate default_approval_policy

abbrev pub settings : WorkerState
settings = record {
  configured = record { labels = "ops" ∷ []; concurrency = 2; default_agent = "mock" };
  overrides = nothing_changed;
  file = absent;
}

abbrev pub activity : ActivityLog
activity = record { entries = []; capacity = 200 }

abbrev task : Task
task = record {
  id = "t1";
  channel_id = "demo";
  label = "ops";
  payload_ref = "p1";
  status = TaskStatus.claimed;
  agent = none;
  thread_id = none;
  worker_id = some "w1";
  lease_expires_at = some 600000;
  created_at = 0;
  updated_at = 0;
}

-- Claimed, asked about, approved, started.
abbrev until_started : List Event
until_started =
    claim_answered (some task) (some "do it")
    ∷ promise_resolved 0
    ∷ report_taken 0
    ∷ user_decided_on "t1" AskDecision.approve
    ∷ promise_resolved 0
    ∷ report_taken 0
    ∷ []

abbrev question : String
question = "이 작업을 시작할까요?\n\ndo it"

abbrev working : Run
working = record {
  task = task;
  instruction = "do it";
  stage = awaiting_report none;
  queue = record { items = []; waiter = true };
  log =
      launched "mock"
      ∷ sent report_started
      ∷ heard AskDecision.approve
      ∷ sent (report_waiting question)
      ∷ [];
}

abbrev at_work : Worker
at_work = run_events gate ("mock" ∷ []) until_started (new_worker settings activity 0)

at_work-run : at_work.runs 0 ≡ some working
unfolding run_events new_worker evaluate is_blank preview text_length decide claimed judge go_on
    start_decided next_report
at_work-run = refl

launch-HasConsent_example : HasConsent (verdict_of gate ("mock" ∷ []) working) working.log
launch-HasConsent_example =
    launch-HasConsent gate ("mock" ∷ []) settings activity 0 until_started 0 working at_work-run

decide_reaches_call_example :
    Waits gate ("mock" ∷ []) settings activity 0 until_started "t1"
    ⊎ Unknown gate ("mock" ∷ []) settings activity 0 until_started "t1"
decide_reaches_call_example =
    decide_reaches_call gate ("mock" ∷ []) settings activity 0 until_started "t1"

-- Denied, and with it over.
abbrev denied : List Event
denied =
    claim_answered (some task) (some "do it")
    ∷ promise_resolved 0
    ∷ report_taken 0
    ∷ user_decided_on "t1" AskDecision.deny
    ∷ promise_resolved 0
    ∷ report_taken 0
    ∷ []

abbrev at_end : Worker
at_end = run_events gate ("mock" ∷ []) denied (new_worker settings activity 0)

abbrev over : Run
over = record {
  task = task;
  instruction = "do it";
  stage = ended returned_true;
  queue = record { items = []; waiter = false };
  log =
      sent (report_rejected "사용자가 시작을 승인하지 않았다")
      ∷ heard AskDecision.deny
      ∷ sent (report_waiting question)
      ∷ [];
}

at_end-runs :
    (at_end.runs 0 ≡ some over) × ((r : ℕ) → same_number 0 r ≡ false → at_end.runs r ≡ none)
unfolding run_events new_worker evaluate is_blank preview text_length decide claimed judge go_on
    start_decided
at_end-runs = (refl, λ r other. rw other refl)

at_end-over :
    (r : ℕ) (run : Run) → at_end.runs r ≡ some run → run.task.id ≡ "t1" → live run.stage ≡ false
at_end-over r run e i = elim (Bool-cases (same_number 0 r)) [
  | inl same ↦
      let there : 0 ≡ r = same_number→eq 0 r same in
      let both : some over ≡ some run = sym at_end-runs.0 ∙ (ap at_end.runs there ∙ e) in
      let eq : over ≡ run = cc in ap (λ (x : Run). live x.stage) (sym eq)
  | inr other ↦ let both : none ≡ some run = sym (at_end-runs.1 r other) ∙ e in cc
]

ended_leaves_nothing_example :
    (get "t1" at_end.queues ≡ none)
    × (get "t1" at_end.pending_approvals ≡ none)
    × (get "t1" at_end.approval_resolvers ≡ none)
    × (get "t1" at_end.current_tasks ≡ none)
ended_leaves_nothing_example =
    ended_leaves_nothing gate ("mock" ∷ []) settings activity 0 denied "t1" at_end-over

at_work-queue : get "t1" at_work.queues ≡ some 0
unfolding run_events new_worker evaluate is_blank preview text_length decide claimed judge go_on
    start_decided next_report
at_work-queue = refl

report_ends_call_example :
    (run_events gate
        ("mock" ∷ [])
        (agent_reported "t1" (LocalReport.completed none)
          ∷ promise_resolved 0
          ∷ report_taken 0
          ∷ [])
        at_work).runs
      0
    ≡ some (record working {
      stage = ended returned_true;
      queue = record { items = []; waiter = false };
      log = sent (report_completed none) ∷ working.log;
    })
report_ends_call_example =
    report_ends_call gate ("mock" ∷ []) at_work "t1" 0 working at_work-queue at_work-run refl refl
      (LocalReport.completed none) (report_completed none) last_completed

-- The task was stalled and retried meanwhile, and this worker claims it again.
abbrev claimed_again : Worker
claimed_again =
    run_events gate ("mock" ∷ [])
      (claim_answered (some task) (some "do it") ∷ promise_resolved 1 ∷ report_taken 1 ∷ []) at_work

abbrev waiting_run : Run
waiting_run = record {
  task = task;
  instruction = "do it";
  stage = awaiting_start none;
  queue = record { items = []; waiter = false };
  log = sent (report_waiting question) ∷ [];
}

claimed_again-runs :
    (claimed_again.runs 0 ≡ some working) × (claimed_again.runs 1 ≡ some waiting_run)
unfolding run_events new_worker evaluate is_blank preview text_length decide claimed judge go_on
    start_decided next_report
claimed_again-runs = (refl, refl)

given_up_strands_second_example :
    let w' = run_events gate ("mock" ∷ []) (lease_over 0 ∷ promise_resolved 0 ∷ []) claimed_again in
    (w'.runs 1 ≡ some waiting_run) × (decide "t1" AskDecision.approve w' ≡ (false, w'))
given_up_strands_second_example =
    given_up_strands_second gate ("mock" ∷ []) claimed_again 0 working 1 waiting_run
      claimed_again-runs.0 refl refl claimed_again-runs.1 refl refl AskDecision.approve
