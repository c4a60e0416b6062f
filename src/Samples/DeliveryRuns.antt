-- ===== src/Samples/DeliveryRuns.antt =====
-- A task from its claim through the worker back to the control plane.
use samdi.Common.{◌≡◌, refl, false, none, some, List, [], ◌∷◌, returned, final}
use samdi.Domain.{TaskStatus, report_started, report_waiting, report_completed}
use samdi.Gateway.{evaluate, preview}
use samdi.Common.Texts.{is_blank, text_length}
use samdi.ControlPlane.Db.{Db}
use samdi.ControlPlane.Tasks.{create_task, claim_next}
use samdi.ControlPlane.Tasks.Invariant.{IsValid}
use samdi.ControlPlane.Tasks.Refinement.{after, create_call}
use samdi.ControlPlane.Tasks.History.{run, run-IsValid}
use samdi.Worker.Process.{
  AskDecision, LocalReport, ended, returned_true, Run, new_worker, decide, handle_local_report,
  push_item, next_report, sent, heard, launched,
}
use samdi.Worker.Process.Steps.{
  Event, claim_answered, promise_resolved, report_taken, agent_reported, user_decided_on,
  run_events, claimed, judge, go_on, start_decided,
}
use samdi.Worker.Process.Guarantees.{status_after}
use samdi.Worker.Process.Acceptance.{ArrivesAt, deliver, reports_are_accepted}
use samdi.Samples.Start.{uuid, uuid-IsInjective, start, start-IsValid}
use samdi.Samples.TaskRuns.{first_id, first_task}
use samdi.Samples.WorkerRuns.{settings, activity, gate}

abbrev pub created : Db
created =
    run uuid
      ((0, create_call "demo" "ops" "hello" none none)
        ∷ (15, create_call "demo" "ops" "again" none none)
        ∷ [])
      start

created-IsValid : IsValid uuid created
created-IsValid =
    run-IsValid uuid uuid-IsInjective
      ((0, create_call "demo" "ops" "hello" none none)
        ∷ (15, create_call "demo" "ops" "again" none none)
        ∷ [])
      start start-IsValid

abbrev handed_out : Db
handed_out = final (claim_next uuid "w1" ("ops" ∷ []) 600 created)

claim_first : claim_next uuid "w1" ("ops" ∷ []) 600 created ≡ returned (some first_task) handed_out
unfolding run after create_task claim_next
claim_first = refl

-- Claimed, approved, started and completed.
abbrev to_completion : List Event
to_completion =
    claim_answered (some first_task) (some "hello")
    ∷ promise_resolved 0
    ∷ report_taken 0
    ∷ user_decided_on first_id AskDecision.approve
    ∷ promise_resolved 0
    ∷ report_taken 0
    ∷ agent_reported first_id (LocalReport.completed (some "done"))
    ∷ promise_resolved 0
    ∷ report_taken 0
    ∷ []

abbrev completed_run : Run
completed_run = record {
  task = first_task;
  instruction = "hello";
  stage = ended returned_true;
  queue = record { items = []; waiter = false };
  log =
      sent (report_completed (some "done"))
      ∷ launched "mock"
      ∷ sent report_started
      ∷ heard AskDecision.approve
      ∷ sent (report_waiting "이 작업을 시작할까요?\n\nhello")
      ∷ [];
}

completed_run-made :
    (run_events gate ("mock" ∷ []) to_completion (new_worker settings activity 0)).runs 0
    ≡ some completed_run
unfolding run_events new_worker evaluate is_blank preview text_length decide claimed judge go_on
    start_decided next_report handle_local_report push_item
completed_run-made = refl

reports_are_accepted_example :
    (s : TaskStatus) × (status_after completed_run.log ≡ some s)
    × ArrivesAt uuid
        (λ k. 7)
        first_id
        s
        (deliver uuid (λ k. 7) first_id completed_run.log handed_out)
reports_are_accepted_example =
    reports_are_accepted uuid (λ k. 7) uuid-IsInjective "w1" ("ops" ∷ []) 600 created handed_out
      created-IsValid gate ("mock" ∷ []) settings activity 0 to_completion 0 completed_run
      completed_run-made claim_first
