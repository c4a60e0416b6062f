-- ===== src/Worker/Process/Upkeep.antt =====
-- apps/worker/src/worker.ts: the maps of the class `Worker`, from event to event.
use samdi.Common.{
  ℕ, suc, ◌≡◌, refl, sym, ap, ◌∙◌, String, Option, none, some, List, [], ◌∷◌, arith, inl, inr,
  Bool-cases,
}
use samdi.Common.Maps.{get}
use samdi.ControlPlane.Db.{Task}
use samdi.Gateway.{StartGateDecision}
use samdi.Worker.Process.{
  LocalReport, AskDecision, QueueItem, Stage, awaiting_start, awaiting_report, awaiting_user, Run,
  Worker, push_item, timed_out, resolved, resolve, hand_over, put_run, PendingApproval, with_run,
  handle_local_report, local_report_to, to_queue, decide, decide_with, choose_agent, chosen,
}
use samdi.Worker.Process.Steps.{
  claimed, Event, claim_answered, promise_resolved, report_taken, report_failed_to_send, lease_over,
  adapter_threw, agent_reported, user_chose, clock_moved, settings_changed, user_decided_on, step,
  run_events, failed_to_start, on_run, resume_run, take, refuse_run, end_wait, report_crash,
}
use samdi.Worker.Process.Registered.{waiting, live, IsRegistered, Names-new}
use samdi.Worker.Process.Entries.{quiet}
use samdi.Worker.Process.Registration.{resume-IsRegistered, taken-IsRegistered, refuse-IsRegistered}

live-hand_over : (item : QueueItem) (stage : Stage) → live (hand_over item stage) ≡ live stage
live-hand_over item (awaiting_report none) = refl
live-hand_over item _ = refl

waiting-hand_over :
    (item : QueueItem) (stage : Stage) → waiting (hand_over item stage) ≡ waiting stage
waiting-hand_over item (awaiting_report none) = refl
waiting-hand_over item _ = refl

live-resolve : (d : AskDecision) (stage : Stage) → live (resolve d stage) ≡ live stage
live-resolve d (awaiting_start none) = refl
live-resolve d (awaiting_user item none) = refl
live-resolve d _ = refl

waiting-resolve : (d : AskDecision) (stage : Stage) → waiting (resolve d stage) ≡ waiting stage
waiting-resolve d (awaiting_start none) = refl
waiting-resolve d (awaiting_user item none) = refl
waiting-resolve d _ = refl

-- A change of a run that keeps what the maps say of it.
pub record IsMild (run run' : Run) : Type 0 where
  pub task : run'.task.id ≡ run.task.id
  pub lives : live run'.stage ≡ live run.stage
  pub waits : waiting run'.stage ≡ waiting run.stage

pub push_item-IsMild : (item : QueueItem) (run : Run) → IsMild run (push_item item run)
unfolding push_item
push_item-IsMild item run = elim (Bool-cases run.queue.waiter) [
  | inl e ↦ rw e (record {
    task = refl;
    lives = live-hand_over item run.stage;
    waits = waiting-hand_over item run.stage;
  })
  | inr e ↦ rw e (record { task = refl; lives = refl; waits = refl })
]

pub timed_out-IsMild :
    (run : Run) (stage : Stage) → run.stage ≡ stage → IsMild run (timed_out stage run)
timed_out-IsMild run (awaiting_report none) at = record {
  task = refl;
  lives = sym (ap live at);
  waits = sym (ap waiting at);
}
timed_out-IsMild run _ at = record { task = refl; lives = refl; waits = refl }

pub resolved-IsMild : (d : AskDecision) (run : Run) → IsMild run (resolved d run)
resolved-IsMild d run = record {
  task = refl;
  lives = live-resolve d run.stage;
  waits = waiting-resolve d run.stage;
}

mild-IsRegistered :
    (r : ℕ) (run run' : Run) (w : Worker)
    → w.runs r ≡ some run
    → IsMild run run'
    → IsRegistered w
    → IsRegistered (put_run r run' w)
mild-IsRegistered r run run' w found m reg =
    quiet r run run' w (put_run r run' w) found reg m.task refl refl (λ h. m.lives ∙ h) refl refl
      refl (inr (λ h. m.waits ∙ h))

to_run-IsRegistered :
    (f : Run → Run) (r : ℕ) (found : Option Run) (w : Worker)
    → w.runs r ≡ found
    → ((run : Run) → IsMild run (f run))
    → IsRegistered w
    → IsRegistered (with_run f r found w)
to_run-IsRegistered f r none w e mild reg = reg
to_run-IsRegistered f r (some run) w e mild reg = mild-IsRegistered r run (f run) w e (mild run) reg

to_queue-IsRegistered :
    (r : ℕ) (report : LocalReport) (w : Worker)
    → IsRegistered w
    → IsRegistered (to_queue r report w).1
unfolding push_item
to_queue-IsRegistered r (LocalReport.ask _) w reg =
    to_run-IsRegistered _ r (w.runs r) (record w { next_request = suc w.next_request }) refl
      (push_item-IsMild _) reg
to_queue-IsRegistered r (LocalReport.completed _) w reg =
    to_run-IsRegistered _ r (w.runs r) w refl (push_item-IsMild _) reg
to_queue-IsRegistered r (LocalReport.failed _) w reg =
    to_run-IsRegistered _ r (w.runs r) w refl (push_item-IsMild _) reg

local_report-IsRegistered :
    (found : Option ℕ) (report : LocalReport) (w : Worker)
    → IsRegistered w
    → IsRegistered (local_report_to found report w).1
local_report-IsRegistered none report w reg = reg
local_report-IsRegistered (some r) report w reg = to_queue-IsRegistered r report w reg

decide-IsRegistered :
    (found : Option ℕ) (d : AskDecision) (w : Worker)
    → IsRegistered w
    → IsRegistered (decide_with found d w).1
decide-IsRegistered none d w reg = reg
decide-IsRegistered (some r) d w reg =
    to_run-IsRegistered (resolved d) r (w.runs r) w refl (resolved-IsMild d) reg

chosen-IsRegistered :
    (found : Option PendingApproval) (id agent : String) (w : Worker)
    → IsRegistered w
    → IsRegistered (chosen found id agent w).1
chosen-IsRegistered none id agent w reg = reg
chosen-IsRegistered (some _) id agent w reg = reg

claimed-IsRegistered :
    (task : Option Task) (payload : Option String) (w : Worker)
    → IsRegistered w
    → IsRegistered (claimed task payload w)
unfolding claimed
claimed-IsRegistered none payload w reg = reg
claimed-IsRegistered (some task) payload w reg =
    let new : w.runs w.next_run ≡ none = reg.unused w.next_run (omega arith) in
    record {
      queued = Names-new live w.queues w.runs w.next_run _ new reg.queued;
      resolvable = Names-new waiting w.approval_resolvers w.runs w.next_run _ new reg.resolvable;
      asked = reg.asked;
      unused = λ j h. ground (arith, reg.unused j);
    }

on_run-IsRegistered :
    (f : ℕ → Run → Worker → Worker) (r : ℕ) (found : Option Run) (w : Worker)
    → w.runs r ≡ found
    → ((run : Run) → w.runs r ≡ some run → IsRegistered (f r run w))
    → IsRegistered w
    → IsRegistered (on_run f r found w)
on_run-IsRegistered f r none w e keep reg = reg
on_run-IsRegistered f r (some run) w e keep reg = keep run e

module _ (gate : Task → String → StartGateDecision) (adapters : List String) where
  pub step-IsRegistered :
      (e : Event) (w : Worker) → IsRegistered w → IsRegistered (step gate adapters e w)
  unfolding step handle_local_report decide choose_agent
  step-IsRegistered (claim_answered task payload) w reg = claimed-IsRegistered task payload w reg
  step-IsRegistered (promise_resolved r) w reg =
      on_run-IsRegistered (resume_run gate adapters) r (w.runs r) w refl
        (λ run found. resume-IsRegistered gate adapters r run w found reg run.stage refl) reg
  step-IsRegistered (report_taken r) w reg =
      on_run-IsRegistered (take gate adapters) r (w.runs r) w refl
        (λ run found. taken-IsRegistered gate adapters r run w found reg run.stage refl) reg
  step-IsRegistered (report_failed_to_send r) w reg =
      on_run-IsRegistered refuse_run r (w.runs r) w refl
        (λ run found. refuse-IsRegistered gate adapters r run w found reg run.stage refl) reg
  step-IsRegistered (lease_over r) w reg =
      on_run-IsRegistered end_wait r (w.runs r) w refl
        (λ run found.
          mild-IsRegistered r run (timed_out run.stage run) w found
            (timed_out-IsMild run run.stage refl) reg)
        reg
  step-IsRegistered (adapter_threw r err) w reg =
      on_run-IsRegistered (report_crash err) r (w.runs r) w refl
        (λ run found.
          mild-IsRegistered r run (push_item (failed_to_start err) run) w found
            (push_item-IsMild (failed_to_start err) run) reg)
        reg
  step-IsRegistered (agent_reported id report) w reg =
      local_report-IsRegistered (get id w.queues) report w reg
  step-IsRegistered (clock_moved n) w reg = reg
  step-IsRegistered (settings_changed settings) w reg = reg
  step-IsRegistered (user_chose id agent) w reg =
      chosen-IsRegistered (get id w.pending_approvals) id agent w reg
  step-IsRegistered (user_decided_on id d) w reg =
      decide-IsRegistered (get id w.approval_resolvers) d w reg

  pub run_events-IsRegistered :
      (es : List Event) (w : Worker) → IsRegistered w → IsRegistered (run_events gate adapters es w)
  unfolding run_events
  run_events-IsRegistered [] w reg = reg
  run_events-IsRegistered (e ∷ es) w reg = run_events-IsRegistered es _ (step-IsRegistered e w reg)
