-- ===== src/Worker/Process/Ongoing.antt =====
-- apps/worker/src/worker.ts: `currentTasks` from event to event.
use samdi.Common.{
  true, ℕ, suc, ◌≡◌, refl, sym, ap, ◌∙◌, String, Option, none, some, List, [], ◌∷◌, arith, inl, inr,
  Bool-cases, eq_iff, ◌==◌,
}
use samdi.Common.Maps.{
  set, update_at, get, is_some, same_number, same_number→eq, get-set, same_number_refl,
}
use samdi.ControlPlane.Db.{Task}
use samdi.Gateway.{StartGateDecision}
use samdi.Worker.Process.{
  LocalReport, AskDecision, CurrentTask, Run, Worker, push_item, timed_out, resolved, put_run,
  PendingApproval, with_run, handle_local_report, local_report_to, to_queue, decide, decide_with,
  choose_agent, chosen,
}
use samdi.Worker.Process.Steps.{
  claimed, Event, claim_answered, promise_resolved, report_taken, report_failed_to_send, lease_over,
  adapter_threw, agent_reported, user_chose, clock_moved, settings_changed, user_decided_on, step,
  run_events, failed_to_start, on_run, resume_run, take, refuse_run, end_wait, report_crash,
}
use samdi.Worker.Process.Registered.{IsRegistered, live}
use samdi.Worker.Process.Current.{
  IsCurrent, Current, goes_on, Moved-IsCurrent, resume-IsCurrent, taken-IsCurrent, refuse-IsCurrent,
  all,
}
use samdi.Worker.Process.Upkeep.{
  IsMild, push_item-IsMild, timed_out-IsMild, resolved-IsMild, step-IsRegistered,
}

mild-IsCurrent :
    (r : ℕ) (run run' : Run) (w : Worker)
    → w.runs r ≡ some run
    → IsMild run run'
    → IsCurrent w
    → IsCurrent (put_run r run' w)
mild-IsCurrent r run run' w found m cur =
    Moved-IsCurrent r run w.runs w.current_tasks _ _ found
      (goes_on run' refl m.task (λ h. m.lives ∙ h) (all w.current_tasks)) cur

to_run-IsCurrent :
    (f : Run → Run) (r : ℕ) (found : Option Run) (w : Worker)
    → w.runs r ≡ found
    → ((run : Run) → IsMild run (f run))
    → IsCurrent w
    → IsCurrent (with_run f r found w)
to_run-IsCurrent f r none w e mild cur = cur
to_run-IsCurrent f r (some run) w e mild cur = mild-IsCurrent r run (f run) w e (mild run) cur

to_queue-IsCurrent :
    (r : ℕ) (report : LocalReport) (w : Worker) → IsCurrent w → IsCurrent (to_queue r report w).1
unfolding push_item
to_queue-IsCurrent r (LocalReport.ask _) w cur =
    to_run-IsCurrent _ r (w.runs r) (record w { next_request = suc w.next_request }) refl
      (push_item-IsMild _) cur
to_queue-IsCurrent r (LocalReport.completed _) w cur =
    to_run-IsCurrent _ r (w.runs r) w refl (push_item-IsMild _) cur
to_queue-IsCurrent r (LocalReport.failed _) w cur =
    to_run-IsCurrent _ r (w.runs r) w refl (push_item-IsMild _) cur

local_report-IsCurrent :
    (found : Option ℕ) (report : LocalReport) (w : Worker)
    → IsCurrent w
    → IsCurrent (local_report_to found report w).1
local_report-IsCurrent none report w cur = cur
local_report-IsCurrent (some r) report w cur = to_queue-IsCurrent r report w cur

decide-IsCurrent :
    (found : Option ℕ) (d : AskDecision) (w : Worker)
    → IsCurrent w
    → IsCurrent (decide_with found d w).1
decide-IsCurrent none d w cur = cur
decide-IsCurrent (some r) d w cur =
    to_run-IsCurrent (resolved d) r (w.runs r) w refl (resolved-IsMild d) cur

chosen-IsCurrent :
    (found : Option PendingApproval) (id agent : String) (w : Worker)
    → IsCurrent w
    → IsCurrent (chosen found id agent w).1
chosen-IsCurrent none id agent w cur = cur
chosen-IsCurrent (some _) id agent w cur = cur

-- A claim adds a run and the entry of its task.
new-Current :
    (runs : ℕ → Option Run) (tasks : List (String × CurrentTask)) (n : ℕ) (run : Run)
    (entry : CurrentTask) (k : String)
    → runs n ≡ none
    → run.task.id ≡ k
    → live run.stage ≡ true
    → Current runs tasks
    → Current (update_at runs n (some run)) (set k entry tasks)
new-Current runs tasks n run entry k new own lives cur id h = elim (Bool-cases (k == id)) [
  | inl same ↦ (n, run, rw (same_number_refl n) refl, own ∙ (eq_iff k id).0 same, lives)
  | inr other ↦
      let (j, x, ex, tx, lx) =
        cur id (ap is_some (sym (get-set k id entry tasks ∙ rw other refl)) ∙ h) in
      elim (Bool-cases (same_number n j)) [
        | inl here ↦
            let there : n ≡ j = same_number→eq n j here in
            let both : none ≡ some x = sym new ∙ (ap runs there ∙ ex) in cc
        | inr elsewhere ↦ (j, x, rw elsewhere ex, tx, lx)
      ]
]

claimed-IsCurrent :
    (task : Option Task) (payload : Option String) (w : Worker)
    → IsRegistered w
    → IsCurrent w
    → IsCurrent (claimed task payload w)
unfolding claimed
claimed-IsCurrent none payload w reg cur = cur
claimed-IsCurrent (some task) payload w reg cur =
    new-Current w.runs w.current_tasks w.next_run _ _ task.id (reg.unused w.next_run (omega arith))
      refl refl cur

on_run-IsCurrent :
    (f : ℕ → Run → Worker → Worker) (r : ℕ) (found : Option Run) (w : Worker)
    → w.runs r ≡ found
    → ((run : Run) → w.runs r ≡ some run → IsCurrent (f r run w))
    → IsCurrent w
    → IsCurrent (on_run f r found w)
on_run-IsCurrent f r none w e keep cur = cur
on_run-IsCurrent f r (some run) w e keep cur = keep run e

module _ (gate : Task → String → StartGateDecision) (adapters : List String) where
  step-IsCurrent :
      (e : Event) (w : Worker) → IsRegistered w → IsCurrent w → IsCurrent (step gate adapters e w)
  unfolding step handle_local_report decide choose_agent
  step-IsCurrent (claim_answered task payload) w reg cur = claimed-IsCurrent task payload w reg cur
  step-IsCurrent (promise_resolved r) w reg cur =
      on_run-IsCurrent (resume_run gate adapters) r (w.runs r) w refl
        (λ run found. resume-IsCurrent gate adapters r run w found cur run.stage) cur
  step-IsCurrent (report_taken r) w reg cur =
      on_run-IsCurrent (take gate adapters) r (w.runs r) w refl
        (λ run found. taken-IsCurrent gate adapters r run w found cur run.stage) cur
  step-IsCurrent (report_failed_to_send r) w reg cur =
      on_run-IsCurrent refuse_run r (w.runs r) w refl
        (λ run found. refuse-IsCurrent gate adapters r run w found cur run.stage) cur
  step-IsCurrent (lease_over r) w reg cur =
      on_run-IsCurrent end_wait r (w.runs r) w refl
        (λ run found.
          mild-IsCurrent r run (timed_out run.stage run) w found
            (timed_out-IsMild run run.stage refl) cur)
        cur
  step-IsCurrent (adapter_threw r err) w reg cur =
      on_run-IsCurrent (report_crash err) r (w.runs r) w refl
        (λ run found.
          mild-IsCurrent r run (push_item (failed_to_start err) run) w found
            (push_item-IsMild (failed_to_start err) run) cur)
        cur
  step-IsCurrent (agent_reported id report) w reg cur =
      local_report-IsCurrent (get id w.queues) report w cur
  step-IsCurrent (clock_moved n) w reg cur = cur
  step-IsCurrent (settings_changed settings) w reg cur = cur
  step-IsCurrent (user_chose id agent) w reg cur =
      chosen-IsCurrent (get id w.pending_approvals) id agent w cur
  step-IsCurrent (user_decided_on id d) w reg cur =
      decide-IsCurrent (get id w.approval_resolvers) d w cur

  pub run_events-IsCurrent :
      (es : List Event) (w : Worker)
      → IsRegistered w
      → IsCurrent w
      → IsCurrent (run_events gate adapters es w)
  unfolding run_events
  run_events-IsCurrent [] w reg cur = cur
  run_events-IsCurrent (e ∷ es) w reg cur =
      run_events-IsCurrent es _ (step-IsRegistered gate adapters e w reg)
        (step-IsCurrent e w reg cur)
