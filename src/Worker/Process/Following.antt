-- ===== src/Worker/Process/Following.antt =====
-- apps/worker/src/worker.ts: each call of `processOne` beside the protocol, from event to event.
use samdi.Common.{
  ℕ, suc, ◌≡◌, subst, refl, sym, ◌∙◌, String, false, Option, none, some, List, [], ◌∷◌, inl, inr,
  Bool-cases,
}
use samdi.Common.Maps.{get, update_at, same_number}
use samdi.ControlPlane.Db.{Task}
use samdi.Gateway.{StartGateDecision}
use samdi.Worker.Process.{
  LocalReport, AskDecision, QueueItem, Stage, evaluating, sending, awaiting_start, awaiting_report,
  awaiting_user, Run, Worker, push_item, hand_over, timed_out, resolved, resolve, put_run,
  handle_local_report, local_report_to, to_queue, decide, decide_with, choose_agent, chosen,
  with_run, PendingApproval,
}
use samdi.Worker.Process.Steps.{
  judge, resume, taken, refuse, claimed, Event, claim_answered, promise_resolved, report_taken,
  report_failed_to_send, lease_over, adapter_threw, agent_reported, user_chose, clock_moved,
  settings_changed, user_decided_on, step, run_events, failed_to_start, resume_run, take,
  refuse_run, end_wait, report_crash, on_run,
}
use samdi.Worker.Process.Protocol.{
  Position, fresh, asking_start, working, asking, after, IsSound, Moves, listening, Trace, begin,
  verdict_of, Agrees,
}
use samdi.Worker.Process.Soundness.{
  judged-Moves, start_decided-Moves, next_arrived-Moves, user_decided-Moves, go_on-Moves,
  ended-IsSound,
}

Agrees-hand_over :
    (item : QueueItem) (stage : Stage) (p : Position)
    → Agrees stage p
    → Agrees (hand_over item stage) p
Agrees-hand_over item (awaiting_report none) p a = a
Agrees-hand_over item _ p a = a

listening-hand_over : (item : QueueItem) (stage : Stage) → listening (hand_over item stage) ≡ false
listening-hand_over item (awaiting_report none) = refl
listening-hand_over item _ = refl

Agrees-resolve :
    (d : AskDecision) (stage : Stage) (p : Position) → Agrees stage p → Agrees (resolve d stage) p
Agrees-resolve d (awaiting_start none) p a = a
Agrees-resolve d (awaiting_user item none) p a = a
Agrees-resolve d _ p a = a

listening-resolve :
    (d : AskDecision) (stage : Stage) → listening (resolve d stage) ≡ listening stage
listening-resolve d (awaiting_start none) = refl
listening-resolve d (awaiting_user item none) = refl
listening-resolve d _ = refl

module _ (gate : Task → String → StartGateDecision) (adapters : List String) where
  abbrev pub AllSound : (ℕ → Option Run) → Type 0
  AllSound runs = (j : ℕ) (run : Run) → runs j ≡ some run → IsSound gate adapters run

  Moves-AllSound :
      (r : ℕ) (runs runs' : ℕ → Option Run)
      → AllSound runs
      → Moves gate adapters r runs runs'
      → AllSound runs'
  Moves-AllSound r runs runs' all (run', p, s) j run e =
      let e' : update_at runs r (some run') j ≡ some run = rw p at e in
      elim (Bool-cases (same_number r j)) [
        | inl same ↦
            let at_r : some run' ≡ some run = rw same at e' in
            let eq : run' ≡ run = cc in subst (IsSound gate adapters) eq s
        | inr other ↦ all j run (rw other at e')
      ]

  pub push_item-IsSound :
      (item : QueueItem) (run : Run)
      → IsSound gate adapters run
      → IsSound gate adapters (push_item item run)
  unfolding push_item
  push_item-IsSound item run s = elim (Bool-cases run.queue.waiter) [
    | inl waiting ↦ rw waiting (record {
      position = s.position;
      trace = s.trace;
      agrees = Agrees-hand_over item run.stage s.position s.agrees;
      waits = sym (listening-hand_over item run.stage);
      empty = λ h. cc;
    })
    | inr idle ↦ rw idle (record {
      position = s.position;
      trace = s.trace;
      agrees = s.agrees;
      waits = sym idle ∙ s.waits;
      empty = λ h. cc;
    })
  ]

  timed_out-IsSound :
      (run : Run) (stage : Stage)
      → run.stage ≡ stage
      → IsSound gate adapters run
      → IsSound gate adapters (timed_out stage run)
  timed_out-IsSound run (awaiting_report none) at s = record {
    position = s.position;
    trace = s.trace;
    agrees = rw at at s.agrees;
    waits = refl;
    empty = λ h. cc;
  }
  timed_out-IsSound run _ at s = s

  resolved-IsSound :
      (d : AskDecision) (run : Run)
      → IsSound gate adapters run
      → IsSound gate adapters (resolved d run)
  resolved-IsSound d run s = record {
    position = s.position;
    trace = s.trace;
    agrees = Agrees-resolve d run.stage s.position s.agrees;
    waits = s.waits ∙ sym (listening-resolve d run.stage);
    empty = s.empty;
  }

  -- With the stage known, the position is, and whether there is a waiter.
  module _ (r : ℕ) (run : Run) (w : Worker) (all : AllSound w.runs)
      (s : IsSound gate adapters run) where
    at_position : (p : Position) → s.position ≡ p → Trace (verdict_of gate adapters run) run.log p
    at_position p e = subst (Trace (verdict_of gate adapters run) run.log) e s.trace

    resume-AllSound :
        (stage : Stage) → run.stage ≡ stage → AllSound (resume gate adapters stage r run w).runs
    unfolding judge
    resume-AllSound evaluating at = Moves-AllSound r w.runs _ all (
        judged-Moves gate adapters r run (rw at at s.waits) w _ refl
          (at_position fresh (rw at at s.agrees)))
    resume-AllSound (awaiting_start (some d)) at = Moves-AllSound r w.runs _ all (
        start_decided-Moves gate adapters r run w d (rw at at s.waits)
          (at_position asking_start (rw at at s.agrees)))
    resume-AllSound (awaiting_report (some next)) at = Moves-AllSound r w.runs _ all (
        next_arrived-Moves gate adapters r run (rw at at s.waits) w next
          (at_position working (rw at at s.agrees)))
    resume-AllSound (awaiting_user item (some d)) at = Moves-AllSound r w.runs _ all (
        user_decided-Moves gate adapters r run (rw at at s.waits) w d item
          (at_position asking (rw at at s.agrees)))
    resume-AllSound _ at = all

    taken-AllSound :
        (stage : Stage) → run.stage ≡ stage → AllSound (taken gate adapters stage r run w).runs
    taken-AllSound (sending report next) at = Moves-AllSound r w.runs _ all (
        go_on-Moves gate adapters r run (rw at at s.waits) w next
          (at_position (after next) (rw at at s.agrees)))
    taken-AllSound _ at = all

    refuse-AllSound : (stage : Stage) → run.stage ≡ stage → AllSound (refuse stage r run w).runs
    refuse-AllSound (sending report next) at =
        Moves-AllSound r w.runs _ all
          (_, refl, ended-IsSound gate adapters run _ (rw at at s.waits) s.position s.trace)
    refuse-AllSound _ at = all

    put_run-AllSound : (run' : Run) → IsSound gate adapters run' → AllSound (put_run r run' w).runs
    put_run-AllSound run' s' = Moves-AllSound r w.runs _ all (run', refl, s')

  to_run-AllSound :
      (f : Run → Run) (r : ℕ) (found : Option Run) (w : Worker)
      → w.runs r ≡ found
      → ((run : Run) → IsSound gate adapters run → IsSound gate adapters (f run))
      → AllSound w.runs
      → AllSound (with_run f r found w).runs
  to_run-AllSound f r none w e keep all = all
  to_run-AllSound f r (some run) w e keep all =
      let s = all r run e in put_run-AllSound r run w all s (f run) (keep run s)

  to_queue-AllSound :
      (r : ℕ) (report : LocalReport) (w : Worker)
      → AllSound w.runs
      → AllSound (to_queue r report w).1.runs
  unfolding push_item
  to_queue-AllSound r (LocalReport.ask _) w all =
      to_run-AllSound _ r (w.runs r) (record w { next_request = suc w.next_request }) refl
        (push_item-IsSound _) all
  to_queue-AllSound r (LocalReport.completed _) w all =
      to_run-AllSound _ r (w.runs r) w refl (push_item-IsSound _) all
  to_queue-AllSound r (LocalReport.failed _) w all =
      to_run-AllSound _ r (w.runs r) w refl (push_item-IsSound _) all

  local_report-AllSound :
      (found : Option ℕ) (report : LocalReport) (w : Worker)
      → AllSound w.runs
      → AllSound (local_report_to found report w).1.runs
  local_report-AllSound none report w all = all
  local_report-AllSound (some r) report w all = to_queue-AllSound r report w all

  decide-AllSound :
      (found : Option ℕ) (d : AskDecision) (w : Worker)
      → AllSound w.runs
      → AllSound (decide_with found d w).1.runs
  decide-AllSound none d w all = all
  decide-AllSound (some r) d w all =
      to_run-AllSound (resolved d) r (w.runs r) w refl (resolved-IsSound d) all

  chosen-AllSound :
      (found : Option PendingApproval) (id agent : String) (w : Worker)
      → AllSound w.runs
      → AllSound (chosen found id agent w).1.runs
  chosen-AllSound none id agent w all = all
  chosen-AllSound (some _) id agent w all = all

  claimed-AllSound :
      (task : Option Task) (payload : Option String) (w : Worker)
      → AllSound w.runs
      → AllSound (claimed task payload w).runs
  unfolding claimed
  claimed-AllSound none payload w all = all
  claimed-AllSound (some task) payload w all = Moves-AllSound w.next_run w.runs _ all (
    _,
    refl,
    record { position = fresh; trace = begin; agrees = refl; waits = refl; empty = λ h. cc },
  )

  on_run-AllSound :
      (f : ℕ → Run → Worker → Worker) (r : ℕ) (found : Option Run) (w : Worker)
      → w.runs r ≡ found
      → ((run : Run) → IsSound gate adapters run → AllSound (f r run w).runs)
      → AllSound w.runs
      → AllSound (on_run f r found w).runs
  on_run-AllSound f r none w e keep all = all
  on_run-AllSound f r (some run) w e keep all = keep run (all r run e)

  pub step-AllSound :
      (e : Event) (w : Worker) → AllSound w.runs → AllSound (step gate adapters e w).runs
  unfolding step handle_local_report decide choose_agent
  step-AllSound (claim_answered task payload) w all = claimed-AllSound task payload w all
  step-AllSound (promise_resolved r) w all =
      on_run-AllSound (resume_run gate adapters) r (w.runs r) w refl
        (λ run s. resume-AllSound r run w all s run.stage refl) all
  step-AllSound (report_taken r) w all =
      on_run-AllSound (take gate adapters) r (w.runs r) w refl
        (λ run s. taken-AllSound r run w all s run.stage refl) all
  step-AllSound (report_failed_to_send r) w all =
      on_run-AllSound refuse_run r (w.runs r) w refl
        (λ run s. refuse-AllSound r run w all s run.stage refl) all
  step-AllSound (lease_over r) w all =
      on_run-AllSound end_wait r (w.runs r) w refl
        (λ run s. put_run-AllSound r run w all s _ (timed_out-IsSound run run.stage refl s)) all
  step-AllSound (adapter_threw r err) w all =
      on_run-AllSound (report_crash err) r (w.runs r) w refl
        (λ run s. put_run-AllSound r run w all s _ (push_item-IsSound (failed_to_start err) run s))
        all
  step-AllSound (agent_reported id report) w all =
      local_report-AllSound (get id w.queues) report w all
  step-AllSound (clock_moved n) w all = all
  step-AllSound (settings_changed settings) w all = all
  step-AllSound (user_chose id agent) w all =
      chosen-AllSound (get id w.pending_approvals) id agent w all
  step-AllSound (user_decided_on id d) w all = decide-AllSound (get id w.approval_resolvers) d w all

  pub run_events-AllSound :
      (es : List Event) (w : Worker)
      → AllSound w.runs
      → AllSound (run_events gate adapters es w).runs
  unfolding run_events
  run_events-AllSound [] w all = all
  run_events-AllSound (e ∷ es) w all = run_events-AllSound es _ (step-AllSound e w all)
