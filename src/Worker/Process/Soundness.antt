-- ===== src/Worker/Process/Soundness.antt =====
-- apps/worker/src/worker.ts: the steps of `processOne` beside the protocol.
use samdi.Common.{
  ℕ, ◌≡◌, refl, String, false, Option, none, some, List, [], ◌∷◌, inl, inr, Bool-cases, includes,
}
use samdi.Common.Maps.{get}
use samdi.ControlPlane.Db.{Task}
use samdi.Domain.{TaskReport, report_started}
use samdi.Gateway.{Verdict, StartGateDecision}
use samdi.Worker.State.{default_agent_of}
use samdi.Worker.Process.{
  LocalReport, AskDecision, QueueItem, Next, denied_by_gate, waits_for_start, not_approved,
  starts_agent, completes, fails, waits_for_user, resumes, denied_by_user, sending, awaiting_start,
  awaiting_user, ended, Entry, sent, launched, heard, Run, Worker, note, approval_over, next_of,
  next_report, Ending,
}
use samdi.Worker.Process.Steps.{
  agent_name, or_else, in_registry, prepare, judged, launch, go_on, start_decided, next_arrived,
  consume, user_decided,
}
use samdi.Worker.Process.Protocol.{
  Position, fresh, asking_start, approved, started, working, asking, closed, Trace, reject,
  ask_start, start_allowed, approve_start, refuse_start, reject_refused, start_approved,
  launch_agent, ask_user, complete, fail, approve_ask, deny_ask, resume_agent, fail_denied,
  verdict_of, IsSound, Moves, after,
}

module _ (gate : Task → String → StartGateDecision) (adapters : List String) where
  -- With no waiter a call may send what the automaton allows, and end.
  sending-IsSound :
      (run : Run) (log : List Entry) (report : TaskReport) (next : Next)
      → run.queue.waiter ≡ false
      → Trace (verdict_of gate adapters run) (sent report ∷ log) (after next)
      → IsSound gate adapters (record run { stage = sending report next; log = sent report ∷ log })
  sending-IsSound run log report next idle e = record {
    position = after next;
    trace = e;
    agrees = refl;
    waits = idle;
    empty = λ h. cc;
  }

  pub ended-IsSound :
      (run : Run) (ending : Ending)
      → run.queue.waiter ≡ false
      → (p : Position) → Trace (verdict_of gate adapters run) run.log p
      → IsSound gate adapters (record run { stage = ended ending })
  ended-IsSound run ending idle p e = record {
    position = p;
    trace = e;
    agrees = tt;
    waits = idle;
    empty = λ h. cc;
  }

  asking_start-IsSound :
      (run : Run)
      → run.queue.waiter ≡ false
      → Trace (verdict_of gate adapters run) run.log asking_start
      → IsSound gate adapters (record run { stage = awaiting_start none })
  asking_start-IsSound run idle e = record {
    position = asking_start;
    trace = e;
    agrees = refl;
    waits = idle;
    empty = λ h. cc;
  }

  asking-IsSound :
      (run : Run) (item : QueueItem)
      → run.queue.waiter ≡ false
      → Trace (verdict_of gate adapters run) run.log asking
      → IsSound gate adapters (record run { stage = awaiting_user item none })
  asking-IsSound run item idle e = record {
    position = asking;
    trace = e;
    agrees = refl;
    waits = idle;
    empty = λ h. cc;
  }

  next_of-IsSound :
      (run : Run)
      → Trace (verdict_of gate adapters run) run.log working
      → (items : List QueueItem) → run.queue.waiter ≡ false
      → IsSound gate adapters (next_of items run)
  next_of-IsSound run e [] idle = record {
    position = working;
    trace = e;
    agrees = refl;
    waits = refl;
    empty = λ h. refl;
  }
  next_of-IsSound run e (item ∷ items) idle = record {
    position = working;
    trace = e;
    agrees = refl;
    waits = idle;
    empty = λ h. cc;
  }

  module _ (r : ℕ) (run : Run) (idle : run.queue.waiter ≡ false) where
    prepare-Moves :
        (w : Worker) (p : Position)
        → Trace (verdict_of gate adapters run) run.log p
        → Trace (verdict_of gate adapters run) (sent report_started ∷ run.log) started
        → Moves gate adapters r w.runs (prepare gate adapters r run w).runs
    unfolding prepare
    prepare-Moves w p e a =
        let name =
          agent_name adapters (or_else (get run.task.id w.agent_overrides) run.task.agent)
            (default_agent_of w.settings) in
        elim (Bool-cases (in_registry adapters name)) [
          | inl known ↦
              rw known
                (_, refl, sending-IsSound run run.log report_started (starts_agent name) idle a)
          | inr unknown ↦ rw unknown (_, refl, ended-IsSound run _ idle p e)
        ]

    pub judged-Moves :
        (w : Worker) (v : Verdict)
        → verdict_of gate adapters run ≡ v
        → Trace (verdict_of gate adapters run) run.log fresh
        → Moves gate adapters r w.runs
            (judged gate adapters (gate run.task run.instruction) v r run w).runs
    judged-Moves w Verdict.deny e l = (_, refl, sending-IsSound run run.log _ _ idle (reject e l))
    judged-Moves w Verdict.ask e l = (_, refl, sending-IsSound run run.log _ _ idle (ask_start e l))
    judged-Moves w Verdict.allow e l =
        prepare-Moves
          (note "gate:allow" (some run.task.id) (gate run.task run.instruction).reason w) fresh l
          (start_allowed e l)

    consume-Moves :
        (w : Worker) (report : LocalReport) (item : QueueItem)
        → Trace (verdict_of gate adapters run) run.log working
        → Moves gate adapters r w.runs (consume report item r run w).runs
    consume-Moves w (LocalReport.completed _) item l =
        (_, refl, sending-IsSound run run.log _ _ idle (complete l))
    consume-Moves w (LocalReport.failed _) item l =
        (_, refl, sending-IsSound run run.log _ _ idle (fail l))
    consume-Moves w (LocalReport.ask _) item l =
        (_, refl, sending-IsSound run run.log _ _ idle (ask_user l))

    pub next_arrived-Moves :
        (w : Worker) (next : Option QueueItem)
        → Trace (verdict_of gate adapters run) run.log working
        → Moves gate adapters r w.runs (next_arrived next r run w).runs
    next_arrived-Moves w none l = (_, refl, ended-IsSound run _ idle working l)
    next_arrived-Moves w (some item) l = consume-Moves w item.report item l

    pub user_decided-Moves :
        (w : Worker) (d : AskDecision) (item : QueueItem)
        → Trace (verdict_of gate adapters run) run.log asking
        → Moves gate adapters r w.runs (user_decided d item r run w).runs
    unfolding user_decided
    user_decided-Moves w AskDecision.approve item l = (
      _,
      refl,
      sending-IsSound run (heard AskDecision.approve ∷ run.log) _ _ idle
          (resume_agent (approve_ask l)),
    )
    user_decided-Moves w AskDecision.deny item l = (
      _,
      refl,
      sending-IsSound run (heard AskDecision.deny ∷ run.log) _ _ idle (fail_denied (deny_ask l)),
    )

    launch-Moves :
        (w : Worker) (name : String)
        → Trace (verdict_of gate adapters run) run.log started
        → Moves gate adapters r w.runs (launch gate adapters r run name w).runs
    unfolding launch next_report
    launch-Moves w name l = elim (Bool-cases (includes adapters name)) [
      | inl known ↦ rw known (
        _,
        refl,
        next_of-IsSound
            (record run {
              queue = record { items = []; waiter = false };
              log = launched name ∷ run.log;
            })
            (launch_agent l) [] refl,
      )
      | inr unknown ↦ rw unknown (
        _,
        refl,
        ended-IsSound (record run { queue = record { items = []; waiter = false } }) _ refl started
            l,
      )
    ]

    pub go_on-Moves :
        (w : Worker) (next : Next)
        → Trace (verdict_of gate adapters run) run.log (after next)
        → Moves gate adapters r w.runs (go_on gate adapters next r run w).runs
    unfolding go_on next_report
    go_on-Moves w (starts_agent name) l = launch-Moves w name l
    go_on-Moves w (waits_for_start question) l = (_, refl, asking_start-IsSound run idle l)
    go_on-Moves w (waits_for_user item question) l = (_, refl, asking-IsSound run item idle l)
    go_on-Moves w resumes l = (_, refl, next_of-IsSound run l run.queue.items idle)
    go_on-Moves w (denied_by_gate _) l = (_, refl, ended-IsSound run _ idle closed l)
    go_on-Moves w not_approved l = (_, refl, ended-IsSound run _ idle closed l)
    go_on-Moves w (completes _) l = (_, refl, ended-IsSound run _ idle closed l)
    go_on-Moves w (fails _) l = (_, refl, ended-IsSound run _ idle closed l)
    go_on-Moves w denied_by_user l = (_, refl, ended-IsSound run _ idle closed l)

  pub start_decided-Moves :
      (r : ℕ) (run : Run) (w : Worker) (d : AskDecision)
      → run.queue.waiter ≡ false
      → Trace (verdict_of gate adapters run) run.log asking_start
      → Moves gate adapters r w.runs (start_decided gate adapters d r run w).runs
  unfolding start_decided
  start_decided-Moves r run w AskDecision.deny idle l = (
    _,
    refl,
    sending-IsSound run (heard AskDecision.deny ∷ run.log) _ _ idle
        (reject_refused (refuse_start l)),
  )
  start_decided-Moves r run w AskDecision.approve idle l =
      prepare-Moves r (record run { log = heard AskDecision.approve ∷ run.log }) idle
        (note "gate:approved" (some run.task.id) none (approval_over run.task.id w)) approved
        (approve_start l) (start_approved (approve_start l))
