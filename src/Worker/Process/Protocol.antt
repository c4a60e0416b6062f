-- ===== src/Worker/Process/Protocol.antt =====
-- What one call of `Worker.processOne` may do, as an automaton over its log.
use samdi.Common.{ℕ, ◌≡◌, String, Bool, true, false, Option, none, some, List, [], ◌∷◌}
use samdi.Common.Maps.{update_at}
use samdi.ControlPlane.Db.{Task}
use samdi.Domain.{
  report_rejected, report_started, report_waiting, report_resumed, report_completed, report_failed,
}
use samdi.Gateway.{Verdict, StartGateDecision}
use samdi.Worker.Process.{
  AskDecision, Next, denied_by_gate, waits_for_start, not_approved, starts_agent, completes, fails,
  waits_for_user, resumes, denied_by_user, Stage, evaluating, sending, awaiting_start,
  awaiting_report, awaiting_user, ended, Entry, sent, launched, heard, Run,
}

pub data Position : Type 0 where
  fresh asking_start approved refused started working asking resuming denied closed : Position

-- The logs of a call, the latest entry first, with the position that each leads to. A task that the
-- gate denies is rejected; one that needs approval waits for the user; and only one that is
-- allowed or approved is started, and then launched, once.
pub data Trace (v : Verdict) : List Entry → Position → Type 0 where
  begin : Trace v [] fresh
  reject :
      {log : List Entry} {t : String}
      → v ≡ Verdict.deny
      → Trace v log fresh
      → Trace v (sent (report_rejected t) ∷ log) closed
  ask_start :
      {log : List Entry} {t : String}
      → v ≡ Verdict.ask
      → Trace v log fresh
      → Trace v (sent (report_waiting t) ∷ log) asking_start
  start_allowed :
      {log : List Entry}
      → v ≡ Verdict.allow
      → Trace v log fresh
      → Trace v (sent report_started ∷ log) started
  approve_start :
      {log : List Entry}
      → Trace v log asking_start
      → Trace v (heard AskDecision.approve ∷ log) approved
  refuse_start :
      {log : List Entry} → Trace v log asking_start → Trace v (heard AskDecision.deny ∷ log) refused
  reject_refused :
      {log : List Entry} {t : String}
      → Trace v log refused
      → Trace v (sent (report_rejected t) ∷ log) closed
  start_approved :
      {log : List Entry} → Trace v log approved → Trace v (sent report_started ∷ log) started
  launch_agent :
      {log : List Entry} {name : String}
      → Trace v log started
      → Trace v (launched name ∷ log) working
  ask_user :
      {log : List Entry} {t : String}
      → Trace v log working
      → Trace v (sent (report_waiting t) ∷ log) asking
  complete :
      {log : List Entry} {t : Option String}
      → Trace v log working
      → Trace v (sent (report_completed t) ∷ log) closed
  fail :
      {log : List Entry} {t : String}
      → Trace v log working
      → Trace v (sent (report_failed t) ∷ log) closed
  approve_ask :
      {log : List Entry} → Trace v log asking → Trace v (heard AskDecision.approve ∷ log) resuming
  deny_ask : {log : List Entry} → Trace v log asking → Trace v (heard AskDecision.deny ∷ log) denied
  resume_agent :
      {log : List Entry} → Trace v log resuming → Trace v (sent report_resumed ∷ log) working
  fail_denied :
      {log : List Entry} {t : String}
      → Trace v log denied
      → Trace v (sent (report_failed t) ∷ log) closed

abbrev pub after : Next → Position
after (denied_by_gate _) = closed
after (waits_for_start _) = asking_start
after not_approved = closed
after (starts_agent _) = started
after (completes _) = closed
after (fails _) = closed
after (waits_for_user _ _) = asking
after resumes = working
after denied_by_user = closed

abbrev pub Agrees : Stage → Position → Type 0
Agrees evaluating p = p ≡ fresh
Agrees (sending _ next) p = p ≡ after next
Agrees (awaiting_start _) p = p ≡ asking_start
Agrees (awaiting_report _) p = p ≡ working
Agrees (awaiting_user _ _) p = p ≡ asking
Agrees (ended _) p = Unit {0}

-- `next` is pending.
abbrev pub listening : Stage → Bool
listening (awaiting_report none) = true
listening _ = false

module _ (gate : Task → String → StartGateDecision) (adapters : List String) where
  abbrev pub verdict_of : Run → Verdict
  verdict_of run = (gate run.task run.instruction).verdict

  -- The log of the call is one that the automaton allows, up to the position at which the call
  -- stands; a queue has a waiter exactly while `next` is pending, and then no items.
  pub record IsSound (run : Run) : Type 0 where
    pub position : Position
    pub trace : Trace (verdict_of run) run.log position
    pub agrees : Agrees run.stage position
    pub waits : run.queue.waiter ≡ listening run.stage
    pub empty : run.queue.waiter ≡ true → run.queue.items ≡ []

  -- The run `r` becomes a sound one, and no other changes.
  abbrev pub Moves : ℕ → (ℕ → Option Run) → (ℕ → Option Run) → Type 0
  Moves r runs runs' = (run' : Run) × (runs' ≡ update_at runs r (some run')) × IsSound run'
