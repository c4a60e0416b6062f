-- ===== src/Worker/Process/Guarantees.antt =====
-- apps/worker/src/worker.ts: the reports of a call and the start of its agent.
use samdi.Common.{
  ℕ, ◌≡◌, refl, ap, String, true, Option, none, some, List, [], ◌∷◌, inl, inr, ◌⊎◌, if◌then◌else◌,
}
use samdi.ControlPlane.Db.{Task}
use samdi.Gateway.{Verdict, StartGateDecision}
use samdi.Domain.{
  TaskStatus, TaskReport, report_started, report_waiting, can_transition, report_target,
  is_terminal,
}
use samdi.Worker.State.{WorkerState}
use samdi.Worker.Activity.{ActivityLog}
use samdi.Worker.Process.{new_worker, AskDecision, Entry, sent, launched, heard, Run}
use samdi.Worker.Process.Steps.{Event, run_events}
use samdi.Worker.Process.Protocol.{
  Position, fresh, asking_start, approved, refused, started, working, asking, resuming, denied,
  closed, Trace, begin, reject, ask_start, start_allowed, approve_start, refuse_start,
  reject_refused, start_approved, launch_agent, ask_user, complete, fail, approve_ask, deny_ask,
  resume_agent, fail_denied, verdict_of, IsSound,
}
use samdi.Worker.Process.Following.{run_events-AllSound}

-- What `applyReport` makes of the status, `none` where it throws.
abbrev pub after_report : TaskReport → Option TaskStatus → Option TaskStatus
after_report report none = none
after_report report (some s) =
    if can_transition s (report_target report) then some (report_target report) else none

-- The status of a task after the reports of a log, from the claim on.
abbrev pub status_after : List Entry → Option TaskStatus
status_after [] = some TaskStatus.claimed
status_after (sent report ∷ log) = after_report report (status_after log)
status_after (launched _ ∷ log) = status_after log
status_after (heard _ ∷ log) = status_after log

abbrev HasStatus : Position → TaskStatus → Type 0
HasStatus fresh s = s ≡ TaskStatus.claimed
HasStatus asking_start s = s ≡ TaskStatus.waiting
HasStatus approved s = s ≡ TaskStatus.waiting
HasStatus refused s = s ≡ TaskStatus.waiting
HasStatus started s = s ≡ TaskStatus.running
HasStatus working s = s ≡ TaskStatus.running
HasStatus asking s = s ≡ TaskStatus.waiting
HasStatus resuming s = s ≡ TaskStatus.waiting
HasStatus denied s = s ≡ TaskStatus.waiting
HasStatus closed s = is_terminal s ≡ true

abbrev Leads : List Entry → Position → Type 0
Leads log p = (s : TaskStatus) × (status_after log ≡ some s) × HasStatus p s

Trace-Leads : {v : Verdict} {log : List Entry} {p : Position} → Trace v log p → Leads log p
Trace-Leads begin = (TaskStatus.claimed, refl, refl)
Trace-Leads (reject e t) = let (s, a, b) = Trace-Leads t in (TaskStatus.rejected, rw (a, b), refl)
Trace-Leads (ask_start e t) = let (s, a, b) = Trace-Leads t in (TaskStatus.waiting, rw (a, b), refl)
Trace-Leads (start_allowed e t) =
    let (s, a, b) = Trace-Leads t in (TaskStatus.running, rw (a, b), refl)
Trace-Leads (approve_start t) = Trace-Leads t
Trace-Leads (refuse_start t) = Trace-Leads t
Trace-Leads (reject_refused t) =
    let (s, a, b) = Trace-Leads t in (TaskStatus.rejected, rw (a, b), refl)
Trace-Leads (start_approved t) =
    let (s, a, b) = Trace-Leads t in (TaskStatus.running, rw (a, b), refl)
Trace-Leads (launch_agent t) = Trace-Leads t
Trace-Leads (ask_user t) = let (s, a, b) = Trace-Leads t in (TaskStatus.waiting, rw (a, b), refl)
Trace-Leads (complete t) = let (s, a, b) = Trace-Leads t in (TaskStatus.completed, rw (a, b), refl)
Trace-Leads (fail t) = let (s, a, b) = Trace-Leads t in (TaskStatus.failed, rw (a, b), refl)
Trace-Leads (approve_ask t) = Trace-Leads t
Trace-Leads (deny_ask t) = Trace-Leads t
Trace-Leads (resume_agent t) =
    let (s, a, b) = Trace-Leads t in (TaskStatus.running, rw (a, b), refl)
Trace-Leads (fail_denied t) = let (s, a, b) = Trace-Leads t in (TaskStatus.failed, rw (a, b), refl)

-- What stands before the launch of an agent: the start that the gate allowed, or the question to
-- the user, the approval and the start.
abbrev pub Consents : Verdict → List Entry → Type 0
Consents v log =
    ((v ≡ Verdict.allow) × (log ≡ sent report_started ∷ []))
    ⊎ ((v ≡ Verdict.ask)
        × ((question : String) × (log
              ≡ sent report_started
                ∷ heard AskDecision.approve
                ∷ sent (report_waiting question)
                ∷ [])))

Trace-fresh : {v : Verdict} {log : List Entry} {p : Position} → Trace v log p → p ≡ fresh → log ≡ []
Trace-fresh begin e = refl
Trace-fresh _ e = cc

module _ {v : Verdict} where
  asking_start_only :
      {log : List Entry} {p : Position}
      → Trace v log p
      → p ≡ asking_start
      → (v ≡ Verdict.ask) × ((question : String) × (log ≡ sent (report_waiting question) ∷ []))
  asking_start_only (ask_start {t = t} e tr) h =
      (e, (t, ap (λ l. sent (report_waiting t) ∷ l) (Trace-fresh tr refl)))
  asking_start_only _ h = cc

  approved_only :
      {log : List Entry} {p : Position}
      → Trace v log p
      → p ≡ approved
      → (v ≡ Verdict.ask)
        × ((question : String) × (log
              ≡ heard AskDecision.approve ∷ sent (report_waiting question) ∷ []))
  approved_only (approve_start tr) h =
      let (e, (t, p)) = asking_start_only tr refl in
      (e, (t, ap (λ l. heard AskDecision.approve ∷ l) p))
  approved_only _ h = cc

  started_only : {log : List Entry} {p : Position} → Trace v log p → p ≡ started → Consents v log
  started_only (start_allowed e tr) h =
      inl (e, ap (λ l. sent report_started ∷ l) (Trace-fresh tr refl))
  started_only (start_approved tr) h =
      let (e, (t, p)) = approved_only tr refl in inr (e, (t, ap (λ l. sent report_started ∷ l) p))
  started_only _ h = cc

-- Every launch of a log has the consent before it.
abbrev pub HasConsent : Verdict → List Entry → Type 0
HasConsent v [] = Unit {0}
HasConsent v (launched _ ∷ earlier) = Consents v earlier × HasConsent v earlier
HasConsent v (sent _ ∷ earlier) = HasConsent v earlier
HasConsent v (heard _ ∷ earlier) = HasConsent v earlier

Trace-HasConsent :
    {v : Verdict} {log : List Entry} {p : Position} → Trace v log p → HasConsent v log
Trace-HasConsent begin = tt
Trace-HasConsent (reject e t) = Trace-HasConsent t
Trace-HasConsent (ask_start e t) = Trace-HasConsent t
Trace-HasConsent (start_allowed e t) = Trace-HasConsent t
Trace-HasConsent (approve_start t) = Trace-HasConsent t
Trace-HasConsent (refuse_start t) = Trace-HasConsent t
Trace-HasConsent (reject_refused t) = Trace-HasConsent t
Trace-HasConsent (start_approved t) = Trace-HasConsent t
Trace-HasConsent (launch_agent t) = (started_only t refl, Trace-HasConsent t)
Trace-HasConsent (ask_user t) = Trace-HasConsent t
Trace-HasConsent (complete t) = Trace-HasConsent t
Trace-HasConsent (fail t) = Trace-HasConsent t
Trace-HasConsent (approve_ask t) = Trace-HasConsent t
Trace-HasConsent (deny_ask t) = Trace-HasConsent t
Trace-HasConsent (resume_agent t) = Trace-HasConsent t
Trace-HasConsent (fail_denied t) = Trace-HasConsent t

module _ (gate : Task → String → StartGateDecision) (adapters : List String) where
  -- A call that a worker makes, from its start on.
  module _ (settings : WorkerState) (activity : ActivityLog) (t : ℕ) (es : List Event) (r : ℕ)
      (run : Run)
      (made : (run_events gate adapters es (new_worker settings activity t)).runs r
        ≡ some run) where
    pub made-IsSound : IsSound gate adapters run
    unfolding new_worker
    made-IsSound =
        run_events-AllSound gate adapters es (new_worker settings activity t) (λ j x e. cc) r run
          made

    -- The reports of a call are moves of the state machine.
    pub reports_keep_to_diagram : (s : TaskStatus) × (status_after run.log ≡ some s)
    reports_keep_to_diagram = let l = Trace-Leads made-IsSound.trace in (l.0, l.1)

    -- For every gate and set of adapters, and for every call of `processOne` that a worker has
    -- made after any sequence of events from its start: each launch of an agent in the log of the
    -- call comes right after the report `started` that the verdict allow led to, or after the
    -- report `waiting`, the approval of the user and the report `started`, where the verdict was
    -- ask.
    pub launch-HasConsent : HasConsent (verdict_of gate adapters run) run.log
    launch-HasConsent = Trace-HasConsent made-IsSound.trace
