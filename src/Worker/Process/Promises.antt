-- ===== src/Worker/Process/Promises.antt =====
-- apps/worker/src/worker.ts: `decide`, and what the maps of the class hold of a task.
use samdi.Common.{
  ℕ, ◌≡◌, refl, ◌∙◌, String, true, false, Option, none, some, List, inl, inr, ◌⊎◌, Option-cases,
  Bool-cases,
}
use samdi.Common.Maps.{get, is_some}
use samdi.ControlPlane.Db.{Task}
use samdi.Gateway.{StartGateDecision}
use samdi.Worker.State.{WorkerState}
use samdi.Worker.Activity.{ActivityLog}
use samdi.Worker.Process.{
  new_worker, AskDecision, Stage, awaiting_start, awaiting_user, Run, Worker, resolved, put_run,
  decide,
}
use samdi.Worker.Process.Steps.{Event, run_events}
use samdi.Worker.Process.Registered.{waiting, live, IsRegistered}
use samdi.Worker.Process.Current.{IsCurrent}
use samdi.Worker.Process.Ongoing.{run_events-IsCurrent}
use samdi.Worker.Process.Upkeep.{run_events-IsRegistered}

live_of_waiting : (stage : Stage) → waiting stage ≡ true → live stage ≡ true
live_of_waiting (awaiting_start _) h = refl
live_of_waiting (awaiting_user _ _) h = refl
live_of_waiting _ h = cc

none_of : {A : Type 0} (o : Option A) → is_some o ≡ false → o ≡ none
none_of none h = refl
none_of (some a) h = cc

module _ (gate : Task → String → StartGateDecision) (adapters : List String) where
  pub new_worker-IsRegistered :
      (settings : WorkerState) (activity : ActivityLog) (t : ℕ)
      → IsRegistered (new_worker settings activity t)
  unfolding new_worker
  new_worker-IsRegistered settings activity t = record {
    queued = λ id r h. cc;
    resolvable = λ id r h. cc;
    asked = λ id. refl;
    unused = λ r h. refl;
  }

  new_worker-IsCurrent :
      (settings : WorkerState) (activity : ActivityLog) (t : ℕ)
      → IsCurrent (new_worker settings activity t)
  unfolding new_worker
  new_worker-IsCurrent settings activity t id h = cc

  module _ (settings : WorkerState) (activity : ActivityLog) (t : ℕ) (es : List Event) where
    abbrev pub after_events : Worker
    after_events = run_events gate adapters es (new_worker settings activity t)

    abbrev pub Waits : String → Type 0
    Waits id =
        (r : ℕ) × ((run : Run) × (after_events.runs r ≡ some run)
          × (run.task.id ≡ id)
          × (waiting run.stage ≡ true)
          × (is_some (get id after_events.pending_approvals) ≡ true)
          × ((d : AskDecision)
              → decide id d after_events ≡ (true, put_run r (resolved d run) after_events)))

    abbrev pub Unknown : String → Type 0
    Unknown id =
        (is_some (get id after_events.pending_approvals) ≡ false)
        × ((d : AskDecision) → decide id d after_events ≡ (false, after_events))

    -- After every sequence of events from the start of a worker, for each task: either some call
    -- on that task waits for a decision, the task is among the pending approvals, and `decide`
    -- returns true and resolves that call; or the task is not among them, and `decide` returns
    -- false and changes nothing.
    pub decide_reaches_call : (id : String) → Waits id ⊎ Unknown id
    unfolding decide
    decide_reaches_call id =
        let reg =
          run_events-IsRegistered gate adapters es _
            (new_worker-IsRegistered settings activity t) in
        elim (Option-cases (get id after_events.approval_resolvers)) [
          | inl e ↦ inr (reg.asked id ∙ rw e refl, λ d. rw e refl)
          | inr (r, e) ↦
              let (run, er, ti, wa) = reg.resolvable id r e in
              inl (r, (run, er, ti, wa, reg.asked id ∙ rw e refl, λ d. rw (e, er) refl))
        ]

    -- After every sequence of events from the start of a worker, a task of which every call has
    -- ended has no queue, no pending approval, no resolver and no entry among the current tasks.
    pub ended_leaves_nothing :
        (id : String)
        → ((r : ℕ) (run : Run)
            → after_events.runs r ≡ some run
            → run.task.id ≡ id
            → live run.stage ≡ false)
        → (get id after_events.queues ≡ none)
          × (get id after_events.pending_approvals ≡ none)
          × (get id after_events.approval_resolvers ≡ none)
          × (get id after_events.current_tasks ≡ none)
    ended_leaves_nothing id over =
        let ongoing : IsCurrent after_events =
          run_events-IsCurrent gate adapters es _ (new_worker-IsRegistered settings activity t)
            (new_worker-IsCurrent settings activity t) in
        let reg =
          run_events-IsRegistered gate adapters es _
            (new_worker-IsRegistered settings activity t) in
        let no_resolver : get id after_events.approval_resolvers ≡ none =
          elim (Option-cases (get id after_events.approval_resolvers)) [
            | inl e ↦ e
            | inr (r, e) ↦
                let (run, er, ti, wa) = reg.resolvable id r e in
                let alive : live run.stage ≡ true = live_of_waiting run.stage wa in
                let dead : live run.stage ≡ false = over r run er ti in cc
          ] in
        let no_approval : is_some (get id after_events.pending_approvals) ≡ false =
          reg.asked id ∙ rw no_resolver refl in
        let no_current : is_some (get id after_events.current_tasks) ≡ false =
          elim (Bool-cases (is_some (get id after_events.current_tasks))) [
            | inr e ↦ e
            | inl e ↦
                let (r, run, er, ti, alive) = ongoing id e in
                let dead : live run.stage ≡ false = over r run er ti in cc
          ] in
        (
          elim (Option-cases (get id after_events.queues)) [
            | inl e ↦ e
            | inr (r, e) ↦
                let (run, er, ti, li) = reg.queued id r e in
                let dead : live run.stage ≡ false = over r run er ti in cc
          ],
          none_of (get id after_events.pending_approvals) no_approval,
          no_resolver,
          none_of (get id after_events.current_tasks) no_current,
        )
