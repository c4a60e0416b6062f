-- ===== src/Worker/Process/Delivery.antt =====
-- What becomes of the reports of an agent and the decisions of the user.
use samdi.Common.{
  ℕ, ◌≡◌, refl, sym, ap, subst, ◌∙◌, String, true, false, Option, none, some, List, [], ◌∷◌, ◌++◌,
  inl, inr, Bool-cases,
}
use mathlib.Core.List.{append-nil, append_assoc}
use samdi.Common.Maps.{get, same_number, same_number_refl}
use samdi.ControlPlane.Db.{Task}
use samdi.Domain.{TaskReport, report_completed, report_failed}
use samdi.Gateway.{StartGateDecision}
use samdi.Worker.State.{WorkerState}
use samdi.Worker.Activity.{ActivityLog}
use samdi.Worker.Process.Guarantees.{made-IsSound}
use samdi.Worker.Process.{
  decide_with, timed_out, new_worker, next_of, LocalReport, AskDecision, QueueItem, Stage,
  awaiting_start, awaiting_report, ended, returned_true, Run, Worker, push_item, hand_over,
  next_report, handle_local_report, decide, sent, put_run, local_report_to, with_run, to_queue,
}
use samdi.Worker.Process.Steps.{
  Event, agent_reported, promise_resolved, report_taken, lease_over, resume_run, on_run, end_wait,
  step, run_events, go_on,
}
use samdi.Worker.Process.Protocol.{IsSound, listening}
use samdi.Worker.Process.Following.{push_item-IsSound}
use samdi.Worker.Process.Registered.{get-remove_self}

-- The reports that a call has still to deal with, in the order in which it will.
abbrev pub at_hand : Stage → List QueueItem → List QueueItem
at_hand (awaiting_report (some (some item))) items = item ∷ items
at_hand _ items = items

abbrev pub to_come : Run → List QueueItem
to_come run = at_hand run.stage run.queue.items

unfoldable pub push_all : List QueueItem → Run → Run
push_all [] run = run
push_all (item ∷ items) run = push_all items (push_item item run)

at_hand-append :
    (stage : Stage) (items : List QueueItem) (item : QueueItem)
    → at_hand stage (items ++ item ∷ []) ≡ at_hand stage items ++ item ∷ []
at_hand-append (awaiting_report (some (some first))) items item = refl
at_hand-append _ items item = refl

handed_over :
    (stage : Stage) (item : QueueItem)
    → listening stage ≡ true
    → at_hand (hand_over item stage) [] ≡ item ∷ []
handed_over (awaiting_report none) item h = refl
handed_over _ item h = cc

listening-at_hand :
    (stage : Stage) (items : List QueueItem) → listening stage ≡ true → at_hand stage items ≡ items
listening-at_hand (awaiting_report none) items h = refl
listening-at_hand _ items h = cc

next_of-to_come : (items : List QueueItem) (run : Run) → to_come (next_of items run) ≡ items
next_of-to_come [] run = refl
next_of-to_come (item ∷ items) run = refl

put_self : (r : ℕ) (run : Run) (w : Worker) → (put_run r run w).runs r ≡ some run
put_self r run w = rw (same_number_refl r) refl

-- A report that an agent makes when it has finished, and what the worker makes of it.
pub data IsLast : LocalReport → TaskReport → Type 0 where
  last_completed :
      {summary : Option String} → IsLast (LocalReport.completed summary) (report_completed summary)
  last_failed : {reason : String} → IsLast (LocalReport.failed reason) (report_failed reason)

module _ (gate : Task → String → StartGateDecision) (adapters : List String) where
  to_come-push_item :
      (item : QueueItem) (run : Run)
      → IsSound gate adapters run
      → to_come (push_item item run) ≡ to_come run ++ item ∷ []
  unfolding push_item
  to_come-push_item item run s = elim (Bool-cases run.queue.waiter) [
    | inl e ↦
        let listens : listening run.stage ≡ true = sym s.waits ∙ e in
        let no_items : run.queue.items ≡ [] = s.empty e in
        rw (e, no_items)
          (handed_over run.stage item listens
            ∙ ap (λ l. l ++ item ∷ []) (sym (listening-at_hand run.stage [] listens)))
    | inr e ↦ rw e (at_hand-append run.stage run.queue.items item)
  ]

  push_all-to_come :
      (items : List QueueItem) (run : Run)
      → IsSound gate adapters run
      → to_come (push_all items run) ≡ to_come run ++ items
  unfolding push_all
  push_all-to_come [] run s = sym (append-nil (to_come run))
  push_all-to_come (item ∷ items) run s =
      push_all-to_come items (push_item item run) (push_item-IsSound gate adapters item run s)
      ∙ (ap (λ l. l ++ items) (to_come-push_item item run s)
          ∙ append_assoc (to_come run) (item ∷ []) items)

  -- For every call of `processOne` that a worker has made after any sequence of events from its
  -- start: reports that are pushed are dealt with after those that the call has still to deal
  -- with, in the order in which they came, and `next` takes up what is queued from its head.
  pub reports_in_order :
      (settings : WorkerState) (activity : ActivityLog) (t : ℕ) (es : List Event) (r : ℕ)
      (run : Run)
      → (run_events gate adapters es (new_worker settings activity t)).runs r ≡ some run
      → (items : List QueueItem)
      → (to_come (push_all items run) ≡ to_come run ++ items)
        × (to_come (next_report run) ≡ run.queue.items)
  unfolding next_report
  reports_in_order settings activity t es r run made items = (
    push_all-to_come items run (made-IsSound gate adapters settings activity t es r run made),
    next_of-to_come run.queue.items run,
  )

  -- An event of a run that is there.
  at_run :
      (f : ℕ → Run → Worker → Worker) (r : ℕ) (run : Run) (w : Worker)
      → on_run f r ((put_run r run w).runs r) (put_run r run w) ≡ f r run (put_run r run w)
  at_run f r run w = ap (λ o. on_run f r o (put_run r run w)) (put_self r run w)

  -- The agent's last word ends the call.
  module _ (w : Worker) (id : String) (r : ℕ) (run : Run) (queue : get id w.queues ≡ some r)
      (there : w.runs r ≡ some run) (at : run.stage ≡ awaiting_report none)
      (waits : run.queue.waiter ≡ true) where
    arrived : LocalReport → Run
    arrived report = record run {
      stage = awaiting_report (some (some (record { report = report; respond_decision = none })));
      queue = record run.queue { waiter = false };
    }

    taken_in :
        (report : LocalReport)
        → ((w : Worker)
            → (to_queue r report w).1
              ≡ with_run
                  (push_item (record { report = report; respond_decision = none }))
                  r
                  (w.runs r)
                  w)
        → (handle_local_report id report w).1 ≡ put_run r (arrived report) w
    unfolding handle_local_report push_item arrived
    taken_in report plain =
        let item : QueueItem = record { report = report; respond_decision = none } in
        let pushed : push_item item run ≡ arrived report = rw (waits, at) refl in
        ap (λ q. (local_report_to q report w).1) queue
        ∙ (plain w
            ∙ (ap (λ o. with_run (push_item item) r o w) there ∙ ap (λ x. put_run r x w) pushed))

    reported :
        {report : LocalReport} {out : TaskReport}
        → IsLast report out
        → step gate adapters (agent_reported id report) w ≡ put_run r (arrived report) w
    unfolding step handle_local_report push_item arrived
    reported (last_completed {summary}) = taken_in (LocalReport.completed summary) (λ w. refl)
    reported (last_failed {reason}) = taken_in (LocalReport.failed reason) (λ w. refl)

    sent_and_done :
        {report : LocalReport} {out : TaskReport}
        → IsLast report out
        → (step gate adapters
              (report_taken r)
              (resume_run gate adapters r (arrived report) (put_run r (arrived report) w))).runs
            r
          ≡ some (record run {
            stage = ended returned_true;
            queue = record run.queue { waiter = false };
            log = sent out ∷ run.log;
          })
    unfolding step arrived go_on
    sent_and_done last_completed = rw (same_number_refl r) (rw (same_number_refl r) refl)
    sent_and_done last_failed = rw (same_number_refl r) (rw (same_number_refl r) refl)

    -- If a call of `processOne` waits for the reports of the agent of its task and is the one that
    -- the task is entered for, a report `completed` or `failed` of the agent, once the promise is
    -- resolved and the control plane has taken the report, ends the call: it has sent the report
    -- with its text, and returned true.
    pub report_ends_call :
        (report : LocalReport) (out : TaskReport)
        → IsLast report out
        → (run_events gate adapters
              (agent_reported id report ∷ promise_resolved r ∷ report_taken r ∷ [])
              w).runs
            r
          ≡ some (record run {
            stage = ended returned_true;
            queue = record run.queue { waiter = false };
            log = sent out ∷ run.log;
          })
    unfolding run_events step arrived go_on
    report_ends_call report out last =
        let first =
          ap (λ x. step gate adapters (report_taken r) (step gate adapters (promise_resolved r) x))
            (reported last) in
        let second =
          ap (step gate adapters (report_taken r))
            (at_run (resume_run gate adapters) r (arrived report) w) in
        ap (λ (x : Worker). x.runs r) (first ∙ second) ∙ sent_and_done last

-- A second call on the same task. When the first call gives up, the entry of the second is removed.
module _ (gate : Task → String → StartGateDecision) (adapters : List String) (w : Worker) (r : ℕ)
    (first : Run) (j : ℕ) (second : Run) (there : w.runs r ≡ some first)
    (waits : first.stage ≡ awaiting_report none) (other : same_number r j ≡ false)
    (also : w.runs j ≡ some second) (same : second.task.id ≡ first.task.id)
    (asks : second.stage ≡ awaiting_start none) where
  timed : Run
  timed = record first {
    queue = record first.queue { waiter = false };
    stage = awaiting_report (some none);
  }

  given_up :
      run_events gate adapters (lease_over r ∷ promise_resolved r ∷ []) w
      ≡ resume_run gate adapters r timed (put_run r timed w)
  unfolding run_events step timed
  given_up =
      let ends =
        ap (λ o. on_run end_wait r o w) there ∙ ap (λ s. put_run r (timed_out s first) w) waits in
      ap (step gate adapters (promise_resolved r)) ends
      ∙ at_run gate adapters (resume_run gate adapters) r timed w

  -- If a worker has two calls on one task, the first waiting for a report of the agent and the
  -- second for the approval of the user, then when the first one gives up after the lease the
  -- second still waits, and no decision reaches it any more: `decide` returns false and changes
  -- nothing.
  pub given_up_strands_second :
      (d : AskDecision)
      → let w' = run_events gate adapters (lease_over r ∷ promise_resolved r ∷ []) w in
        (w'.runs j ≡ some second) × (decide second.task.id d w' ≡ (false, w'))
  unfolding decide timed
  given_up_strands_second d =
      let w' = resume_run gate adapters r timed (put_run r timed w) in
      let gone : get second.task.id w'.approval_resolvers ≡ none =
        ap (λ id. get id w'.approval_resolvers) same
        ∙ get-remove_self first.task.id w.approval_resolvers in
      subst (λ x. (x.runs j ≡ some second) × (decide second.task.id d x ≡ (false, x)))
        (sym given_up) (rw other also, ap (λ q. decide_with q d w') gone)
