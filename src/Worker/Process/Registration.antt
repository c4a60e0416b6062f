-- ===== src/Worker/Process/Registration.antt =====
-- apps/worker/src/worker.ts: the steps of `processOne` and the maps of the class.
use samdi.Common.{
  ℕ, ◌≡◌, refl, sym, ap, subst, String, true, false, Option, none, some, List, [], ◌∷◌, inl, inr,
  ◌⊎◌, Bool-cases, includes,
}
use samdi.Common.Maps.{get, set, update_at}
use samdi.ControlPlane.Db.{Task}
use samdi.Domain.{report_started}
use samdi.Gateway.{Verdict, StartGateDecision}
use samdi.Worker.State.{default_agent_of}
use samdi.Worker.Process.{
  LocalReport, AskDecision, QueueItem, Next, denied_by_gate, waits_for_start, not_approved,
  starts_agent, completes, fails, waits_for_user, resumes, denied_by_user, Stage, evaluating,
  sending, awaiting_start, awaiting_report, awaiting_user, Entry, sent, launched, heard, Run,
  Worker, ReportQueue, note, wait_for_approval, approval_over, next_report, next_of, Ending,
  returned_true, put_run, PendingApproval,
}
use samdi.Worker.Process.Steps.{
  agent_name, or_else, in_registry, prepare, judged, judge, launch, go_on, start_decided,
  next_arrived, consume, user_decided, finish, resume, taken, refuse,
}
use samdi.Worker.Process.Registered.{
  waiting, live, Registry, Names-add, IsRegistered, get-remove_self,
}
use samdi.Worker.Process.Entries.{
  quiet, begins_to_wait, finish-IsRegistered, approval_over-IsRegistered,
}

-- The stage is one at which the call does not wait for the user, or it is no longer named.
abbrev Settled : Run → Worker → Type 0
Settled run w = (get run.task.id w.approval_resolvers ≡ none) ⊎ (waiting run.stage ≡ false)

-- `before` is what the run `r` was; `run` has its task.
module _ (r : ℕ) (before run : Run) (w : Worker) (found : w.runs r ≡ some before)
    (same : run.task.id ≡ before.task.id) (alive : live before.stage ≡ true)
    (reg : IsRegistered w) where
  kept :
      (stage : Stage)
      → Settled before w
      → (get before.task.id w.approval_resolvers ≡ none)
        ⊎ (waiting before.stage ≡ true → waiting stage ≡ true)
  kept stage (inl free) = inl free
  kept stage (inr idle) = inr (λ h. cc)

  put-IsRegistered :
      (stage : Stage)
      → Settled before w
      → live stage ≡ true
      → (queue : ReportQueue) (log : List Entry)
      → IsRegistered (put_run r (record run { stage = stage; queue = queue; log = log }) w)
  put-IsRegistered stage settled lives queue log =
      quiet r before (record run { stage = stage; queue = queue; log = log }) w
        (put_run r (record run { stage = stage; queue = queue; log = log }) w) found reg same refl
        refl (λ _. lives) refl refl refl (kept stage settled)

  end-IsRegistered : (ending : Ending) → IsRegistered (finish r run ending w)
  end-IsRegistered ending = finish-IsRegistered r run ending w before found (sym same) reg

  wait-IsRegistered :
      (stage : Stage) (question : String)
      → waiting stage ≡ true
      → live stage ≡ true
      → IsRegistered
          (put_run r (record run { stage = stage }) (wait_for_approval r run.task.id question w))
  wait-IsRegistered stage question waits lives =
      let a : PendingApproval = record {
        task_id = run.task.id;
        question = question;
        asked_at = w.clock;
      } in
      subst
        (λ x.
          Registry w.queues (set x a w.pending_approvals) (set x r w.approval_resolvers)
            (update_at w.runs r (some (record run { stage = stage }))) w.next_run)
        (sym same)
        (begins_to_wait r before (record run { stage = stage }) w
          (record w {
            pending_approvals = set before.task.id a w.pending_approvals;
            approval_resolvers = set before.task.id r w.approval_resolvers;
            runs = update_at w.runs r (some (record run { stage = stage }));
          })
          found reg same refl refl (λ _. lives) a refl refl refl waits)

  listen-IsRegistered :
      Settled before w → (items : List QueueItem) → IsRegistered (put_run r (next_of items run) w)
  listen-IsRegistered settled [] = put-IsRegistered (awaiting_report none) settled refl _ run.log
  listen-IsRegistered settled (item ∷ items) =
      put-IsRegistered (awaiting_report (some (some item))) settled refl _ run.log

module _ (gate : Task → String → StartGateDecision) (adapters : List String) where
  module _ (r : ℕ) (before run : Run) (w : Worker) (found : w.runs r ≡ some before)
      (same : run.task.id ≡ before.task.id) (alive : live before.stage ≡ true)
      (reg : IsRegistered w) (settled : Settled before w) where
    prepare-IsRegistered : IsRegistered (prepare gate adapters r run w)
    unfolding prepare
    prepare-IsRegistered =
        let name =
          agent_name adapters (or_else (get run.task.id w.agent_overrides) run.task.agent)
            (default_agent_of w.settings) in
        elim (Bool-cases (in_registry adapters name)) [
          | inl known ↦ rw known (
              put-IsRegistered r before run w found same alive reg
                (sending report_started (starts_agent name)) settled refl run.queue
                (sent report_started ∷ run.log))
          | inr unknown ↦ rw unknown (end-IsRegistered r before run w found same alive reg _)
        ]

  module _ (r : ℕ) (before run : Run) (w : Worker) (found : w.runs r ≡ some before)
      (same : run.task.id ≡ before.task.id) (alive : live before.stage ≡ true)
      (reg : IsRegistered w) (settled : Settled before w) where
    judged-IsRegistered :
        (d : StartGateDecision) (v : Verdict) → IsRegistered (judged gate adapters d v r run w)
    judged-IsRegistered d Verdict.deny =
        put-IsRegistered r before run w found same alive reg _ settled refl run.queue _
    judged-IsRegistered d Verdict.ask =
        put-IsRegistered r before run w found same alive reg _ settled refl run.queue _
    judged-IsRegistered d Verdict.allow =
        prepare-IsRegistered r before run (note "gate:allow" (some run.task.id) d.reason w) found
          same alive reg settled

    launch-IsRegistered : (name : String) → IsRegistered (launch gate adapters r run name w)
    unfolding launch next_report
    launch-IsRegistered name =
        let begun : Worker = record w { queues = set run.task.id r w.queues } in
        let reg' : IsRegistered begun = record {
          queued =
              Names-add live w.queues w.runs r before run.task.id found (sym same) alive reg.queued;
          resolvable = reg.resolvable;
          asked = reg.asked;
          unused = reg.unused;
        } in
        elim (Bool-cases (includes adapters name)) [
          | inl known ↦ rw known (
              put-IsRegistered r before run begun found same alive reg' (awaiting_report none)
                settled refl (record { items = []; waiter = true }) (launched name ∷ run.log))
          | inr unknown ↦ rw unknown (
              end-IsRegistered r before
                (record run { queue = record { items = []; waiter = false } }) begun found same
                alive reg' _)
        ]

    go_on-IsRegistered : (next : Next) → IsRegistered (go_on gate adapters next r run w)
    unfolding go_on next_report
    go_on-IsRegistered (starts_agent name) = launch-IsRegistered name
    go_on-IsRegistered (waits_for_start question) =
        wait-IsRegistered r before run w found same alive reg (awaiting_start none) question refl
          refl
    go_on-IsRegistered (waits_for_user item question) =
        wait-IsRegistered r before run w found same alive reg (awaiting_user item none) question
          refl refl
    go_on-IsRegistered resumes =
        listen-IsRegistered r before run w found same alive reg settled run.queue.items
    go_on-IsRegistered (denied_by_gate _) =
        end-IsRegistered r before run w found same alive reg returned_true
    go_on-IsRegistered not_approved =
        end-IsRegistered r before run w found same alive reg returned_true
    go_on-IsRegistered (completes _) =
        end-IsRegistered r before run w found same alive reg returned_true
    go_on-IsRegistered (fails _) =
        end-IsRegistered r before run w found same alive reg returned_true
    go_on-IsRegistered denied_by_user =
        end-IsRegistered r before run w found same alive reg returned_true

    consume-IsRegistered :
        (report : LocalReport) (item : QueueItem) → IsRegistered (consume report item r run w)
    consume-IsRegistered (LocalReport.completed _) item =
        put-IsRegistered r before run w found same alive reg _ settled refl run.queue _
    consume-IsRegistered (LocalReport.failed _) item =
        put-IsRegistered r before run w found same alive reg _ settled refl run.queue _
    consume-IsRegistered (LocalReport.ask _) item =
        put-IsRegistered r before run w found same alive reg _ settled refl run.queue _

    next_arrived-IsRegistered : (next : Option QueueItem) → IsRegistered (next_arrived next r run w)
    next_arrived-IsRegistered none =
        end-IsRegistered r before run w found same alive reg returned_true
    next_arrived-IsRegistered (some item) = consume-IsRegistered item.report item

  -- The decision of the user is there, and its entries are removed first.
  module _ (r : ℕ) (run : Run) (w : Worker) (found : w.runs r ≡ some run)
      (alive : live run.stage ≡ true) (reg : IsRegistered w) where
    start_decided-IsRegistered :
        (d : AskDecision) → IsRegistered (start_decided gate adapters d r run w)
    unfolding start_decided
    start_decided-IsRegistered AskDecision.deny =
        put-IsRegistered r run run (approval_over run.task.id w) found refl alive
          (approval_over-IsRegistered run.task.id w reg) _
          (inl (get-remove_self run.task.id w.approval_resolvers)) refl run.queue _
    start_decided-IsRegistered AskDecision.approve =
        prepare-IsRegistered r run (record run { log = heard AskDecision.approve ∷ run.log })
          (note "gate:approved" (some run.task.id) none (approval_over run.task.id w)) found refl
          alive (approval_over-IsRegistered run.task.id w reg)
          (inl (get-remove_self run.task.id w.approval_resolvers))

    user_decided-IsRegistered :
        (d : AskDecision) (item : QueueItem) → IsRegistered (user_decided d item r run w)
    unfolding user_decided
    user_decided-IsRegistered AskDecision.approve item =
        put-IsRegistered r run run (approval_over run.task.id w) found refl alive
          (approval_over-IsRegistered run.task.id w reg) _
          (inl (get-remove_self run.task.id w.approval_resolvers)) refl run.queue _
    user_decided-IsRegistered AskDecision.deny item =
        put-IsRegistered r run run (approval_over run.task.id w) found refl alive
          (approval_over-IsRegistered run.task.id w reg) _
          (inl (get-remove_self run.task.id w.approval_resolvers)) refl run.queue _

  module _ (r : ℕ) (run : Run) (w : Worker) (found : w.runs r ≡ some run)
      (reg : IsRegistered w) where
    pub resume-IsRegistered :
        (stage : Stage) → run.stage ≡ stage → IsRegistered (resume gate adapters stage r run w)
    unfolding judge
    resume-IsRegistered evaluating at =
        judged-IsRegistered r run run w found refl (ap live at) reg (inr (ap waiting at))
          (gate run.task run.instruction) _
    resume-IsRegistered (awaiting_start (some d)) at =
        start_decided-IsRegistered r run w found (ap live at) reg d
    resume-IsRegistered (awaiting_report (some next)) at =
        next_arrived-IsRegistered r run run w found refl (ap live at) reg (inr (ap waiting at)) next
    resume-IsRegistered (awaiting_user item (some d)) at =
        user_decided-IsRegistered r run w found (ap live at) reg d item
    resume-IsRegistered _ at = reg

    pub taken-IsRegistered :
        (stage : Stage) → run.stage ≡ stage → IsRegistered (taken gate adapters stage r run w)
    taken-IsRegistered (sending report next) at =
        go_on-IsRegistered r run run w found refl (ap live at) reg (inr (ap waiting at)) next
    taken-IsRegistered _ at = reg

    pub refuse-IsRegistered :
        (stage : Stage) → run.stage ≡ stage → IsRegistered (refuse stage r run w)
    refuse-IsRegistered (sending report next) at =
        end-IsRegistered r run run w found refl (ap live at) reg _
    refuse-IsRegistered _ at = reg
