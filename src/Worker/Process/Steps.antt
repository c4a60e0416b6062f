-- ===== src/Worker/Process/Steps.antt =====
-- apps/worker/src/worker.ts: `Worker.processOne`, split at each `await`.
use Prim.Native.String.{◌++◌ as text_append}
use samdi.Common.{
  ℕ, suc, ◌+◌, String, Bool, false, not, ◌||◌, Option, none, some, List, [], ◌∷◌, includes,
  if◌then◌else◌, ◌==◌,
}
use samdi.Common.Maps.{get, set, remove}
use samdi.ControlPlane.Db.{Task}
use samdi.Domain.{
  TaskReport, report_rejected, report_started, report_waiting, report_resumed, report_completed,
  report_failed,
}
use samdi.Gateway.{Verdict, StartGateDecision}
use samdi.Worker.State.{WorkerState, default_agent_of}
use samdi.Worker.Process.{
  LocalReport, AskDecision, WorkerPhase, QueueItem, WorkerError, Ending, returned_true, threw, Next,
  denied_by_gate, waits_for_start, not_approved, starts_agent, completes, fails, waits_for_user,
  resumes, denied_by_user, Stage, evaluating, sending, awaiting_start, awaiting_report,
  awaiting_user, ended, sent, launched, heard, Run, Worker, note, put_run, set_phase,
  wait_for_approval, approval_over, push_item, next_report, timed_out, handle_local_report,
  choose_agent, decide,
}

abbrev pub or_text : Option String → String → String
or_text none d = d
or_text (some t) d = t

-- `await client.report(task.id, report)`
abbrev pub send : ℕ → Run → TaskReport → Next → Worker → Worker
send r run report next w =
    put_run r (record run { stage = sending report next; log = sent report ∷ run.log }) w

-- The end of the call, with its `finally`.
abbrev pub finish : ℕ → Run → Ending → Worker → Worker
finish r run ending w =
    put_run r (record run { stage = ended ending })
      (record w {
        queues = remove run.task.id w.queues;
        pending_approvals = remove run.task.id w.pending_approvals;
        approval_resolvers = remove run.task.id w.approval_resolvers;
        current_tasks = remove run.task.id w.current_tasks;
      })

-- What a plain object has from `Object.prototype`: an index by these names gives something, which
-- has no method `start`.
abbrev pub object_members : List String
object_members =
    "constructor" ∷ "toString" ∷ "toLocaleString" ∷ "valueOf" ∷ "hasOwnProperty" ∷ "isPrototypeOf"
    ∷ "propertyIsEnumerable" ∷ "__proto__" ∷ "__defineGetter__" ∷ "__defineSetter__"
    ∷ "__lookupGetter__" ∷ "__lookupSetter__" ∷ []

-- `adapters[name]` is something
abbrev pub in_registry : List String → String → Bool
in_registry adapters name = includes adapters name || includes object_members name

-- `requested && adapters[requested] ? requested : fallback`
abbrev pub agent_name : List String → Option String → String → String
agent_name adapters none fallback = fallback
agent_name adapters (some requested) fallback =
    if (requested == "")
    then fallback
    else (if in_registry adapters requested then requested else fallback)

abbrev pub or_else : Option String → Option String → Option String
or_else none b = b
or_else (some a) b = some a

abbrev is_fallback : Option String → String → Bool
is_fallback none name = false
is_fallback (some requested) name = if requested == "" then false else not (requested == name)

abbrev noted_fallback : String → Option String → String → Worker → Worker
noted_fallback id requested name w = record w {
  activity =
      if is_fallback requested name
      then (note "agent:fallback" (some id)
          (some (text_append (or_text requested "") (text_append " 없음 → " name))) w).activity
      else w.activity;
}

-- `queue.next(leaseSeconds * 1000)`
abbrev pub listen : ℕ → Run → Worker → Worker
listen r run w = put_run r (next_report run) w

-- The queue gave a report, or nothing within the lease.
abbrev pub consume : LocalReport → QueueItem → ℕ → Run → Worker → Worker
consume (LocalReport.completed summary) item r run w =
    send r run (report_completed summary) (completes summary)
      (set_phase run.task.id WorkerPhase.reporting w)
consume (LocalReport.failed reason) item r run w =
    send r run (report_failed reason) (fails reason) (set_phase run.task.id WorkerPhase.reporting w)
consume (LocalReport.ask question) item r run w =
    send r run (report_waiting question) (waits_for_user item question) (
      note "ask" (some run.task.id) (some question)
        (set_phase run.task.id WorkerPhase.awaiting_approval w))

abbrev pub next_arrived : Option QueueItem → ℕ → Run → Worker → Worker
next_arrived none r run w =
    finish r run returned_true
      (note "agent:no_report" (some run.task.id) (some "lease 내 보고 없음 → sweep에 맡김") w)
next_arrived (some item) r run w = consume item.report item r run w

abbrev respond : Option ℕ → AskDecision → List (ℕ × AskDecision) → List (ℕ × AskDecision)
respond none d answers = answers
respond (some request) d answers = (request, d) ∷ answers

-- The user has decided what the agent asked.
unfoldable pub user_decided : AskDecision → QueueItem → ℕ → Run → Worker → Worker
user_decided d item r run w =
    let answered = record (approval_over run.task.id w) {
      answers = respond item.respond_decision d w.answers;
    } in
    let told = record run { log = heard d ∷ run.log } in
    elim d [
      | AskDecision.approve ↦ send r told report_resumed resumes answered
      | AskDecision.deny ↦ send r told (report_failed "사용자가 승인을 거부했다") denied_by_user answered
    ]

abbrev pub refuse : Stage → ℕ → Run → Worker → Worker
refuse (sending report next) r run w = finish r run (threw WorkerError.report_refused) w
refuse stage r run w = w

abbrev pub refuse_run : ℕ → Run → Worker → Worker
refuse_run r run w = refuse run.stage r run w

abbrev pub end_wait : ℕ → Run → Worker → Worker
end_wait r run w = put_run r (timed_out run.stage run) w

-- `processOne` from the answer to `claim` on
unfoldable pub claimed : Option Task → Option String → Worker → Worker
claimed none payload w = w
claimed (some task) payload w =
    let current = record w {
      current_tasks =
          set task.id
            (record {
              task_id = task.id;
              label = task.label;
              phase = WorkerPhase.gate;
              started_at = w.clock;
            })
            w.current_tasks;
      next_run = suc w.next_run;
    } in
    put_run w.next_run
      (record {
        task = task;
        instruction = or_text payload "";
        stage = evaluating;
        queue = record { items = []; waiter = false };
        log = [];
      })
      (note "claimed" (some task.id) (some task.label) current)

-- What can happen to a worker. An event that a run does not wait for changes nothing.
pub data Event : Type 0 where
  claim_answered : Option Task → Option String → Event
  promise_resolved report_taken report_failed_to_send lease_over : ℕ → Event
  adapter_threw : ℕ → String → Event
  agent_reported : String → LocalReport → Event
  user_chose : String → String → Event
  user_decided_on : String → AskDecision → Event
  settings_changed : WorkerState → Event
  clock_moved : ℕ → Event

abbrev pub on_run : (ℕ → Run → Worker → Worker) → ℕ → Option Run → Worker → Worker
on_run f r none w = w
on_run f r (some run) w = f r run w

abbrev pub failed_to_start : String → QueueItem
failed_to_start err = record {
  report = LocalReport.failed (text_append "adapter: " err);
  respond_decision = none;
}

abbrev pub report_crash : String → ℕ → Run → Worker → Worker
report_crash err r run w = put_run r (push_item (failed_to_start err) run) w

module _ (gate : Task → String → StartGateDecision) (adapters : List String) where
  -- From the decision to start on, up to the report of it.
  unfoldable pub prepare : ℕ → Run → Worker → Worker
  prepare r run w =
      let requested = or_else (get run.task.id w.agent_overrides) run.task.agent in
      let fallback = default_agent_of w.settings in
      let name = agent_name adapters requested fallback in
      if in_registry adapters name
      then send r run report_started (starts_agent name)
          (noted_fallback run.task.id requested name w)
      else finish r run (threw (WorkerError.unknown_default_agent fallback)) w

  abbrev pub judged : StartGateDecision → Verdict → ℕ → Run → Worker → Worker
  judged d Verdict.deny r run w =
      let reason = or_text d.reason "start gate denied" in
      send r run (report_rejected reason) (denied_by_gate reason) w
  judged d Verdict.ask r run w =
      let question = or_text d.question "이 작업을 시작할까요?" in
      send r run (report_waiting question) (waits_for_start question) (
        note "gate:ask" (some run.task.id) d.reason
          (set_phase run.task.id WorkerPhase.awaiting_approval w))
  judged d Verdict.allow r run w = prepare r run (note "gate:allow" (some run.task.id) d.reason w)

  unfoldable pub judge : ℕ → Run → Worker → Worker
  unfolding prepare
  judge r run w = let d = gate run.task run.instruction in judged d d.verdict r run w

  -- The new queue, and the adapter's `start`, which is not waited for.
  unfoldable pub launch : ℕ → Run → String → Worker → Worker
  launch r run name w =
      let id = run.task.id in
      let begun =
        record (note "agent:started" (some id) (some name)
          (set_phase id WorkerPhase.agent_running w)) { queues = set id r w.queues } in
      let fresh = record run { queue = record { items = []; waiter = false } } in
      if includes adapters name
      then listen r (record fresh { log = launched name ∷ run.log }) begun
      else finish r fresh (threw (WorkerError.not_an_adapter name)) begun

  -- What follows when the control plane has taken the report.
  unfoldable pub go_on : Next → ℕ → Run → Worker → Worker
  unfolding launch
  go_on (denied_by_gate reason) r run w =
      finish r run returned_true (note "gate:deny" (some run.task.id) (some reason) w)
  go_on (waits_for_start question) r run w =
      put_run r (record run { stage = awaiting_start none })
        (wait_for_approval r run.task.id question w)
  go_on not_approved r run w =
      finish r run returned_true (note "gate:denied_by_user" (some run.task.id) none w)
  go_on (starts_agent name) r run w = launch r run name w
  go_on (completes summary) r run w =
      finish r run returned_true (note "completed" (some run.task.id) summary w)
  go_on (fails reason) r run w =
      finish r run returned_true (note "failed" (some run.task.id) (some reason) w)
  go_on (waits_for_user item question) r run w =
      put_run r (record run { stage = awaiting_user item none })
        (wait_for_approval r run.task.id question w)
  go_on resumes r run w =
      listen r run (
        set_phase run.task.id WorkerPhase.agent_running (note "approved" (some run.task.id) none w))
  go_on denied_by_user r run w =
      finish r run returned_true (note "denied" (some run.task.id) none w)

  -- The user has decided whether the task may start.
  unfoldable pub start_decided : AskDecision → ℕ → Run → Worker → Worker
  unfolding prepare
  start_decided d r run w = elim d [
    | AskDecision.deny ↦
        send r (record run { log = heard AskDecision.deny ∷ run.log })
          (report_rejected "사용자가 시작을 승인하지 않았다") not_approved (approval_over run.task.id w)
    | AskDecision.approve ↦
        prepare r (record run { log = heard AskDecision.approve ∷ run.log })
          (note "gate:approved" (some run.task.id) none (approval_over run.task.id w))
  ]

  -- A promise that is resolved lets the call go on.
  abbrev pub resume : Stage → ℕ → Run → Worker → Worker
  resume evaluating r run w = judge r run w
  resume (awaiting_start (some d)) r run w = start_decided d r run w
  resume (awaiting_report (some next)) r run w = next_arrived next r run w
  resume (awaiting_user item (some d)) r run w = user_decided d item r run w
  resume stage r run w = w

  abbrev pub taken : Stage → ℕ → Run → Worker → Worker
  taken (sending report next) r run w = go_on next r run w
  taken stage r run w = w

  abbrev pub resume_run : ℕ → Run → Worker → Worker
  resume_run r run w = resume run.stage r run w

  abbrev pub take : ℕ → Run → Worker → Worker
  take r run w = taken run.stage r run w

  unfoldable pub step : Event → Worker → Worker
  step (claim_answered task payload) w = claimed task payload w
  step (promise_resolved r) w = on_run resume_run r (w.runs r) w
  step (report_taken r) w = on_run take r (w.runs r) w
  step (report_failed_to_send r) w = on_run refuse_run r (w.runs r) w
  step (lease_over r) w = on_run end_wait r (w.runs r) w
  step (adapter_threw r err) w = on_run (report_crash err) r (w.runs r) w
  step (agent_reported id report) w = (handle_local_report id report w).1
  step (user_chose id agent) w = (choose_agent id agent w).1
  step (user_decided_on id d) w = (decide id d w).1
  step (settings_changed settings) w = record w { settings = settings }
  step (clock_moved n) w = record w { clock = w.clock + n }

  unfoldable pub run_events : List Event → Worker → Worker
  unfolding step
  run_events [] w = w
  run_events (e ∷ es) w = run_events es (step e w)
