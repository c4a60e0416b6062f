-- ===== src/Worker/Daemon/Requests/Serving.antt =====
-- apps/worker/src/index.ts: the handlers of the local API.
use Prim.Native.String.{◌++◌ as text_append}
use Prim.Native.Nat.{◌/◌, ◌%◌}
use samdi.Common.{
  length, ltb, ◌-◌, ℕ, String, Bool, true, false, ◌||◌, not, Option, none, some, List, [], ◌∷◌,
  if◌then◌else◌, ◌==◌,
}
use samdi.Common.Maps.{same_number, is_some}
use samdi.Domain.{Resolution}
use samdi.Worker.State.{
  WorkerState, StateError, Change, refused, changed, unsaved, Disk, set_labels, set_concurrency,
  set_default_agent, reset, labels_of, concurrency_of, default_agent_of,
}
use samdi.Worker.Activity.{latest_first}
use samdi.Worker.Process.{
  Worker, LocalReport, LocalAnswer, no_task, accepted, deferred, AskDecision, handle_local_report,
  choose_agent, decide,
}
use samdi.Worker.Process.Steps.{in_registry}
use samdi.Worker.Daemon.{Daemon, apply_concurrency}
use samdi.Worker.Daemon.Requests.{
  Request, report, set_labels_to, set_concurrency_to, finish_task, state, approve_task, agents,
  set_default, task_list, assign_agent, task_detail, resolve_task, Call, list_tasks, get_task,
  set_agent, resolve_stalled, UiState, Answer, done, pending, invalid, invalid_state, not_saved,
  no_task_in_progress, not_started_yet, no_pending_approval, labels_now, concurrency_now,
  default_now, kept_by_worker, agent_names, ui_state, relayed, upstream_failed, Response, current,
  approvals, is_waiting, with_agents, join, with_settings, noted, trimmed_note, suffix,
  outcome_report, outcome_name, decision_name, resolution_name,
}

-- `String(n)`, for the numbers up to 32 that a concurrency may be
abbrev digit : List String → ℕ → String
digit [] n = ""
digit (c ∷ cs) n = if same_number n 0 then c else digit cs (n - 1)

abbrev digits : List String
digits = "0" ∷ "1" ∷ "2" ∷ "3" ∷ "4" ∷ "5" ∷ "6" ∷ "7" ∷ "8" ∷ "9" ∷ []

abbrev decimal : ℕ → String
decimal n =
    if ltb n 10 then digit digits n else text_append (digit digits (n / 10)) (digit digits (n % 10))

-- `String(agent)`
abbrev or_undefined : Option String → String
or_undefined none = "undefined"
or_undefined (some agent) = agent

module _ {Reply : Type 0} (adapters : List String) (upstream : Call → Option Reply)
    (disk : Disk) where
  abbrev Served : Type 0
  Served = Response Reply × Daemon

  abbrev reply : ℕ → Answer Reply → Daemon → Served
  reply code answer d = (record { code = code; answer = answer }, d)

  -- A setter that throws is answered by 400, whatever it has changed by then.
  abbrev pub on_change : Change → (WorkerState → Served) → Daemon → Served
  on_change (refused e) next d = reply 400 (invalid_state e) d
  on_change (changed s) next d = next s
  on_change (unsaved s) next d = reply 400 not_saved (with_settings s d)

  abbrev post_labels : Bool → Option (List String) → Daemon → Served
  post_labels true labels d =
      on_change (reset disk d.worker.settings)
        (λ s.
          reply 200 (labels_now (labels_of s) (is_some s.overrides.labels))
            (apply_concurrency (with_settings s d)))
        d
  post_labels false none d = reply 400 invalid d
  post_labels false (some labels) d =
      on_change (set_labels disk labels d.worker.settings)
        (λ s.
          reply 200 (labels_now (labels_of s) (is_some s.overrides.labels))
            (noted "labels:changed" none (some (join (labels_of s))) (with_settings s d)))
        d

  abbrev post_concurrency : Option ℕ → Daemon → Served
  post_concurrency none d = reply 400 (invalid_state StateError.bad_concurrency) d
  post_concurrency (some n) d =
      on_change (set_concurrency disk n d.worker.settings)
        (λ s.
          let d' = apply_concurrency (with_settings s d) in
          reply 200 (concurrency_now (concurrency_of s) (length d'.loops))
            (noted "concurrency:changed" none (some (decimal (concurrency_of s))) d'))
        d

  abbrev post_default : Option String → Daemon → Served
  post_default agent d =
      on_change (set_default_agent disk (or_undefined agent) adapters d.worker.settings)
        (λ s.
          reply 200 (default_now (default_agent_of s) (is_some s.overrides.default_agent))
            (noted "default-agent:changed" none (some (default_agent_of s)) (with_settings s d)))
        d

  abbrev pub reported : String → LocalAnswer → Worker → Daemon → Served
  reported id no_task w d = reply 404 (no_task_in_progress id) d
  reported id accepted w d = reply 200 done (record d { worker = w })
  reported id (deferred request) w d = reply 200 (pending request) (record d { worker = w })

  abbrev post_report : String → Option LocalReport → Daemon → Served
  post_report id none d = reply 400 invalid d
  post_report id (some r) d =
      let answered = handle_local_report id r d.worker in reported id answered.0 answered.1 d

  abbrev pub finished : String → Bool → Option String → LocalAnswer → Worker → Daemon → Served
  finished id outcome detail no_task w d =
      if is_waiting id (approvals d.worker)
      then reply 409 not_started_yet d
      else reply 404 (no_task_in_progress id) d
  finished id outcome detail accepted w d =
      reply 200 done (noted (outcome_name outcome) (some id) detail (record d { worker = w }))
  finished id outcome detail (deferred _) w d =
      reply 200 done (noted (outcome_name outcome) (some id) detail (record d { worker = w }))

  abbrev post_finish : String → Option Bool → Option String → Daemon → Served
  post_finish id none text d = reply 400 invalid d
  post_finish id (some outcome) text d =
      let detail = trimmed_note text in
      let answered = handle_local_report id (outcome_report outcome (suffix detail)) d.worker in
      finished id outcome detail answered.0 answered.1 d

  abbrev pub decided : String → AskDecision → Bool × Worker → Daemon → Served
  decided id decision (false, w) d = reply 404 (no_pending_approval id) d
  decided id decision (true, w) d =
      reply 200 done (noted (decision_name decision) (some id) none (record d { worker = w }))

  abbrev post_decision : String → Option AskDecision → Daemon → Served
  post_decision id none d = reply 400 invalid d
  post_decision id (some decision) d = decided id decision (decide id decision d.worker) d

  -- A call that fails throws, which Fastify answers by 500.
  abbrev pub relay : Option Reply → (Daemon → Daemon) → Daemon → Served
  relay none next d = reply 500 upstream_failed d
  relay (some answer) next d = reply 200 (relayed answer) (next d)

  abbrev pub chosen_or_set : String → String → Bool × Worker → Daemon → Served
  chosen_or_set id agent (true, w) d =
      reply 200 kept_by_worker
        (noted "agent:chosen" (some id) (some agent) (record d { worker = w }))
  chosen_or_set id agent (false, w) d =
      relay (upstream (set_agent id agent)) (noted "agent:assigned" (some id) (some agent)) d

  abbrev post_agent : String → Option String → Daemon → Served
  post_agent id none d = reply 400 invalid d
  post_agent id (some agent) d =
      if agent == "" || not (in_registry adapters agent)
      then reply 400 invalid d
      else chosen_or_set id agent (choose_agent id agent d.worker) d

  abbrev post_resolve : String → Option Resolution → Daemon → Served
  post_resolve id none d = reply 400 invalid d
  post_resolve id (some action) d =
      relay (upstream (resolve_stalled id action)) (noted (resolution_name action) (some id) none) d

  abbrev state_of : Daemon → UiState
  state_of d = record {
    settings = d.worker.settings;
    running_loops = length d.loops;
    current = current d.worker;
    approvals = with_agents d.worker (approvals d.worker);
    activity = latest_first d.worker.activity;
  }

  unfoldable pub serve : Request → Daemon → Response Reply × Daemon
  serve (report id body) d = post_report id body d
  serve (set_labels_to reset labels) d = post_labels reset labels d
  serve (set_concurrency_to n) d = post_concurrency n d
  serve (finish_task id outcome text) d = post_finish id outcome text d
  serve state d = reply 200 (ui_state (state_of d)) d
  serve (approve_task id decision) d = post_decision id decision d
  serve agents d =
      reply 200
        (agent_names adapters (default_agent_of d.worker.settings)
          d.worker.settings.configured.default_agent)
        d
  serve (set_default agent) d = post_default agent d
  serve task_list d = relay (upstream list_tasks) (λ d. d) d
  serve (assign_agent id agent) d = post_agent id agent d
  serve (task_detail id) d = relay (upstream (get_task id)) (λ d. d) d
  serve (resolve_task id action) d = post_resolve id action d
