-- ===== src/Worker/Daemon/Requests.antt =====
-- apps/worker/src/index.ts: the local API of the worker, for the agents (`/report`) and for the
-- user's browser (`/ui`). What the control plane answers to a call is an argument.
pub mod Serving
use Prim.Native.String.{◌++◌ as text_append}
use Prim.Native.Nat.{◌/◌, ◌%◌}
use samdi.Common.{
  length, ltb, ◌-◌, ℕ, ◌+◌, String, Bool, true, false, ◌||◌, not, Option, none, some, List, [], ◌∷◌,
  if◌then◌else◌, includes, ◌==◌,
}
use samdi.Common.Maps.{values, same_number}
use samdi.Common.Order.{order_by}
use samdi.Common.Texts.{trim}
use samdi.Domain.{Resolution}
use samdi.Worker.State.{
  WorkerState, StateError, Change, refused, changed, set_labels, set_concurrency, set_default_agent,
  reset, labels_of, concurrency_of, default_agent_of, WorkerDefaults, Overrides,
}
use samdi.Worker.Activity.{ActivityEntry, latest_first}
use samdi.Worker.Process.{
  Worker, LocalReport, LocalAnswer, no_task, accepted, deferred, AskDecision, CurrentTask,
  PendingApproval, handle_local_report, choose_agent, chosen_agent, decide, note,
}
use samdi.Worker.Process.Steps.{in_registry}
use samdi.Worker.Daemon.{Daemon, Loop, apply_concurrency}

-- A body that the handler tests: `none` where the test of its type fails.
pub data Request : Type 0 where
  report : String → Option LocalReport → Request
  set_labels_to : Bool → Option (List String) → Request
  set_concurrency_to : Option ℕ → Request
  finish_task : String → Option Bool → Option String → Request
  state : Request
  approve_task : String → Option AskDecision → Request
  agents : Request
  set_default : Option String → Request
  task_list : Request
  assign_agent : String → Option String → Request
  task_detail : String → Request
  resolve_task : String → Option Resolution → Request

-- The calls of `ControlPlaneClient` that the handlers make.
pub data Call : Type 0 where
  list_tasks : Call
  get_task : String → Call
  set_agent : String → String → Call
  resolve_stalled : String → Resolution → Call

pub record UiState : Type 0 where
  pub settings : WorkerState
  pub running_loops : ℕ
  pub current : List CurrentTask
  pub approvals : List (PendingApproval × Option String)
  pub activity : List ActivityEntry

-- What the routes answer; `pending` is an answer that waits for the decision of the user.
pub data Answer (Reply : Type 0) : Type 0 where
  done : Answer Reply
  pending : ℕ → Answer Reply
  invalid : Answer Reply
  invalid_state : StateError → Answer Reply
  not_saved : Answer Reply
  no_task_in_progress : String → Answer Reply
  not_started_yet : Answer Reply
  no_pending_approval : String → Answer Reply
  labels_now : List String → Bool → Answer Reply
  concurrency_now : ℕ → ℕ → Answer Reply
  default_now : String → Bool → Answer Reply
  kept_by_worker : Answer Reply
  agent_names : List String → String → String → Answer Reply
  ui_state : UiState → Answer Reply
  relayed : Reply → Answer Reply
  upstream_failed : Answer Reply

pub record Response (Reply : Type 0) : Type 0 where
  pub code : ℕ
  pub answer : Answer Reply

-- `worker.current` and `worker.approvals`
abbrev pub current : Worker → List CurrentTask
current w = order_by (λ c. c.started_at) (values w.current_tasks)

abbrev pub approvals : Worker → List PendingApproval
approvals w = order_by (λ a. a.asked_at) (values w.pending_approvals)

abbrev pub is_waiting : String → List PendingApproval → Bool
is_waiting id [] = false
is_waiting id (a ∷ as_) = a.task_id == id || is_waiting id as_

abbrev with_agents : Worker → List PendingApproval → List (PendingApproval × Option String)
with_agents w [] = []
with_agents w (a ∷ rest) = (a, chosen_agent a.task_id w) ∷ with_agents w rest

-- `labels.join(', ')`
abbrev join : List String → String
join [] = ""
join (l ∷ []) = l
join (l ∷ k ∷ ls) = text_append l (text_append ", " (join (k ∷ ls)))

abbrev pub with_settings : WorkerState → Daemon → Daemon
with_settings s d = record d { worker = record d.worker { settings = s } }

abbrev noted : String → Option String → Option String → Daemon → Daemon
noted type id detail d = record d { worker = note type id detail d.worker }

-- `note?.trim() || undefined`
abbrev trimmed_note : Option String → Option String
trimmed_note none = none
trimmed_note (some n) = if trim n == "" then none else some (trim n)

-- `note?.trim() ? `: ${note.trim()}` : ''`
abbrev suffix : Option String → String
suffix none = ""
suffix (some n) = text_append ": " n

abbrev outcome_report : Bool → String → LocalReport
outcome_report true s = LocalReport.completed (some (text_append "사람이 직접 완료 처리함" s))
outcome_report false s = LocalReport.failed (text_append "사람이 직접 종료함" s)

abbrev outcome_name : Bool → String
outcome_name true = "manual:completed"
outcome_name false = "manual:failed"

abbrev decision_name : AskDecision → String
decision_name AskDecision.approve = "manual:approve"
decision_name AskDecision.deny = "manual:deny"

abbrev resolution_name : Resolution → String
resolution_name Resolution.retry = "manual:retry"
resolution_name Resolution.abandon = "manual:abandon"
