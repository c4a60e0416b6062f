-- ===== src/ControlPlane/Routes.antt =====
-- apps/control-plane/src/server.ts: the requests of the HTTP server, who may make them, and what
-- answers they have. A body is `none` where its zod schema refuses it.
pub mod Totals
pub mod Handling
pub mod Access
use samdi.Common.{
  ℕ, String, Bool, true, false, ◌||◌, Option, none, some, List, ◌==◌, Outcome, returned, threw,
}
use samdi.Domain.{TaskStatus, TaskReport, Resolution}
use samdi.ControlPlane.Db.{
  Failure, Task, TaskEvent, Thread, ThreadEvent, WorkerRow, task_not_found, task_not_pending,
  invalid_transition, channel_exists, channel_not_found, channel_not_editable, channel_in_use,
  unknown_channel, http_url_required, type_error, invalid_request, constraint_violation,
}
use samdi.ControlPlane.Tasks.Listing.{ListOptions}
use samdi.ControlPlane.Channels.{ChannelRecord}

pub record IngestBody : Type 0 where
  pub payload : String
  pub agent : Option String
  pub context_key : Option String

pub record ClaimBody : Type 0 where
  pub worker_id : String
  pub labels : List String
  pub lease_seconds : ℕ

pub record HeartbeatBody : Type 0 where
  pub task_ids : List String
  pub lease_seconds : ℕ
  pub labels : List String

-- A null interpreter is `none`, as for `create`.
pub record CreateBody (Json : Type 0) : Type 0 where
  pub id : String
  pub label : Option String
  pub interpreter : Option Json

pub record PatchBody (Json : Type 0) : Type 0 where
  pub label : Option String
  pub interpreter : Option Json

pub data Route (Json : Type 0) : Type 0 where
  health overview channel_list : Route Json
  post_event admin_event : String → Option IngestBody → Route Json
  channel_threads thread_detail recover task_detail : String → Route Json
  claim : Option ClaimBody → Route Json
  report : String → Option TaskReport → Route Json
  heartbeat : String → Option HeartbeatBody → Route Json
  assign_agent : String → Option String → Route Json
  resolve : String → Option Resolution → Route Json
  task_list : ListOptions → Route Json
  register_channel : Option (CreateBody Json) → Route Json
  patch_channel : String → Option (PatchBody Json) → Route Json
  new_channel_key disable_channel : String → Route Json
  delete_channel : String → Bool → Route Json

pub record Overview : Type 0 where
  pub tasks : TaskStatus → ℕ
  pub threads_open : ℕ
  pub threads_dispatched : ℕ
  pub threads_discarded : ℕ
  pub threads_expired : ℕ
  pub workers : List (WorkerRow × ℕ × Option ℕ)
  pub covered_labels : List String
  pub channels : ℕ

pub data Answer : Type 0 where
  done invalid_key invalid_channel_key absent : Answer
  failure : Failure → Answer
  ingested : Option String → Option String → Answer
  thread_list : List Thread → Answer
  thread_found : Thread → List ThreadEvent → Answer
  claim_result : Option Task → Option String → Answer
  task_row : Task → Answer
  id_list : List String → Answer
  task_page : List (Task × String) → ℕ → Answer
  task_found : Task → Option String → List TaskEvent → Answer
  summary : Overview → Answer
  channel_records : List (ChannelRecord × Option String) → Answer
  registered : ChannelRecord → String → Answer
  channel_record : ChannelRecord → Answer
  issued_key : String → Answer
  removed_rows : ℕ → ℕ → Answer

pub record Response : Type 0 where
  pub code : ℕ
  pub answer : Answer

-- `x-channel-key`, `x-worker-key` and `x-admin-key`
pub record Headers : Type 0 where
  pub channel_key : Option String
  pub worker_key : Option String
  pub admin_key : Option String

pub record Keys : Type 0 where
  pub worker_key : String
  pub admin_key : String

-- `setErrorHandler`
abbrev pub failure_code : Failure → ℕ
failure_code invalid_request = 400
failure_code (invalid_transition from to) = 409
failure_code (task_not_pending id status) = 409
failure_code (task_not_found id) = 404
failure_code (channel_not_found id) = 404
failure_code (channel_exists id) = 409
failure_code (channel_in_use id n m) = 409
failure_code (channel_not_editable id) = 403
failure_code (unknown_channel id) = 500
failure_code http_url_required = 500
failure_code type_error = 500
failure_code constraint_violation = 500

-- The three `preHandler`s, and the routes without one.
pub data Need : Type 0 where
  need_nothing need_worker need_worker_or_admin need_admin : Need

abbrev pub need : {Json : Type 0} → Route Json → Need
need health = need_nothing
need (post_event id body) = need_nothing
need (claim body) = need_worker
need (report id body) = need_worker
need (recover id) = need_worker
need (heartbeat id body) = need_worker
need (channel_threads id) = need_worker_or_admin
need (thread_detail id) = need_worker_or_admin
need (assign_agent id body) = need_worker_or_admin
need (resolve id body) = need_worker_or_admin
need (task_list opts) = need_worker_or_admin
need (task_detail id) = need_worker_or_admin
need overview = need_admin
need channel_list = need_admin
need (register_channel body) = need_admin
need (patch_channel id body) = need_admin
need (new_channel_key id) = need_admin
need (disable_channel id) = need_admin
need (delete_channel id purge) = need_admin
need (admin_event id body) = need_admin

-- `req.headers[name] === key`
abbrev pub is_key : String → Option String → Bool
is_key expected none = false
is_key expected (some given) = given == expected

abbrev pub may : Keys → Headers → Need → Bool
may keys h need_nothing = true
may keys h need_worker = is_key keys.worker_key h.worker_key
may keys h need_worker_or_admin =
    is_key keys.worker_key h.worker_key || is_key keys.admin_key h.admin_key
may keys h need_admin = is_key keys.admin_key h.admin_key
