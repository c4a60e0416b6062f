-- ===== src/ControlPlane/Audit.antt =====
-- apps/control-plane/src/task-store.ts: what `appendEvent` writes to the audit log of a task.
use samdi.Common.{ℕ, String, Option, none, some, List, [], ◌∷◌, ◌==◌, if◌then◌else◌, ◌>>=◌}
use samdi.Domain.{
  TaskStatus, pending, claimed, running, waiting, stalled, rejected, completed, failed, TaskReport,
  report_rejected, report_started, report_waiting, report_resumed, report_completed, report_failed,
  Resolution, retry, abandon,
}
use samdi.ControlPlane.Db.{Query, Field, text, insert_task_event, now, random_uuid}

abbrev pub status_name : TaskStatus → String
status_name pending = "pending"
status_name claimed = "claimed"
status_name running = "running"
status_name waiting = "waiting"
status_name stalled = "stalled"
status_name rejected = "rejected"
status_name completed = "completed"
status_name failed = "failed"

-- `...(value ? { name: value } : {})`: an empty text is left out too.
abbrev pub field_if : String → Option String → List (String × Field)
field_if name none = []
field_if name (some value) = if value == "" then [] else (name, text value) ∷ []

-- `report:${report.type}`
abbrev pub report_event : TaskReport → String
report_event (report_rejected _) = "report:rejected"
report_event report_started = "report:started"
report_event (report_waiting _) = "report:waiting"
report_event report_resumed = "report:resumed"
report_event (report_completed _) = "report:completed"
report_event (report_failed _) = "report:failed"

-- The report as it is written to the audit log. JSON leaves out an undefined summary.
abbrev pub report_fields : TaskReport → List (String × Field)
report_fields (report_rejected reason) = ("type", text "rejected") ∷ ("reason", text reason) ∷ []
report_fields report_started = ("type", text "started") ∷ []
report_fields (report_waiting question) =
    ("type", text "waiting") ∷ ("question", text question) ∷ []
report_fields report_resumed = ("type", text "resumed") ∷ []
report_fields (report_completed none) = ("type", text "completed") ∷ []
report_fields (report_completed (some summary)) =
    ("type", text "completed") ∷ ("summary", text summary) ∷ []
report_fields (report_failed reason) = ("type", text "failed") ∷ ("reason", text reason) ∷ []

abbrev pub resolution_event : Resolution → String
resolution_event retry = "retried"
resolution_event abandon = "abandoned"

module _ (uuid : ℕ → String) where
  abbrev pub append_event : String → String → List (String × Field) → Query (Unit {0})
  append_event task_id type fields = do
    id ← random_uuid uuid
    at ← now
    insert_task_event (record { id = id; task_id = task_id; at = at; type = type; fields = fields })
