-- ===== src/Domain.antt =====
-- packages/task-domain/src/state-machine.ts and the status and report types of
-- packages/protocol/src/task.ts and api.ts.
pub mod Lifecycle
use samdi.Common.{Bool, true, false, ◌||◌, not, List, [], ◌∷◌, String, Option, if◌then◌else◌}

pub data TaskStatus : Type 0 where
  pending claimed running waiting stalled rejected completed failed : TaskStatus

-- `===` on two statuses
abbrev pub same_status : TaskStatus → TaskStatus → Bool
same_status pending pending = true
same_status claimed claimed = true
same_status running running = true
same_status waiting waiting = true
same_status stalled stalled = true
same_status rejected rejected = true
same_status completed completed = true
same_status failed failed = true
same_status _ _ = false

abbrev pub status_in : List TaskStatus → TaskStatus → Bool
status_in [] s = false
status_in (t ∷ ts) s = same_status t s || status_in ts s

abbrev pub transitions : TaskStatus → List TaskStatus
transitions pending = claimed ∷ []
transitions claimed = running ∷ waiting ∷ rejected ∷ stalled ∷ []
transitions running = waiting ∷ completed ∷ failed ∷ stalled ∷ []
transitions waiting = running ∷ rejected ∷ failed ∷ stalled ∷ []
transitions stalled = pending ∷ failed ∷ []
transitions rejected = []
transitions completed = []
transitions failed = []

abbrev pub terminal_statuses : List TaskStatus
terminal_statuses = rejected ∷ completed ∷ failed ∷ []

abbrev pub can_transition : TaskStatus → TaskStatus → Bool
can_transition from to = status_in (transitions from) to

abbrev pub is_terminal : TaskStatus → Bool
is_terminal s = status_in terminal_statuses s

-- The statuses of `status IN ('claimed', 'running', 'waiting')`: a worker holds the task.
abbrev pub in_flight : TaskStatus → Bool
in_flight s = status_in (claimed ∷ running ∷ waiting ∷ []) s

-- What a worker reports of a task, with the fields of each kind.
pub data TaskReport : Type 0 where
  report_rejected : String → TaskReport
  report_started : TaskReport
  report_waiting : String → TaskReport
  report_resumed : TaskReport
  report_completed : Option String → TaskReport
  report_failed : String → TaskReport

-- `REPORT_TARGET[report.type]`
abbrev pub report_target : TaskReport → TaskStatus
report_target (report_rejected _) = rejected
report_target report_started = running
report_target (report_waiting _) = waiting
report_target report_resumed = running
report_target (report_completed _) = completed
report_target (report_failed _) = failed

pub data Resolution : Type 0 where
  retry abandon : Resolution

-- `action === 'retry' ? 'pending' : 'failed'`
abbrev pub resolution_target : Resolution → TaskStatus
resolution_target retry = pending
resolution_target abandon = failed
