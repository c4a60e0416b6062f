-- ===== src/ControlPlane/Tasks/Listing.antt =====
-- `listTasks` and `getTaskDetail` of apps/control-plane/src/task-store.ts. A limit and an offset are
-- natural numbers; the tasks of the latest creation come first.
use samdi.Common.{
  ℕ, zero, suc, String, Bool, true, not, Option, none, some, List, map, length, take, drop,
  if◌then◌else◌, ltb, leb, ◌==◌, ◌>>=◌, pure, gets,
}
use samdi.Common.Table.{find, select}
use samdi.Common.Order.{order_by, order_by_descending}
use samdi.Domain.{TaskStatus, same_status, is_terminal}
use samdi.ControlPlane.Db.{Db, Query, Payload, Task, TaskEvent, payload_key}
use samdi.ControlPlane.Tasks.{get_row, get_payload}

pub data View : Type 0 where
  view_active view_all : View

pub record ListOptions : Type 0 where
  pub status : Option TaskStatus
  pub view : View
  pub limit : Option ℕ
  pub offset : Option ℕ

-- `Math.min(Math.max(opts.limit ?? 50, 1), 200)`
abbrev pub page_size : Option ℕ → ℕ
page_size none = 50
page_size (some n) = if ltb n 1 then 1 else if leb n 200 then n else 200

abbrev pub page_start : Option ℕ → ℕ
page_start none = 0
page_start (some n) = n

abbrev pub listed : ListOptions → Task → Bool
listed opts t = elim opts.status [
  | some status ↦ same_status status t.status
  | none ↦ elim opts.view [ view_active ↦ not (is_terminal t.status) | view_all ↦ true ]
]

-- `substr(body, 1, n)`
abbrev pub first_characters : ℕ → String → String
first_characters zero s = ""
first_characters (suc n) String.[] = ""
first_characters (suc n) (String.◌∷◌ c s) = String.◌∷◌ c (first_characters n s)

-- The row of the join with the payloads, of which a task has one.
abbrev pub with_preview : List Payload → Task → Task × String
with_preview payloads t = elim (find payload_key t.payload_ref payloads) [
  | none ↦ (t, "")
  | some p ↦ (t, first_characters 120 p.body)
]

-- The page, and how many tasks there are in all.
unfoldable pub list_tasks : ListOptions → Db → List (Task × String) × ℕ
list_tasks opts db =
    let rows = order_by_descending (λ t. t.created_at) (select (listed opts) db.tasks) in
    (
      map (with_preview db.payloads)
          (take (page_size opts.limit) (drop (page_start opts.offset) rows)),
      length (select (listed opts) db.tasks),
    )

unfoldable pub get_task_detail : String → Query (Task × Option String × List TaskEvent)
get_task_detail task_id = do
  task ← get_row task_id
  payload ← gets (get_payload task.payload_ref)
  events ← gets (λ db. order_by (λ e. e.at) (select (λ e. e.task_id == task_id) db.task_events))
  pure (task, payload, events)
