-- ===== src/ControlPlane/Deletion.antt =====
-- `DELETE` on the tables of apps/control-plane/src/db.ts: a row that another table still refers to
-- makes the statement throw, and nothing is deleted.
use samdi.Common.{String, Bool, true, false, ◌&&◌, ◌||◌, List, [], ◌∷◌, ◌==◌, returned, threw}
use samdi.Common.Table.{delete}
use samdi.ControlPlane.Db.{Db, Query, Task, TaskEvent, Thread, ThreadEvent, constraint_violation}

module _ {A : Type 0} where
  abbrev pub any : (A → Bool) → List A → Bool
  any p [] = false
  any p (x ∷ xs) = p x || any p xs

abbrev pub unless_referred : Bool → Db → Query (Unit {0})
unless_referred true next db = threw constraint_violation db
unless_referred false next db = returned tt next

abbrev pub refers_to_task : (Task → Bool) → List Task → TaskEvent → Bool
refers_to_task p tasks e = any (λ t. p t && t.id == e.task_id) tasks

abbrev pub refers_to_thread : (Thread → Bool) → List Thread → ThreadEvent → Bool
refers_to_thread p threads e = any (λ t. p t && t.id == e.thread_id) threads

abbrev pub delete_task_events : (TaskEvent → Bool) → Query (Unit {0})
delete_task_events p db = returned tt (record db { task_events = delete p db.task_events })

abbrev pub delete_thread_events : (ThreadEvent → Bool) → Query (Unit {0})
delete_thread_events p db = returned tt (record db { thread_events = delete p db.thread_events })

abbrev pub delete_tasks : (Task → Bool) → Query (Unit {0})
delete_tasks p db =
    unless_referred (any (refers_to_task p db.tasks) db.task_events)
      (record db { tasks = delete p db.tasks }) db

abbrev pub delete_threads : (Thread → Bool) → Query (Unit {0})
delete_threads p db =
    unless_referred (any (refers_to_thread p db.threads) db.thread_events)
      (record db { threads = delete p db.threads }) db

abbrev pub delete_payload : String → Query (Unit {0})
delete_payload ref db =
    unless_referred (any (λ t. t.payload_ref == ref) db.tasks)
      (record db { payloads = delete (λ p. p.ref == ref) db.payloads }) db

abbrev pub delete_channel : String → Query (Unit {0})
delete_channel id db =
    unless_referred
      (any (λ t. t.channel_id == id) db.tasks || any (λ t. t.channel_id == id) db.threads)
      (record db { channels = delete (λ c. c.id == id) db.channels }) db
