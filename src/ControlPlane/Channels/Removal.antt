-- ===== src/ControlPlane/Channels/Removal.antt =====
-- `references` and `remove` of apps/control-plane/src/channel-registry.ts.
use samdi.Common.{
  ℕ, String, Bool, ◌&&◌, ◌||◌, not, List, [], ◌∷◌, map, ◌==◌, includes, length, if◌then◌else◌,
  ◌>>=◌, ◌>>◌, pure, throw, gets, ltb,
}
use samdi.Common.Table.{select}
use samdi.ControlPlane.Db.{Db, Query, Task, Thread, channel_in_use, transaction}
use samdi.ControlPlane.Deletion.{
  delete_task_events, delete_tasks, delete_payload, delete_thread_events, delete_threads,
  delete_channel,
}
use samdi.ControlPlane.Memory.{Serve, on_db}
use samdi.ControlPlane.Channels.{editable_row, delete_runtime}

abbrev pub task_of : String → Task → Bool
task_of channel_id t = t.channel_id == channel_id

abbrev pub thread_of : String → Thread → Bool
thread_of channel_id t = t.channel_id == channel_id

abbrev pub task_count : String → Db → ℕ
task_count channel_id db = length (select (task_of channel_id) db.tasks)

abbrev pub thread_count : String → Db → ℕ
thread_count channel_id db = length (select (thread_of channel_id) db.threads)

unfoldable pub delete_payloads : List String → Query (Unit {0})
delete_payloads [] = pure tt
delete_payloads (ref ∷ refs) = do delete_payload ref; delete_payloads refs

unfoldable pub purge_all : String → Query (Unit {0})
purge_all channel_id = transaction do
  refs ← gets (λ db. map (λ t. t.payload_ref) (select (task_of channel_id) db.tasks))
  task_ids ← gets (λ db. map (λ t. t.id) (select (task_of channel_id) db.tasks))
  delete_task_events (λ e. includes task_ids e.task_id)
  delete_tasks (task_of channel_id)
  delete_payloads refs
  thread_ids ← gets (λ db. map (λ t. t.id) (select (thread_of channel_id) db.threads))
  delete_thread_events (λ e. includes thread_ids e.thread_id)
  delete_threads (thread_of channel_id)
  delete_channel channel_id

unfoldable pub remove : String → Bool → Serve (ℕ × ℕ)
remove channel_id purge = do
  row ← editable_row channel_id
  tasks ← gets (λ s. task_count channel_id s.db)
  threads ← gets (λ s. thread_count channel_id s.db)
  (if (ltb 0 tasks || ltb 0 threads) && not purge
      then throw (channel_in_use channel_id tasks threads)
      else pure tt)
  on_db (purge_all channel_id)
  delete_runtime channel_id
  pure (tasks, threads)
