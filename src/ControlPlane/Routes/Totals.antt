-- ===== src/ControlPlane/Routes/Totals.antt =====
-- The reads of the admin view: `/admin/overview` of apps/control-plane/src/server.ts and `list` of
-- apps/control-plane/src/channel-registry.ts.
use samdi.Common.{
  ℕ, Option, none, some, List, [], ◌∷◌, map, length, if◌then◌else◌, ltb, true, false,
}
use samdi.Common.Table.{select}
use samdi.Common.Order.{order_by_descending}
use samdi.Domain.{same_status}
use samdi.ControlPlane.Db.{
  Db, Channel, Task, WorkerRow, ThreadStatus, open_thread, dispatched, discarded, expired,
}
use samdi.ControlPlane.Tasks.{held_in_flight}
use samdi.ControlPlane.Workers.{text_le, list_workers, covered_labels}
use samdi.ControlPlane.Channels.{ChannelRecord, record_of}
use samdi.ControlPlane.Routes.{Overview}

abbrev insert_by_id : Channel → List Channel → List Channel
insert_by_id c [] = c ∷ []
insert_by_id c (d ∷ ds) =
    let rest = insert_by_id c ds in if text_le c.id d.id then c ∷ d ∷ ds else d ∷ rest

abbrev sort_by_id : List Channel → List Channel
sort_by_id [] = []
sort_by_id (c ∷ cs) = insert_by_id c (sort_by_id cs)

-- `ORDER BY created_at DESC, id`
abbrev pub list_channels : Db → List ChannelRecord
list_channels db = map record_of (order_by_descending (λ c. c.created_at) (sort_by_id db.channels))

-- `MAX(lease_expires_at)`, over the rows that have one
abbrev later_lease : Option ℕ → Option ℕ → Option ℕ
later_lease none b = b
later_lease (some a) none = some a
later_lease (some a) (some b) = if ltb a b then some b else some a

abbrev pub last_lease : List Task → Option ℕ
last_lease [] = none
last_lease (t ∷ ts) = later_lease t.lease_expires_at (last_lease ts)

abbrev with_load : Db → WorkerRow → WorkerRow × ℕ × Option ℕ
with_load db w =
    let rows = select (held_in_flight w.id) db.tasks in (w, length rows, last_lease rows)

abbrev thread_tally : ThreadStatus → Db → ℕ
thread_tally open_thread db =
    length (select (λ t. elim t.status [ open_thread ↦ true | _ ↦ false ]) db.threads)
thread_tally dispatched db =
    length (select (λ t. elim t.status [ dispatched ↦ true | _ ↦ false ]) db.threads)
thread_tally discarded db =
    length (select (λ t. elim t.status [ discarded ↦ true | _ ↦ false ]) db.threads)
thread_tally expired db =
    length (select (λ t. elim t.status [ expired ↦ true | _ ↦ false ]) db.threads)

-- A status that no row has counts 0 here and is missing in the answer of the source.
unfoldable pub overview_of : Db → Overview
overview_of db = record {
  tasks = λ status. length (select (λ t. same_status status t.status) db.tasks);
  threads_open = thread_tally open_thread db;
  threads_dispatched = thread_tally dispatched db;
  threads_discarded = thread_tally discarded db;
  threads_expired = thread_tally expired db;
  workers = map (with_load db) (list_workers db);
  covered_labels = covered_labels 300 db.clock db;
  channels = length (list_channels db);
}
