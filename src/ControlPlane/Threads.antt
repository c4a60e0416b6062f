-- ===== src/ControlPlane/Threads.antt =====
-- apps/control-plane/src/thread-store.ts: `ThreadStore`, the context threads that an interpreter
-- reads. The tests `last_event_at <= now - d` are written `last_event_at + d <= now`.
pub mod Append
pub mod Keys
pub mod Invariant
pub mod Ends
use samdi.Common.{
  ℕ, ◌+◌, ◌*◌, String, Bool, ◌&&◌, Option, none, some, List, [], ◌∷◌, map, ◌==◌, ◌>>=◌, ◌>>◌, pure,
  gets, modify, ltb, leb,
}
use samdi.Common.Table.{find, select, update}
use samdi.Common.Order.{order_by}
use samdi.ControlPlane.Db.{
  Db, Query, Thread, ThreadEvent, ThreadStatus, open_thread, dispatched, discarded, expired,
  thread_key, is_open, is_open_for, insert_thread, insert_thread_event, now, random_uuid,
  transaction,
}

-- `Exclude<ThreadStatus, 'open'>`
pub data Closing : Type 0 where
  as_dispatched as_discarded as_expired : Closing

abbrev pub closing_status : Closing → ThreadStatus
closing_status as_dispatched = dispatched
closing_status as_discarded = discarded
closing_status as_expired = expired

abbrev pub first : List Thread → Option Thread
first [] = none
first (row ∷ _) = some row

-- `get(threadId)`
abbrev pub get_thread : String → Db → Option Thread
get_thread thread_id db = find thread_key thread_id db.threads

-- `events(threadId)`, in the order of their arrival
abbrev pub events : String → Db → List ThreadEvent
events thread_id db =
    order_by (λ e. e.received_at) (select (λ e. e.thread_id == thread_id) db.thread_events)

abbrev pub list_by_channel : String → Db → List Thread
list_by_channel channel_id db =
    order_by (λ t. t.created_at) (select (λ t. t.channel_id == channel_id) db.threads)

-- `UPDATE context_threads SET … WHERE id = ?`
abbrev pub update_thread : String → (Thread → Thread) → Query (Unit {0})
update_thread thread_id f =
    modify (λ db. record db { threads = update thread_key thread_id f db.threads })

-- The open threads of the channel that are due: an event is not interpreted yet, and the last came
-- at least `debounce_ms` ago.
abbrev pub is_due : String → ℕ → ℕ → Thread → Bool
is_due channel_id debounce_ms t thread =
    thread.channel_id == channel_id
    && (is_open thread.status
        && (leb (thread.last_event_at + debounce_ms) t
            && ltb thread.interpreted_seq thread.event_seq))

abbrev pub due_for_interpretation : String → ℕ → Db → List Thread
due_for_interpretation channel_id debounce_ms db =
    order_by (λ t. t.last_event_at) (select (is_due channel_id debounce_ms db.clock) db.threads)

-- The row that an event changes: one more event, and now.
abbrev pub with_event : ℕ → Thread → Thread
with_event t r = record r { event_seq = r.event_seq + 1; last_event_at = t; updated_at = t }

-- The open threads of the channel without an event for `ttl_seconds`.
abbrev pub is_stale : String → ℕ → ℕ → Thread → Bool
is_stale channel_id ttl_seconds t thread =
    thread.channel_id == channel_id
    && (is_open thread.status && ltb (thread.last_event_at + ttl_seconds * 1000) t)

abbrev pub interpreted : ℕ → ℕ → Thread → Thread
interpreted seq t r = record r {
  interpreted_seq = seq;
  last_interpreted_at = some t;
  updated_at = t;
}

abbrev pub closed : Closing → ℕ → Thread → Thread
closed c t r = record r { status = closing_status c; updated_at = t }

unfoldable pub mark_interpreted : String → ℕ → Query (Unit {0})
mark_interpreted thread_id seq = do t ← now; update_thread thread_id (interpreted seq t)

unfoldable pub close : String → Closing → Query (Unit {0})
close thread_id c = do t ← now; update_thread thread_id (closed c t)

-- The loop of `expireStale`.
unfoldable pub close_all : Closing → List Thread → Query (Unit {0})
unfolding close
close_all c [] = pure tt
close_all c (row ∷ rows) = do close row.id c; close_all c rows

unfoldable pub expire_stale : String → ℕ → Query (List String)
expire_stale channel_id ttl_seconds = do
  t ← now
  rows ← gets (λ db. select (is_stale channel_id ttl_seconds t) db.threads)
  close_all as_expired rows
  pure (map (λ r. r.id) rows)

module _ (uuid : ℕ → String) where
  -- The open thread of the key, or a new one.
  thread_for : String → String → Option String → Option Thread → Query String
  thread_for channel_id context_key agent (some row) = do
    t ← now
    update_thread row.id (with_event t)
    pure row.id
  thread_for channel_id context_key agent none = do
    id ← random_uuid uuid
    t ← now
    insert_thread (record {
      id = id;
      channel_id = channel_id;
      context_key = context_key;
      status = open_thread;
      agent = agent;
      event_seq = 1;
      interpreted_seq = 0;
      last_event_at = t;
      last_interpreted_at = none;
      created_at = t;
      updated_at = t;
    })
    pure id

  -- `this.get(tx())!`: the row is read after the transaction.
  unfoldable pub append : String → String → String → Option String → Query (Option Thread)
  unfolding thread_for
  append channel_id context_key payload agent = do
    thread_id ← transaction do
      open_row ← gets (λ db. first (select (is_open_for channel_id context_key) db.threads))
      thread_id ← thread_for channel_id context_key agent open_row
      event_id ← random_uuid uuid
      t ← now
      insert_thread_event
          (record { id = event_id; thread_id = thread_id; payload = payload; received_at = t })
      pure thread_id
    gets (get_thread thread_id)
