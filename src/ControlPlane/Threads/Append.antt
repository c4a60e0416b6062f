-- ===== src/ControlPlane/Threads/Append.antt =====
-- apps/control-plane/src/thread-store.ts: `append`, branch by branch.
use mathlib.Core.Path.{subst}
use mathlib.Core.Option.{some-injective}
use samdi.Common.{
  ℕ, ◌+◌, ◌≤◌, ◌≡◌, refl, String, true, false, Option, none, some, List, [], ◌∷◌, ◌++◌, ◌==◌, All,
  if◌then◌else◌, arith, eq_iff, Option-cases, inl, inr, returned, threw, length,
}
use samdi.Common.Table.{
  find, has, select, update, HasUniqueKeys, has-find, find-append, find-update, IsFound,
  select-IsFound,
}
use samdi.ControlPlane.Db.{
  Db, Thread, ThreadEvent, open_thread, thread_key, thread_event_key, channel_key, is_open,
  is_open_for, any_open, constraint_violation,
}
use samdi.ControlPlane.Threads.{append, first, with_event}
use samdi.ControlPlane.Identifiers.{IsNewFrom}

-- How many events of the thread are stored.
abbrev pub event_count : String → List ThreadEvent → ℕ
event_count id es = length (select (λ e. e.thread_id == id) es)

abbrev pub seq_of : Option Thread → ℕ
seq_of none = 0
seq_of (some t) = t.event_seq

abbrev pub interpreted_of : Option Thread → ℕ
interpreted_of none = 0
interpreted_of (some t) = t.interpreted_seq

-- No two open threads share a channel and a context key.
abbrev pub OneOpen : List Thread → Type 0
OneOpen threads =
    (i j : String) (t u : Thread)
    → find thread_key i threads ≡ some t
    → find thread_key j threads ≡ some u
    → is_open t.status ≡ true
    → is_open u.status ≡ true
    → t.channel_id ≡ u.channel_id
    → t.context_key ≡ u.context_key
    → i ≡ j

module _ (uuid : ℕ → String) where
  -- What holds of the thread tables between two calls.
  pub record IsThreaded (db : Db) : Type 0 where
    pub unique : HasUniqueKeys thread_key db.threads
    pub new_threads : IsNewFrom uuid thread_key db.drawn db.threads
    pub new_events : IsNewFrom uuid thread_event_key db.drawn db.thread_events
    pub one_open : OneOpen db.threads
    pub counted :
        (id : String) → event_count id db.thread_events ≡ seq_of (find thread_key id db.threads)
    pub behind :
        (id : String)
        → interpreted_of (find thread_key id db.threads) ≤ seq_of (find thread_key id db.threads)

  module _ (db : Db) (channel_id context_key payload : String) (agent : Option String) where
    abbrev pub open_row : Option Thread
    open_row = first (select (is_open_for channel_id context_key) db.threads)

    abbrev pub new_thread : Thread
    new_thread = record {
      id = uuid db.drawn;
      channel_id = channel_id;
      context_key = context_key;
      status = open_thread;
      agent = agent;
      event_seq = 1;
      interpreted_seq = 0;
      last_event_at = db.clock;
      last_interpreted_at = none;
      created_at = db.clock;
      updated_at = db.clock;
    }

    abbrev pub event_of : ℕ → String → ThreadEvent
    event_of n id = record {
      id = uuid n;
      thread_id = id;
      payload = payload;
      received_at = db.clock;
    }

    abbrev pub joined : Thread → Db
    joined t = record db {
      threads = update thread_key t.id (with_event db.clock) db.threads;
      thread_events = db.thread_events ++ event_of db.drawn t.id ∷ [];
      drawn = db.drawn + 1;
    }

    abbrev pub opened : Db
    opened = record db {
      threads = db.threads ++ new_thread ∷ [];
      thread_events = db.thread_events ++ event_of (db.drawn + 1) (uuid db.drawn) ∷ [];
      drawn = db.drawn + 1 + 1;
    }

    first-All :
        (P : Thread → Type 0) (rows : List Thread) (t : Thread)
        → All P rows
        → first rows ≡ some t
        → P t
    first-All P [] t h e = cc
    first-All P (r ∷ rows) t h e = subst P (some-injective _ _ e) h.0

    pub no_open_row :
        (rows : List Thread)
        → first (select (is_open_for channel_id context_key) rows) ≡ none
        → any_open channel_id context_key rows ≡ false
    no_open_row [] h = refl
    no_open_row (r ∷ rows) h = ground (arith, no_open_row rows)

    module _ (v : IsThreaded db) where
      pub open_row-IsFound :
          (t : Thread)
          → open_row ≡ some t
          → IsFound thread_key (is_open_for channel_id context_key) db.threads t
      open_row-IsFound t h =
          first-All (IsFound thread_key (is_open_for channel_id context_key) db.threads)
            (select (is_open_for channel_id context_key) db.threads) t
            (select-IsFound thread_key (is_open_for channel_id context_key) db.threads v.unique) h

      -- On valid thread tables the event joins the open thread of its channel and key, whose count
      -- goes up by one, or opens a new thread, and the thread is returned as it then is. Where
      -- there is no open thread and the channel is not in the table, `append` throws and writes
      -- nothing.
      pub append_lem : append uuid channel_id context_key payload agent db ≡ elim open_row [
        | some t ↦ returned (some (with_event db.clock t)) (joined t)
        | none ↦
            if has channel_key channel_id db.channels
            then returned (some new_thread) opened
            else threw constraint_violation (record db { drawn = db.drawn + 1 })
      ]
      unfolding append
      append_lem = elim (Option-cases open_row) [
        | inl absent ↦ ground (
          arith,
          no_open_row db.threads absent,
          has-find thread_key (uuid db.drawn) db.threads,
          v.new_threads db.drawn (omega arith),
          has-find thread_event_key (uuid (db.drawn + 1)) db.thread_events,
          v.new_events (db.drawn + 1) (omega arith),
          has-find thread_key (uuid db.drawn) (db.threads ++ new_thread ∷ []),
          find-append thread_key (uuid db.drawn) db.threads (new_thread ∷ []),
          eq_iff (uuid db.drawn) (uuid db.drawn),
        )
        | inr (t, found) ↦
            let row = open_row-IsFound t found in
            ground (
              arith,
              row.0,
              has-find thread_event_key (uuid db.drawn) db.thread_events,
              v.new_events db.drawn (omega arith),
              has-find thread_key t.id (update thread_key t.id (with_event db.clock) db.threads),
              find-update thread_key (with_event db.clock) (λ r. refl) t.id t.id db.threads,
              eq_iff t.id t.id,
            )
      ]
