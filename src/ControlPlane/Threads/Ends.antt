-- ===== src/ControlPlane/Threads/Ends.antt =====
-- apps/control-plane/src/thread-store.ts: `markInterpreted`, `close` and `expireStale` on valid tables.
use mathlib.Core.Option
use samdi.Common.{
  ℕ, ◌≤◌, ◌≡◌, refl, String, true, Option, none, some, List, [], ◌∷◌, arith, eq_iff, final,
}
use samdi.Common.Table.{find, select, update, find-update, HasUniqueKeys-update}
use samdi.ControlPlane.Db.{Db, Thread, thread_key, is_open}
use samdi.ControlPlane.Threads.{
  mark_interpreted, close, close_all, expire_stale, interpreted, closed, Closing, closing_status,
  as_expired, is_stale,
}
use samdi.ControlPlane.Threads.Append.{IsThreaded, seq_of, interpreted_of}
use samdi.ControlPlane.Threads.Keys.{KeepsKey, OneOpen-update}

seq_of-map :
    (f : Thread → Thread)
    → ((t : Thread) → (f t).event_seq ≡ t.event_seq)
    → (o : Option Thread) → seq_of (Option.map f o) ≡ seq_of o
seq_of-map f seq none = refl
seq_of-map f seq (some t) = seq t

closed-KeepsKey : (c : Closing) (n : ℕ) → KeepsKey (closed c n)
closed-KeepsKey c n = record {
  id = λ t. refl;
  channel_id = λ t. refl;
  context_key = λ t. refl;
  opens_none = λ t h. absurd (not_open c h);
}
  where
    not_open : (c : Closing) → is_open (closing_status c) ≡ true → ⊥
    not_open c h = ground arith

module _ (uuid : ℕ → String) (db : Db) (v : IsThreaded uuid db) where
  -- A change of one row that stores no event.
  update-IsThreaded :
      (f : Thread → Thread) (k : String)
      → KeepsKey f
      → ((t : Thread) → (f t).event_seq ≡ t.event_seq)
      → interpreted_of (Option.map f (find thread_key k db.threads))
        ≤ seq_of (find thread_key k db.threads)
      → IsThreaded uuid (record db { threads = update thread_key k f db.threads })
  update-IsThreaded f k keeps seq below =
      let at = λ (j : String). find-update thread_key f keeps.id k j db.threads in
      record {
        unique = HasUniqueKeys-update thread_key f keeps.id k db.threads v.unique;
        new_threads = λ m le. ground (arith, at (uuid m), v.new_threads m le);
        new_events = v.new_events;
        one_open = OneOpen-update f k db.threads keeps v.one_open;
        counted = λ j.
            ground (
              arith,
              at j,
              v.counted j,
              seq_of-map f seq (find thread_key j db.threads),
              eq_iff k j,
            );
        behind = λ j. ground (
          arith,
          at j,
          v.behind j,
          below,
          seq_of-map f seq (find thread_key j db.threads),
          eq_iff k j,
        );
      }

  -- `markInterpreted` keeps the thread tables valid if the number of events it records is at most
  -- the number that the thread has.
  pub mark-IsThreaded :
      (k : String) (seq : ℕ)
      → seq ≤ seq_of (find thread_key k db.threads)
      → IsThreaded uuid (final (mark_interpreted k seq db))
  unfolding mark_interpreted
  mark-IsThreaded k seq le =
      update-IsThreaded (interpreted seq db.clock) k
        (record {
          id = λ t. refl;
          channel_id = λ t. refl;
          context_key = λ t. refl;
          opens_none = λ t h. h;
        })
        (λ t. refl) (ground arith)

  pub close-IsThreaded : (k : String) (c : Closing) → IsThreaded uuid (final (close k c db))
  unfolding close
  close-IsThreaded k c =
      update-IsThreaded (closed c db.clock) k (closed-KeepsKey c db.clock) (λ t. refl)
        (ground (arith, v.behind k))

pub close_all-IsThreaded :
    (uuid : ℕ → String) (c : Closing) (rows : List Thread) (db : Db)
    → IsThreaded uuid db
    → IsThreaded uuid (final (close_all c rows db))
unfolding close_all close
close_all-IsThreaded uuid c [] db v = v
close_all-IsThreaded uuid c (r ∷ rows) db v =
    close_all-IsThreaded uuid c rows (final (close r.id c db)) (close-IsThreaded uuid db v r.id c)

pub expire_stale-eq :
    (db : Db) (channel_id : String) (ttl_seconds : ℕ)
    → final (expire_stale channel_id ttl_seconds db)
      ≡ final
          (close_all as_expired (select (is_stale channel_id ttl_seconds db.clock) db.threads) db)
unfolding expire_stale
expire_stale-eq db channel_id ttl_seconds = ground arith

-- The expiry of the stale threads of a channel keeps the thread tables valid.
pub expire-IsThreaded :
    (uuid : ℕ → String) (db : Db) (channel_id : String) (ttl_seconds : ℕ)
    → IsThreaded uuid db
    → IsThreaded uuid (final (expire_stale channel_id ttl_seconds db))
expire-IsThreaded uuid db channel_id ttl_seconds v =
    rw (expire_stale-eq db channel_id ttl_seconds) (
      close_all-IsThreaded uuid as_expired
        (select (is_stale channel_id ttl_seconds db.clock) db.threads) db v)
