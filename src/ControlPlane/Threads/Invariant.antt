-- ===== src/ControlPlane/Threads/Invariant.antt =====
-- apps/control-plane/src/thread-store.ts: what valid thread tables are, and `append` on them.
use samdi.Common.{
  ℕ, ◌+◌, ◌≡◌, refl, String, false, Option, none, some, List, [], ◌∷◌, ◌++◌, ◌==◌, if◌then◌else◌,
  arith, eq_iff, Option-cases, Bool-cases, inl, inr, final, length-append,
}
use samdi.Common.Table.{
  find, has, select, find-append, find-update, select-append, HasUniqueKeys-append,
  HasUniqueKeys-update,
}
use samdi.ControlPlane.Db.{
  Db, Thread, ThreadEvent, thread_key, thread_event_key, channel_key, is_open_for, any_open,
}
use samdi.ControlPlane.Identifiers.{IsInjective, IsNewFrom-append}
use samdi.ControlPlane.Threads.{append, with_event}
use samdi.ControlPlane.Threads.Keys.{KeepsKey, OneOpen-update}
use samdi.ControlPlane.Threads.Append.{
  IsThreaded, OneOpen, event_count, open_row, new_thread, event_of, joined, opened,
  open_row-IsFound, no_open_row, append_lem,
}

event_count-append :
    (id : String) (es : List ThreadEvent) (e : ThreadEvent)
    → event_count id (es ++ e ∷ [])
      ≡ (if e.thread_id == id then event_count id es + 1 else event_count id es)
event_count-append id es e = ground (
  arith,
  select-append (λ (x : ThreadEvent). x.thread_id == id) es (e ∷ []),
  length-append {0} (select (λ (x : ThreadEvent). x.thread_id == id) es) (e ∷ []),
  length-append {0} (select (λ (x : ThreadEvent). x.thread_id == id) es) [],
)

with_event-KeepsKey : {n : ℕ} → KeepsKey (with_event n)
with_event-KeepsKey = record {
  id = λ t. refl;
  channel_id = λ t. refl;
  context_key = λ t. refl;
  opens_none = λ t h. h;
}

module _ (uuid : ℕ → String) (injective : IsInjective uuid) (db : Db) (v : IsThreaded uuid db) where
  module _ (channel_id context_key payload : String) (agent : Option String) where
    joined-IsThreaded :
        (t : Thread)
        → open_row uuid db channel_id context_key payload agent ≡ some t
        → IsThreaded uuid (joined uuid db channel_id context_key payload agent t)
    joined-IsThreaded t found =
        let row = open_row-IsFound uuid db channel_id context_key payload agent v t found in
        let there = row.0 in
        let e = event_of uuid db channel_id context_key payload agent db.drawn t.id in
        let at = λ (j : String).
          find-update thread_key (with_event db.clock) (λ r. refl) t.id j db.threads in
        record {
          unique =
              HasUniqueKeys-update thread_key (with_event db.clock) (λ r. refl) t.id db.threads
                v.unique;
          new_threads = λ m le. ground (arith, at (uuid m), v.new_threads m (omega arith));
          new_events =
              IsNewFrom-append uuid injective thread_event_key db.drawn db.drawn db.thread_events e
                v.new_events (omega arith) refl;
          one_open =
              OneOpen-update (with_event db.clock) t.id db.threads with_event-KeepsKey v.one_open;
          counted = λ j. ground (
            arith,
            at j,
            event_count-append j db.thread_events e,
            v.counted j,
            there,
            eq_iff t.id j,
          );
          behind = λ j. ground (arith, at j, v.behind j, there, eq_iff t.id j);
        }

    none_open :
        (rows : List Thread) (j : String) (u : Thread)
        → any_open channel_id context_key rows ≡ false
        → find thread_key j rows ≡ some u
        → is_open_for channel_id context_key u ≡ false
    none_open [] j u a h = cc
    none_open (r ∷ rows) j u a h = elim (Bool-cases (r.id == j)) [
      | inl e ↦ ground arith
      | inr e ↦ none_open rows j u (ground arith) (ground arith)
    ]

    -- Where no thread of the key is open, a new one is the only one.
    OneOpen-append :
        (threads : List Thread) (n : Thread)
        → n.channel_id ≡ channel_id
        → n.context_key ≡ context_key
        → any_open channel_id context_key threads ≡ false
        → OneOpen threads
        → OneOpen (threads ++ n ∷ [])
    OneOpen-append threads n nc nk a one i j t u ft fu ot ou ec ek =
        elim (Option-cases (find thread_key i threads)) [
          | inl new_i ↦ elim (Option-cases (find thread_key j threads)) [
            | inl new_j ↦ ground (
              arith,
              find-append thread_key i threads (n ∷ []),
              find-append thread_key j threads (n ∷ []),
              eq_iff n.id i,
              eq_iff n.id j,
            )
            | inr (u', there) ↦ ground (
              arith,
              find-append thread_key i threads (n ∷ []),
              find-append thread_key j threads (n ∷ []),
              none_open threads j u' a there,
              eq_iff u'.channel_id channel_id,
              eq_iff u'.context_key context_key,
            )
          ]
          | inr (t', there) ↦ elim (Option-cases (find thread_key j threads)) [
            | inl new_j ↦ ground (
              arith,
              find-append thread_key i threads (n ∷ []),
              find-append thread_key j threads (n ∷ []),
              none_open threads i t' a there,
              eq_iff t'.channel_id channel_id,
              eq_iff t'.context_key context_key,
            )
            | inr (u', there') ↦
                one i j t u (ground (arith, find-append thread_key i threads (n ∷ [])))
                  (ground (arith, find-append thread_key j threads (n ∷ []))) ot ou ec ek
          ]
        ]

    opened-IsThreaded :
        open_row uuid db channel_id context_key payload agent ≡ none
        → IsThreaded uuid (opened uuid db channel_id context_key payload agent)
    opened-IsThreaded absent =
        let n = new_thread uuid db channel_id context_key payload agent in
        let e =
          event_of uuid db channel_id context_key payload agent (db.drawn + 1) (uuid db.drawn) in
        let new = v.new_threads db.drawn (omega arith) in
        let at = λ (j : String). find-append thread_key j db.threads (n ∷ []) in
        record {
          unique = HasUniqueKeys-append thread_key db.threads n v.unique new;
          new_threads = λ m le.
              IsNewFrom-append uuid injective thread_key db.drawn db.drawn db.threads n
                v.new_threads (omega arith) refl m (omega arith);
          new_events =
              IsNewFrom-append uuid injective thread_event_key db.drawn (db.drawn + 1)
                db.thread_events e v.new_events (omega arith) refl;
          one_open =
              OneOpen-append db.threads n refl refl
                (no_open_row uuid db channel_id context_key payload agent db.threads absent)
                v.one_open;
          counted = λ j. ground (
            arith,
            at j,
            event_count-append j db.thread_events e,
            v.counted j,
            new,
            eq_iff (uuid db.drawn) j,
          );
          behind = λ j. ground (arith, at j, v.behind j);
        }

    drawn-IsThreaded : IsThreaded uuid (record db { drawn = db.drawn + 1 })
    drawn-IsThreaded = record {
      unique = v.unique;
      new_threads = λ m le. v.new_threads m (omega arith);
      new_events = λ m le. v.new_events m (omega arith);
      one_open = v.one_open;
      counted = v.counted;
      behind = v.behind;
    }

    -- With identifiers that never repeat, `append` keeps the thread tables valid, whether it
    -- returns or throws: keys are unique, no two open threads share a channel and a context key,
    -- each thread counts its stored events, and none has more events interpreted than it has.
    pub append-IsThreaded :
        IsThreaded uuid (final (append uuid channel_id context_key payload agent db))
    append-IsThreaded =
        rw (append_lem uuid db channel_id context_key payload agent v)
          (elim (Option-cases (open_row uuid db channel_id context_key payload agent)) [
            | inr (t, found) ↦ rw found (joined-IsThreaded t found)
            | inl absent ↦ rw absent (elim (Bool-cases (has channel_key channel_id db.channels)) [
              | inl known ↦ rw known (opened-IsThreaded absent)
              | inr missing ↦ rw missing drawn-IsThreaded
            ])
          ])
