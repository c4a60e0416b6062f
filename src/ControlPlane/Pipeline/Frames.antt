-- ===== src/ControlPlane/Pipeline/Frames.antt =====
-- What the stores keep of each other's tables, and how an invariant passes through a sequence.
use samdi.Common.{
  ℕ, ◌+◌, ◌≤◌, ◌≡◌, refl, ◌∙◌, String, Option, List, [], ◌∷◌, arith, Outcome, returned, threw,
  final, ◌>>=◌, Option-cases, Bool-cases, inl, inr,
}
use samdi.Common.Table.{find, has, update, find-update, select}
use samdi.ControlPlane.Db.{Db, Query, Failure, Thread, channel_key, thread_key}
use samdi.ControlPlane.Identifiers.{IsInjective}
use samdi.ControlPlane.Memory.{Server, Serve, on_db, with_tables}
use samdi.ControlPlane.Tasks.{create_task}
use samdi.ControlPlane.Tasks.Invariant.{IsValid, Changes-IsValid}
use samdi.ControlPlane.Tasks.Creation.{create_task_lem}
use samdi.ControlPlane.Tasks.Refinement.{create_call, after, after-Changes}
use samdi.ControlPlane.Threads.{
  Closing, as_expired, append, close, close_all, closed, interpreted, mark_interpreted,
  expire_stale, is_stale,
}
use samdi.ControlPlane.Threads.Append.{IsThreaded, seq_of, append_lem, open_row}
use samdi.ControlPlane.Threads.Ends.{mark-IsThreaded, close-IsThreaded, expire_stale-eq}

-- What holds after both parts of a sequence holds after the whole, also where the first throws.
module _ {A B : Type 0} (Q : Server → Type 0) where
  after_outcome :
      (f : A → Serve B) (o : Outcome Failure Server A)
      → Q (final o)
      → ((a : A) (s : Server) → Q s → Q (final (f a s)))
      → Q (
          final (elim o as (λ x. Outcome Failure Server B) [
            | returned a s ↦ f a s
            | threw e s ↦ threw e s
          ]))
  after_outcome f (returned a s) q k = k a s q
  after_outcome f (threw e s) q k = q

  pub after_both :
      (m : Serve A) (f : A → Serve B) (s : Server)
      → Q (final (m s))
      → ((a : A) (s' : Server) → Q s' → Q (final (f a s')))
      → Q (final ((m >>= f) s))
  after_both m f s q k = after_outcome f (m s) q k

tables_after :
    {A : Type 0} (Q : Db → Type 0) (s : Server) (o : Outcome Failure Db A)
    → Q (final o)
    → Q (final (with_tables s o)).db
tables_after Q s (returned a db) q = q
tables_after Q s (threw e db) q = q

pub final-on_db :
    {A : Type 0} (Q : Db → Type 0) (m : Query A) (s : Server)
    → Q (final (m s.db))
    → Q (final (on_db m s)).db
final-on_db Q m s q = tables_after Q s (m s.db) q

-- The thread tables are the same, and no fewer identifiers are drawn.
record SameThreads (db db' : Db) : Type 0 where
  threads : db'.threads ≡ db.threads
  thread_events : db'.thread_events ≡ db.thread_events
  drawn : db.drawn ≤ db'.drawn

record SameTasks (db db' : Db) : Type 0 where
  tasks : db'.tasks ≡ db.tasks
  task_events : db'.task_events ≡ db.task_events
  payloads : db'.payloads ≡ db.payloads
  drawn : db.drawn ≤ db'.drawn

module _ (uuid : ℕ → String) where
  IsThreaded-frame : {db db' : Db} → SameThreads db db' → IsThreaded uuid db → IsThreaded uuid db'
  IsThreaded-frame {db} {db'} f v = record {
    unique = rw (f.threads) (v.unique);
    new_threads = λ m le. rw (f.threads) (v.new_threads m (omega (arith, f.drawn, le)));
    new_events = λ m le. rw (f.thread_events) (v.new_events m (omega (arith, f.drawn, le)));
    one_open = rw (f.threads) (v.one_open);
    counted = λ id. rw (f.threads, f.thread_events) (v.counted id);
    behind = λ id. rw (f.threads) (v.behind id);
  }

  IsValid-frame : {db db' : Db} → SameTasks db db' → IsValid uuid db → IsValid uuid db'
  IsValid-frame {db} {db'} f v = record {
    unique = rw (f.tasks) (v.unique);
    new_tasks = λ m le. rw (f.tasks) (v.new_tasks m (omega (arith, f.drawn, le)));
    new_events = λ m le. rw (f.task_events) (v.new_events m (omega (arith, f.drawn, le)));
    new_payloads = λ m le. rw (f.payloads) (v.new_payloads m (omega (arith, f.drawn, le)));
    held = λ id. rw (f.tasks) (v.held id);
    audited = λ id. rw (f.tasks, f.task_events) (v.audited id);
  }

-- Both stores are valid, and the thread `k` has `seqs k` events.
pub record IsSound (uuid : ℕ → String) (seqs : String → ℕ) (db : Db) : Type 0 where
  pub valid : IsValid uuid db
  pub threaded : IsThreaded uuid db
  pub counts : (k : String) → seq_of (find thread_key k db.threads) ≡ seqs k

seq_of-update :
    (f : Thread → Thread) (j k : String) (threads : List Thread)
    → ((t : Thread) → (f t).id ≡ t.id)
    → ((t : Thread) → (f t).event_seq ≡ t.event_seq)
    → seq_of (find thread_key k (update thread_key j f threads))
      ≡ seq_of (find thread_key k threads)
seq_of-update f j k threads same seq = elim (Option-cases (find thread_key k threads)) [
  | inl absent ↦ ground (arith, find-update thread_key f same j k threads)
  | inr (t, found) ↦ ground (arith, find-update thread_key f same j k threads, seq t)
]

module _ (uuid : ℕ → String) (seqs : String → ℕ) (db : Db) (v : IsSound uuid seqs db) where
  pub mark-IsSound :
      (k : String) (n : ℕ) → n ≤ seqs k → IsSound uuid seqs (final (mark_interpreted k n db))
  unfolding mark_interpreted
  mark-IsSound k n le = record {
    valid =
        IsValid-frame uuid
          (record { tasks = refl; task_events = refl; payloads = refl; drawn = omega arith })
          v.valid;
    threaded = mark-IsThreaded uuid db v.threaded k n (omega (arith, v.counts k, le));
    counts = λ j.
        seq_of-update (interpreted n db.clock) k j db.threads (λ t. refl) (λ t. refl) ∙ v.counts j;
  }

  pub close-IsSound : (k : String) (c : Closing) → IsSound uuid seqs (final (close k c db))
  unfolding close
  close-IsSound k c = record {
    valid =
        IsValid-frame uuid
          (record { tasks = refl; task_events = refl; payloads = refl; drawn = omega arith })
          v.valid;
    threaded = close-IsThreaded uuid db v.threaded k c;
    counts =
        λ j. seq_of-update (closed c db.clock) k j db.threads (λ t. refl) (λ t. refl) ∙ v.counts j;
  }

pub close_all-IsSound :
    (uuid : ℕ → String) (seqs : String → ℕ) (c : Closing) (rows : List Thread) (db : Db)
    → IsSound uuid seqs db
    → IsSound uuid seqs (final (close_all c rows db))
unfolding close_all close
close_all-IsSound uuid seqs c [] db v = v
close_all-IsSound uuid seqs c (r ∷ rows) db v =
    close_all-IsSound uuid seqs c rows (final (close r.id c db))
      (close-IsSound uuid seqs db v r.id c)

pub expire-IsSound :
    (uuid : ℕ → String) (seqs : String → ℕ) (db : Db) (channel_id : String) (ttl_seconds : ℕ)
    → IsSound uuid seqs db
    → IsSound uuid seqs (final (expire_stale channel_id ttl_seconds db))
expire-IsSound uuid seqs db channel_id ttl_seconds v =
    rw (expire_stale-eq db channel_id ttl_seconds) (
      close_all-IsSound uuid seqs as_expired
        (select (is_stale channel_id ttl_seconds db.clock) db.threads) db v)

module _ (uuid : ℕ → String) (injective : IsInjective uuid) (db : Db) where
  pub create-IsValid :
      (channel_id label payload : String) (agent thread_id : Option String)
      → IsValid uuid db
      → IsValid uuid (final (create_task uuid channel_id label payload agent thread_id db))
  unfolding after
  create-IsValid channel_id label payload agent thread_id v =
      Changes-IsValid uuid injective db
        (after uuid (create_call channel_id label payload agent thread_id) db) v
        (after-Changes uuid (create_call channel_id label payload agent thread_id) db injective v)

  create-SameThreads :
      (channel_id label payload : String) (agent thread_id : Option String)
      → IsValid uuid db
      → SameThreads db (final (create_task uuid channel_id label payload agent thread_id db))
  create-SameThreads channel_id label payload agent thread_id v =
      rw (create_task_lem uuid channel_id label payload agent thread_id db v)
        (elim (Bool-cases (has channel_key channel_id db.channels)) [
          | inl known ↦
              rw (final, known)
                (record { threads = refl; thread_events = refl; drawn = omega arith })
          | inr unknown ↦
              rw (final, unknown)
                (record { threads = refl; thread_events = refl; drawn = omega arith })
        ])

  pub create-IsSound :
      (seqs : String → ℕ) (channel_id label payload : String) (agent thread_id : Option String)
      → IsSound uuid seqs db
      → IsSound uuid seqs (final (create_task uuid channel_id label payload agent thread_id db))
  create-IsSound seqs channel_id label payload agent thread_id v =
      let same = create-SameThreads channel_id label payload agent thread_id v.valid in
      record {
        valid = create-IsValid channel_id label payload agent thread_id v.valid;
        threaded = IsThreaded-frame uuid same v.threaded;
        counts = λ k. rw (same.threads) (v.counts k);
      }

  pub append-IsValid :
      (channel_id context_key payload : String) (agent : Option String)
      → IsThreaded uuid db
      → IsValid uuid db
      → IsValid uuid (final (append uuid channel_id context_key payload agent db))
  append-IsValid channel_id context_key payload agent t v =
      IsValid-frame uuid
        (rw (append_lem uuid db channel_id context_key payload agent t)
          (elim (Option-cases (open_row uuid db channel_id context_key payload agent)) [
            | inr (r, found) ↦
                rw (final, found)
                  (record {
                    tasks = refl;
                    task_events = refl;
                    payloads = refl;
                    drawn = omega arith;
                  })
            | inl absent ↦
                rw (final, absent)
                  (elim (Bool-cases (has channel_key channel_id db.channels)) [
                    | inl known ↦
                        rw (final, known)
                          (record {
                            tasks = refl;
                            task_events = refl;
                            payloads = refl;
                            drawn = omega arith;
                          })
                    | inr unknown ↦
                        rw (final, unknown)
                          (record {
                            tasks = refl;
                            task_events = refl;
                            payloads = refl;
                            drawn = omega arith;
                          })
                  ])
          ]))
        v

pub draw-IsSound :
    (uuid : ℕ → String) (seqs : String → ℕ) (db : Db)
    → IsSound uuid seqs db
    → IsSound uuid seqs (record db { drawn = db.drawn + 1 })
draw-IsSound uuid seqs db v = record {
  valid =
      IsValid-frame uuid
        (record { tasks = refl; task_events = refl; payloads = refl; drawn = omega arith }) v.valid;
  threaded =
      IsThreaded-frame uuid (record { threads = refl; thread_events = refl; drawn = omega arith })
        v.threaded;
  counts = v.counts;
}
