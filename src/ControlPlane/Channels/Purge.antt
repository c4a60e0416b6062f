-- ===== src/ControlPlane/Channels/Purge.antt =====
-- apps/control-plane/src/channel-registry.ts: `remove` with `purge`, and what it leaves.
use samdi.Common.{
  ◌≡◌, refl, String, Bool, true, false, ◌&&◌, ◌||◌, not, Option, none, some, final, List, [], ◌∷◌,
  map, ◌==◌, ==-sym, includes, if◌then◌else◌, returned, threw, arith, sym, ◌∙◌, ap, ltb, ◌>>=◌,
}
use samdi.Common.Table.{select, delete, find, HasUniqueKeys}
use samdi.Common.Table.Deleted.{delete-delete, delete-eq, delete_none, find-delete, find-delete_key}
use samdi.ControlPlane.Db.{
  Db, channel_in_use, transaction, Channel, api, task_key, thread_key, channel_key,
}
use samdi.ControlPlane.Deletion.{any, refers_to_task, refers_to_thread}
use samdi.ControlPlane.Memory.{Server}
use samdi.ControlPlane.Channels.Effects.{on_editable}
use samdi.ControlPlane.Channels.Removal.{
  task_of, thread_of, task_count, thread_count, delete_payloads, purge_all, remove,
}

module _ {A : Type 0} where
  any-delete : (p q : A → Bool) (xs : List A) → ((x : A) → p x ≡ q x) → any p (delete q xs) ≡ false
  any-delete p q [] h = refl
  any-delete p q (x ∷ xs) h = ground (arith, h x, any-delete p q xs h)

  any-or : (p q : A → Bool) (xs : List A) → any (λ x. p x || q x) xs ≡ (any p xs || any q xs)
  any-or p q [] = refl
  any-or p q (x ∷ xs) = ground (arith, any-or p q xs)

  any-eq : (p q : A → Bool) (xs : List A) → ((x : A) → p x ≡ q x) → any p xs ≡ any q xs
  any-eq p q [] h = refl
  any-eq p q (x ∷ xs) h = ground (arith, h x, any-eq p q xs h)

  includes-select :
      (key : A → String) (p : A → Bool) (xs : List A) (k : String)
      → includes (map key (select p xs)) k ≡ any (λ x. p x && key x == k) xs
  includes-select key p [] k = refl
  includes-select key p (x ∷ xs) k = ground (arith, includes-select key p xs k)

-- The payloads of the channel's tasks.
abbrev pub payload_refs : String → Db → List String
payload_refs c db = map (λ t. t.payload_ref) (select (task_of c) db.tasks)

abbrev pub task_ids : String → Db → List String
task_ids c db = map (λ t. t.id) (select (task_of c) db.tasks)

abbrev pub thread_ids : String → Db → List String
thread_ids c db = map (λ t. t.id) (select (thread_of c) db.threads)

-- A task of another channel has a payload of one of this channel's tasks.
abbrev pub shares_payload : String → Db → Bool
shares_payload c db =
    any (λ t. includes (payload_refs c db) t.payload_ref) (delete (task_of c) db.tasks)

-- The tables without the channel and all that refers to it.
abbrev pub purged : String → Db → Db
purged c db = record db {
  task_events = delete (λ e. includes (task_ids c db) e.task_id) db.task_events;
  tasks = delete (task_of c) db.tasks;
  payloads = delete (λ p. includes (payload_refs c db) p.ref) db.payloads;
  thread_events = delete (λ e. includes (thread_ids c db) e.thread_id) db.thread_events;
  threads = delete (thread_of c) db.threads;
  channels = delete (λ r. r.id == c) db.channels;
}

delete_payloads_lem :
    (refs : List String) (db : Db)
    → any (λ t. includes refs t.payload_ref) db.tasks ≡ false
    → delete_payloads refs db
      ≡ returned tt (record db { payloads = delete (λ p. includes refs p.ref) db.payloads })
unfolding delete_payloads
delete_payloads_lem [] db free = rw (delete_none (λ p. false) db.payloads (λ p. refl)) refl
delete_payloads_lem (ref ∷ refs) db free =
    let parts =
      sym (any-or (λ t. ref == t.payload_ref) (λ t. includes refs t.payload_ref) db.tasks) ∙ free in
    let here : any (λ t. t.payload_ref == ref) db.tasks ≡ false =
      any-eq (λ t. t.payload_ref == ref) (λ t. ref == t.payload_ref) db.tasks
        (λ t. ==-sym t.payload_ref ref)
      ∙ ground arith in
    let next = record db { payloads = delete (λ p. p.ref == ref) db.payloads } in
    rw (here, ◌>>=◌)
      (delete_payloads_lem refs next (ground arith)
        ∙ ap (λ ps. returned tt (record db { payloads = ps }))
            (delete-delete (λ p. p.ref == ref) (λ p. includes refs p.ref) db.payloads
              ∙ delete-eq (λ p. p.ref == ref || includes refs p.ref)
                  (λ p. includes (ref ∷ refs) p.ref) db.payloads
                  (λ p. ap (λ b. b || includes refs p.ref) (==-sym p.ref ref))))

purge_all_lem :
    (c : String) (db : Db)
    → shares_payload c db ≡ false
    → purge_all c db ≡ returned tt (purged c db)
unfolding purge_all
purge_all_lem c db free =
    let no_event =
      any-delete (refers_to_task (task_of c) db.tasks) (λ e. includes (task_ids c db) e.task_id)
        db.task_events (λ e. sym (includes-select (λ t. t.id) (task_of c) db.tasks e.task_id)) in
    let no_thread_event =
      any-delete (refers_to_thread (thread_of c) db.threads)
        (λ e. includes (thread_ids c db) e.thread_id) db.thread_events
        (λ e. sym (includes-select (λ t. t.id) (thread_of c) db.threads e.thread_id)) in
    let no_task = any-delete (task_of c) (task_of c) db.tasks (λ t. refl) in
    let no_thread = any-delete (thread_of c) (thread_of c) db.threads (λ t. refl) in
    let without_tasks = record db {
      task_events = delete (λ e. includes (task_ids c db) e.task_id) db.task_events;
      tasks = delete (task_of c) db.tasks;
    } in
    rw
      (
        no_event,
        delete_payloads_lem (payload_refs c db) without_tasks free,
        no_thread_event,
        no_task,
        no_thread,
        ◌>>=◌,
        transaction,
      )
      refl

pub remove_lem :
    (c : String) (purge : Bool) (s : Server)
    → shares_payload c s.db ≡ false
    → remove c purge s
      ≡ on_editable c
          (λ row.
            if (ltb 0 (task_count c s.db) || ltb 0 (thread_count c s.db)) && not purge
            then threw (channel_in_use c (task_count c s.db) (thread_count c s.db)) s
            else returned
                (task_count c s.db, thread_count c s.db)
                (record s { db = purged c s.db; runtimes = delete (λ e. e.0 == c) s.runtimes }))
          s
unfolding remove
remove_lem c purge s free = ground (arith, purge_all_lem c s.db free)

-- A row that is deleted is not found, and every other is found as it was.
abbrev pub kept : {A : Type 0} → (A → Bool) → Option A → Option A
kept gone none = none
kept gone (some x) = if gone x then none else some x

-- With unique keys, for a channel from the API of which no task shares its payload with a task of
-- another channel, `remove` with `purge` deletes exactly the tasks and threads of the channel, its
-- row, the payloads and the audit events of those tasks and the events of those threads. Every
-- other row of these tables is found as it was, and the workers are untouched.
pub purge_exact :
    (c : String) (s : Server) (row : Channel)
    → HasUniqueKeys task_key s.db.tasks
    → HasUniqueKeys thread_key s.db.threads
    → find channel_key c s.db.channels ≡ some row
    → row.source ≡ api
    → shares_payload c s.db ≡ false
    → (j : String)
    → (find task_key j (final (remove c true s)).db.tasks
        ≡ kept (task_of c) (find task_key j s.db.tasks))
      × (find thread_key j (final (remove c true s)).db.threads
          ≡ kept (thread_of c) (find thread_key j s.db.threads))
      × (find channel_key j (final (remove c true s)).db.channels
          ≡ (if c == j then none else find channel_key j s.db.channels))
      × ((final (remove c true s)).db.payloads
          ≡ delete (λ p. includes (payload_refs c s.db) p.ref) s.db.payloads)
      × ((final (remove c true s)).db.task_events
          ≡ delete (λ e. includes (task_ids c s.db) e.task_id) s.db.task_events)
      × ((final (remove c true s)).db.thread_events
          ≡ delete (λ e. includes (thread_ids c s.db) e.thread_id) s.db.thread_events)
      × ((final (remove c true s)).db.workers ≡ s.db.workers)
purge_exact c s row unique_tasks unique_threads found is_api free j =
    rw
      (
        remove_lem c true s free,
        final,
        found,
        is_api,
        and_not_true (ltb 0 (task_count c s.db) || ltb 0 (thread_count c s.db)),
      )
      (
        find-delete task_key j (task_of c) s.db.tasks unique_tasks
            ∙ as_kept (task_of c) (find task_key j s.db.tasks),
        find-delete thread_key j (thread_of c) s.db.threads unique_threads
            ∙ as_kept (thread_of c) (find thread_key j s.db.threads),
        find-delete_key channel_key c j s.db.channels,
        refl,
        refl,
        refl,
        refl,
      )
  where
    and_not_true : (b : Bool) → (b && not true) ≡ false
    and_not_true b = ground arith

    as_kept :
        {A : Type 0} (p : A → Bool) (o : Option A)
        → elim o as (λ x. Option A) [ none ↦ none | some x ↦ if p x then none else some x ]
          ≡ kept p o
    as_kept p none = refl
    as_kept p (some x) = refl
