-- ===== src/ControlPlane/Tasks/Invariant.antt =====
-- apps/control-plane/src/task-store.ts: what valid task tables are, and the allowed changes.
use samdi.Common.{
  ℕ, ◌+◌, ◌≡◌, refl, String, Bool, true, Option, none, some, List, [], ◌∷◌, ◌++◌, ◌==◌,
  if◌then◌else◌, arith, eq_iff,
}
use samdi.Common.Table.{
  find, HasUniqueKeys, find-append, find-update, HasUniqueKeys-append, HasUniqueKeys-update,
}
use samdi.Domain.{TaskStatus, pending, waiting}
use samdi.ControlPlane.Db.{Db, Task, TaskEvent, Payload, task_key, task_event_key, payload_key}
use samdi.ControlPlane.Identifiers.{IsInjective, IsNewFrom, IsNewFrom-append}
use samdi.ControlPlane.Tasks.Steps.{
  event_status, is_held_right, KeepsOrigin, changed, logged, Change, Changes, draw, stash, create,
  move, assign, extend, none_yet, next_change,
}

-- The status of a task as the audit log tells it: what its last event with a status says.
abbrev pub note : String → Option TaskStatus → TaskEvent → Option TaskStatus
note id was e =
    if e.task_id == id then elim (event_status e.type) [ none ↦ was | some s ↦ some s ] else was

abbrev pub replay_from : String → Option TaskStatus → List TaskEvent → Option TaskStatus
replay_from id was [] = was
replay_from id was (e ∷ es) = replay_from id (note id was e) es

abbrev pub replay : String → List TaskEvent → Option TaskStatus
replay id es = replay_from id none es

abbrev pub status_of : Option Task → Option TaskStatus
status_of none = none
status_of (some t) = some t.status

abbrev pub held_right : Option Task → Bool
held_right none = true
held_right (some t) = is_held_right t.status t.worker_id t.lease_expires_at

replay_from-append :
    (id : String) (was : Option TaskStatus) (es : List TaskEvent) (e : TaskEvent)
    → replay_from id was (es ++ e ∷ []) ≡ note id (replay_from id was es) e
replay_from-append id was [] e = refl
replay_from-append id was (d ∷ es) e = replay_from-append id (note id was d) es e

module _ (uuid : ℕ → String) where
  pub record IsValid (db : Db) : Type 0 where
    pub unique : HasUniqueKeys task_key db.tasks
    pub new_tasks : IsNewFrom uuid task_key db.drawn db.tasks
    pub new_events : IsNewFrom uuid task_event_key db.drawn db.task_events
    pub new_payloads : IsNewFrom uuid payload_key db.drawn db.payloads
    pub held : (id : String) → held_right (find task_key id db.tasks) ≡ true
    pub audited : (id : String) → replay id db.task_events ≡ status_of (find task_key id db.tasks)

  module _ (injective : IsInjective uuid) where
    create-IsValid :
        (db : Db) (t : Task) (e : TaskEvent)
        → IsValid db
        → t.id ≡ uuid db.drawn
        → t.status ≡ pending
        → t.worker_id ≡ none
        → t.lease_expires_at ≡ none
        → e.id ≡ uuid (db.drawn + 1)
        → e.task_id ≡ t.id
        → event_status e.type ≡ some pending
        → IsValid (logged e (record db { tasks = db.tasks ++ t ∷ []; drawn = db.drawn + 1 }))
    create-IsValid db t e v ti ts tw tl ei et es =
        let absent : find task_key t.id db.tasks ≡ none =
          rw ti (v.new_tasks db.drawn (omega arith)) in
        record {
          unique = HasUniqueKeys-append task_key db.tasks t v.unique absent;
          new_tasks = λ m le.
              IsNewFrom-append uuid injective task_key db.drawn db.drawn db.tasks t v.new_tasks
                (omega arith) ti m (omega arith);
          new_events =
              IsNewFrom-append uuid injective task_event_key db.drawn (db.drawn + 1) db.task_events
                e v.new_events (omega arith) ei;
          new_payloads = λ m le. v.new_payloads m (omega arith);
          held = λ id. ground (arith, find-append task_key id db.tasks (t ∷ []), v.held id);
          audited = λ id. ground (
            arith,
            replay_from-append id none db.task_events e,
            find-append task_key id db.tasks (t ∷ []),
            v.audited id,
            eq_iff t.id id,
          );
        }

    -- A change of one row that is logged with the status that it leaves.
    module _ (db : Db) (id : String) (t : Task) (f : Task → Task) (e : TaskEvent) (v : IsValid db)
        (found : find task_key id db.tasks ≡ some t) (keeps : KeepsOrigin f)
        (right : is_held_right (f t).status (f t).worker_id (f t).lease_expires_at ≡ true)
        (same_id : e.id ≡ uuid db.drawn) (about : e.task_id ≡ id) where
      changed-IsValid :
          note id (some t.status) e ≡ some (f t).status → IsValid (logged e (changed id f db))
      changed-IsValid told = record {
        unique = HasUniqueKeys-update task_key f keeps.id id db.tasks v.unique;
        new_tasks = λ m le. ground (
          arith,
          find-update task_key f keeps.id id (uuid m) db.tasks,
          v.new_tasks m (omega arith),
        );
        new_events =
            IsNewFrom-append uuid injective task_event_key db.drawn db.drawn db.task_events e
              v.new_events (omega arith) same_id;
        new_payloads = λ m le. v.new_payloads m (omega arith);
        held = λ j.
            ground (arith, find-update task_key f keeps.id id j db.tasks, v.held j, eq_iff id j);
        audited = λ j. ground (
          arith,
          replay_from-append j none db.task_events e,
          find-update task_key f keeps.id id j db.tasks,
          v.audited j,
          eq_iff id j,
        );
      }

    extend-IsValid :
        (db : Db) (id : String) (t : Task) (lease : ℕ)
        → IsValid db
        → find task_key id db.tasks ≡ some t
        → t.status ≡ waiting
        → IsValid (changed id (λ r. record r { lease_expires_at = some lease }) db)
    extend-IsValid db id t lease v found waits =
        let f : Task → Task = λ r. record r { lease_expires_at = some lease } in
        let at = λ (j : String). find-update task_key f (λ r. refl) id j db.tasks in
        record {
          unique = HasUniqueKeys-update task_key f (λ r. refl) id db.tasks v.unique;
          new_tasks = λ m le. ground (arith, at (uuid m), v.new_tasks m le);
          new_events = v.new_events;
          new_payloads = v.new_payloads;
          held = λ j. ground (arith, at j, v.held j, eq_iff id j);
          audited = λ j. ground (arith, at j, v.audited j, eq_iff id j);
        }

    stash-IsValid :
        (db : Db) (p : Payload)
        → IsValid db
        → p.ref ≡ uuid db.drawn
        → IsValid (record db { payloads = db.payloads ++ p ∷ []; drawn = db.drawn + 1 })
    stash-IsValid db p v e = record {
      unique = v.unique;
      new_tasks = λ m le. v.new_tasks m (omega arith);
      new_events = λ m le. v.new_events m (omega arith);
      new_payloads =
          IsNewFrom-append uuid injective payload_key db.drawn db.drawn db.payloads p v.new_payloads
            (omega arith) e;
      held = v.held;
      audited = v.audited;
    }

    draw-IsValid : (db : Db) → IsValid db → IsValid (record db { drawn = db.drawn + 1 })
    draw-IsValid db v = record {
      unique = v.unique;
      new_tasks = λ m le. v.new_tasks m (omega arith);
      new_events = λ m le. v.new_events m (omega arith);
      new_payloads = λ m le. v.new_payloads m (omega arith);
      held = v.held;
      audited = v.audited;
    }

    -- Every change that the specification allows keeps the tables valid.
    pub Change-IsValid : (db db' : Db) → Change uuid db db' → IsValid db → IsValid db'
    Change-IsValid db db' (draw e) v = rw e (draw-IsValid db v)
    Change-IsValid db db' (stash p ref e) v = rw e (stash-IsValid db p v ref)
    Change-IsValid db db' (create t ev ti ts tw tl ei et es e) v =
        rw e (create-IsValid db t ev v ti ts tw tl ei et es)
    Change-IsValid db db' (move id t f ev found ok keeps right ei et es e) v =
        rw e (changed-IsValid db id t f ev v found keeps right ei et (ground (arith, eq_iff id id)))
    Change-IsValid db db' (assign id t f ev found p keeps fs fw fl ei et es e) v = rw e (
        changed-IsValid db id t f ev v found keeps (ground (arith, v.held id)) ei et
          (ground (arith, eq_iff id id)))
    Change-IsValid db db' (extend id t lease found waits e) v =
        rw e (extend-IsValid db id t lease v found waits)

    -- So does a sequence of them.
    pub Changes-IsValid : (db db' : Db) → IsValid db → Changes uuid db db' → IsValid db'
    Changes-IsValid db db' v none_yet = v
    Changes-IsValid db db' v (next_change {db₁ = mid} cs c) =
        Change-IsValid mid db' c (Changes-IsValid db mid v cs)
