-- ===== src/ControlPlane/Tasks/History.antt =====
-- apps/control-plane/src/task-store.ts: histories of calls, in any order and at any times.
use mathlib.Core.Option.{some-injective}
use mathlib.Core.Path.{subst}
use samdi.Common.{
  ℕ, ◌+◌, ◌≡◌, refl, ap, sym, ◌∙◌, String, true, some, List, [], ◌∷◌, arith, eq_iff, text-cases,
  inl, inr,
}
use samdi.Common.Table.{find, find-append, find-update}
use samdi.Domain.{is_terminal}
use samdi.Domain.Lifecycle.{◌⟶*◌, here, next, allowed_iff, ⟶*-trans, terminal-⟶*}
use samdi.ControlPlane.Db.{Db, Task, task_key}
use samdi.ControlPlane.Tasks.Steps.{
  KeepsOrigin, origin_kept, changed, Change, Changes, draw, stash, create, move, assign, extend,
  none_yet, next_change,
}
use samdi.ControlPlane.Identifiers.{IsInjective}
use samdi.ControlPlane.Tasks.Invariant.{IsValid, Changes-IsValid, status_of}
use samdi.ControlPlane.Tasks.Refinement.{Call, after, after-Changes}

-- `u` is `t` at a later time: the columns of its creation are the same, and its status was
-- reached along the state machine.
pub record Continues (t u : Task) : Type 0 where
  pub channel_id : u.channel_id ≡ t.channel_id
  pub label : u.label ≡ t.label
  pub payload_ref : u.payload_ref ≡ t.payload_ref
  pub thread_id : u.thread_id ≡ t.thread_id
  pub created_at : u.created_at ≡ t.created_at
  pub status : t.status ⟶* u.status

pub Continues-refl : (t : Task) → Continues t t
Continues-refl t = record {
  channel_id = refl;
  label = refl;
  payload_ref = refl;
  thread_id = refl;
  created_at = refl;
  status = here;
}

pub Continues-trans : {t u w : Task} → Continues t u → Continues u w → Continues t w
Continues-trans a b = record {
  channel_id = b.channel_id ∙ a.channel_id;
  label = b.label ∙ a.label;
  payload_ref = b.payload_ref ∙ a.payload_ref;
  thread_id = b.thread_id ∙ a.thread_id;
  created_at = b.created_at ∙ a.created_at;
  status = ⟶*-trans a.status b.status;
}

pub changed-Continues :
    (f : Task → Task) (t : Task) → KeepsOrigin f → t.status ⟶* (f t).status → Continues t (f t)
changed-Continues f t keeps way = record {
  channel_id = keeps.channel_id t;
  label = keeps.label t;
  payload_ref = keeps.payload_ref t;
  thread_id = keeps.thread_id t;
  created_at = keeps.created_at t;
  status = way;
}

-- What became of the task `t` in the tables `db`.
abbrev pub Survives : String → Task → Db → Type 0
Survives id t db = (u : Task) × (find task_key id db.tasks ≡ some u) × Continues t u

-- A row that is changed, found under its own or another key.
changed-Survives :
    (db : Db) (j id : String) (t u : Task) (f : Task → Task)
    → ((r : Task) → (f r).id ≡ r.id)
    → find task_key id db.tasks ≡ some t
    → find task_key j db.tasks ≡ some u
    → Continues u (f u)
    → Survives id t (changed j f db)
changed-Survives db j id t u f same ft fu c = elim (text-cases j id) [
  | inl e ↦
      let row : u ≡ t = some-injective _ _ (sym fu ∙ rw e ft) in
      (
        f t,
        ground (arith, find-update task_key f same j id db.tasks, eq_iff j id),
        subst (λ x. Continues x (f x)) row c,
      )
  | inr e ↦ (t, ground (arith, find-update task_key f same j id db.tasks), Continues-refl t)
]

Change-Survives :
    (uuid : ℕ → String) (db db' : Db) (id : String) (t : Task)
    → Change uuid db db'
    → find task_key id db.tasks ≡ some t
    → Survives id t db'
Change-Survives uuid db db' id t (draw e) h = (t, rw e h, Continues-refl t)
Change-Survives uuid db db' id t (stash p r e) h = (t, rw e h, Continues-refl t)
Change-Survives uuid db db' id t (create n ev ti ts tw tl ei et es e) h =
    (t, rw e (ground (arith, find-append task_key id db.tasks (n ∷ []))), Continues-refl t)
Change-Survives uuid db db' id t (move j u f ev fu ok keeps right ei et es e) h = rw e (
    changed-Survives db j id t u f keeps.id h fu
      (changed-Continues f u keeps (next ((allowed_iff u.status (f u).status).0 ok) here)))
Change-Survives uuid db db' id t (assign j u f ev fu p keeps fs fw fl ei et es e) h = rw e (
    changed-Survives db j id t u f keeps.id h fu
      (changed-Continues f u keeps (subst (λ s. u.status ⟶* s) (sym fs) here)))
Change-Survives uuid db db' id t (extend j u lease fu waits e) h = rw e (
    changed-Survives db j id t u (λ r. record r { lease_expires_at = some lease }) (λ r. refl) h fu
      (changed-Continues (λ r. record r { lease_expires_at = some lease }) u
        (origin_kept (λ r. record r { lease_expires_at = some lease }) (λ r. refl)) here))

Changes-Survives :
    (uuid : ℕ → String) (db db' : Db) (id : String) (t : Task)
    → Changes uuid db db'
    → find task_key id db.tasks ≡ some t
    → Survives id t db'
Changes-Survives uuid db db' id t none_yet h = (t, h, Continues-refl t)
Changes-Survives uuid db db' id t (next_change {db₁ = mid} cs c) h =
    let (u, fu, cu) = Changes-Survives uuid db mid id t cs h in
    let (w, fw, cw) = Change-Survives uuid mid db' id u c fu in (w, fw, Continues-trans cu cw)

-- A history: calls, each after a wait in milliseconds.
abbrev pub wait : ℕ → Db → Db
wait n db = record db { clock = db.clock + n }

module _ (uuid : ℕ → String) where
  unfoldable pub run : List (ℕ × Call) → Db → Db
  run [] db = db
  run ((n, c) ∷ calls) db = run calls (after uuid c (wait n db))

  module _ (injective : IsInjective uuid) where
    pub wait-IsValid : (n : ℕ) (db : Db) → IsValid uuid db → IsValid uuid (wait n db)
    wait-IsValid n db v = record {
      unique = v.unique;
      new_tasks = v.new_tasks;
      new_events = v.new_events;
      new_payloads = v.new_payloads;
      held = v.held;
      audited = v.audited;
    }

    -- With identifiers that never repeat, every sequence of waits and calls of the task store
    -- leads from valid tables to valid tables: keys are unique, a task in flight has a worker and
    -- a lease and a pending one has neither, and the audit log of each task, replayed, gives its
    -- status.
    pub run-IsValid :
        (calls : List (ℕ × Call)) (db : Db) → IsValid uuid db → IsValid uuid (run calls db)
    unfolding run
    run-IsValid [] db v = v
    run-IsValid ((n, c) ∷ calls) db v =
        let w = wait-IsValid n db v in
        run-IsValid calls (after uuid c (wait n db)) (
          Changes-IsValid uuid injective (wait n db) (after uuid c (wait n db)) w
            (after-Changes uuid c (wait n db) injective w))

    -- From valid tables and with identifiers that never repeat, after every sequence of waits and
    -- calls of the task store each task that was there is still there, with the channel, label,
    -- payload, thread and creation time that it had, and with a status that the
    -- allowed moves lead to from its former one.
    pub run-Survives :
        (calls : List (ℕ × Call)) (db : Db) (id : String) (t : Task)
        → IsValid uuid db
        → find task_key id db.tasks ≡ some t
        → Survives id t (run calls db)
    unfolding run
    run-Survives [] db id t v h = (t, h, Continues-refl t)
    run-Survives ((n, c) ∷ calls) db id t v h =
        let w = wait-IsValid n db v in
        let cs = after-Changes uuid c (wait n db) injective w in
        let next_db = after uuid c (wait n db) in
        let (u, fu, cu) = Changes-Survives uuid (wait n db) next_db id t cs h in
        let (x, fx, cx) =
          run-Survives calls next_db id u (Changes-IsValid uuid injective (wait n db) next_db w cs)
            fu in
        (x, fx, Continues-trans cu cx)

    -- From valid tables and with identifiers that never repeat, a task that is rejected, completed
    -- or failed has that status after every sequence of waits and calls of the task store.
    pub terminal_forever :
        (calls : List (ℕ × Call)) (db : Db) (id : String) (t : Task)
        → IsValid uuid db
        → find task_key id db.tasks ≡ some t
        → is_terminal t.status ≡ true
        → status_of (find task_key id (run calls db).tasks) ≡ some t.status
    terminal_forever calls db id t v h over =
        let (u, fu, cu) = run-Survives calls db id t v h in
        rw fu (ap some (terminal-⟶* over cu.status))
