-- ===== src/ControlPlane/Tasks/Stalling.antt =====
-- The loops of `sweepExpiredLeases` and `recoverWorkerTasks`, which stall one row after the other,
-- and of `extendWaitingLeases`: what a whole loop does to the tables.
use mathlib.Core.Option
use samdi.Common.{
  ℕ, ◌≡◌, refl, String, true, none, some, List, [], ◌∷◌, if◌then◌else◌, arith, eq_iff, returned,
  All,
}
use samdi.Common.Table.{find, has, update, HasUniqueKeys, find-update}
use samdi.Domain.{stalled, waiting, in_flight, same_status}
use samdi.ControlPlane.Audit.{status_name}
use samdi.ControlPlane.Db.{Db, Task, Field, text, task_key}
use samdi.ControlPlane.Tasks.{stall, stall_all, set_leases}
use samdi.ControlPlane.Tasks.Steps.{
  event_status, origin_kept, changed, Change, Changes, move, extend, none_yet, next_change,
}
use samdi.ControlPlane.Identifiers.{IsInjective}
use samdi.ControlPlane.Tasks.Invariant.{IsValid, Change-IsValid}
use samdi.ControlPlane.Tasks.Effects.{written, event, append_event_lem}

abbrev pub stalled_row : ℕ → Task → Task
stalled_row t r = record r { status = stalled; updated_at = t }

abbrev pub stall_fields : List (String × Field) → Task → List (String × Field)
stall_fields why row = ("from", text (status_name row.status)) ∷ why

abbrev pub extended_row : ℕ → Task → Task
extended_row until r = record r { lease_expires_at = some until }

-- The row stands in the table, and a worker holds it.
abbrev pub IsInFlight : Db → Task → Type 0
IsInFlight db r = (find task_key r.id db.tasks ≡ some r) × (in_flight r.status ≡ true)

abbrev pub IsWaiting : Db → Task → Type 0
IsWaiting db r = (find task_key r.id db.tasks ≡ some r) × (r.status ≡ waiting)

pub Changes-append :
    {uuid : ℕ → String} {a b c : Db} → Changes uuid a b → Changes uuid b c → Changes uuid a c
Changes-append p none_yet = p
Changes-append p (next_change q s) = next_change (Changes-append p q) s

-- Every row of the list but the first is left in place by a change of the first.
others_stay :
    (f : Task → Task) (db : Db) (r : Task) (rows : List Task)
    → ((t : Task) → (f t).id ≡ t.id)
    → find task_key r.id rows ≡ none
    → All (λ x. find task_key x.id db.tasks ≡ some x) rows
    → All (λ x. find task_key x.id (update task_key r.id f db.tasks) ≡ some x) rows
others_stay f db r [] same u h = tt
others_stay f db r (x ∷ rows) same u h = (
  ground
      (arith, find-update task_key f same r.id x.id db.tasks, eq_iff r.id x.id, eq_iff x.id r.id),
  others_stay f db r rows same (ground arith) h.1,
)

module _ (uuid : ℕ → String) where
  abbrev pub stall_written : List (String × Field) → Task → Db → Db
  stall_written why r db =
      written uuid r.id (stalled_row db.clock) "stalled" (stall_fields why r) db

  unfoldable pub stalled_all : List (String × Field) → List Task → Db → Db
  stalled_all why [] db = db
  stalled_all why (r ∷ rows) db = stalled_all why rows (stall_written why r db)

  -- Each row that the loop names is stalled, and no other row changes.
  pub find-stalled_all :
      (why : List (String × Field)) (rows : List Task) (db : Db) (j : String)
      → find task_key j (stalled_all why rows db).tasks ≡ (
          if has task_key j rows
          then Option.map (stalled_row db.clock) (find task_key j db.tasks)
          else find task_key j db.tasks)
  unfolding stalled_all
  find-stalled_all why [] db j = refl
  find-stalled_all why (r ∷ rows) db j = ground (
    arith,
    find-stalled_all why rows (stall_written why r db) j,
    find-update task_key (stalled_row db.clock) (λ t. refl) r.id j db.tasks,
  )

  module _ (injective : IsInjective uuid) where
    stall_written-Change :
        (why : List (String × Field)) (r : Task) (db : Db)
        → IsValid uuid db
        → IsInFlight db r
        → Change uuid db (stall_written why r db)
    unfolding event_status
    stall_written-Change why r db v h =
        move r.id r (stalled_row db.clock) (event uuid db r.id "stalled" (stall_fields why r)) h.0
          (ground arith) (origin_kept (stalled_row db.clock) (λ t. refl))
          (ground (arith, v.held r.id)) refl refl refl refl

    -- The loop runs to its end, and its writes are changes that the specification allows.
    pub stall_all_lem :
        (why : List (String × Field)) (rows : List Task) (db : Db)
        → IsValid uuid db
        → HasUniqueKeys task_key rows
        → All (λ x. find task_key x.id db.tasks ≡ some x) rows
        → All (λ x. in_flight x.status ≡ true) rows
        → (stall_all uuid why rows db ≡ returned tt (stalled_all why rows db))
          × Changes uuid db (stalled_all why rows db)
    unfolding stall_all stall stalled_all
    stall_all_lem why [] db v u there flying = (refl, none_yet)
    stall_all_lem why (r ∷ rows) db v u there flying =
        let step = stall_written-Change why r db v (there.0, flying.0) in
        let mid : Db = stall_written why r db in
        let rest =
          stall_all_lem why rows mid (Change-IsValid uuid injective db mid step v) u.1
            (others_stay (stalled_row db.clock) db r rows (λ t. refl) u.0 there.1) flying.1 in
        (
          ground (
            arith,
            append_event_lem uuid db v r.id "stalled" (stall_fields why r) (stalled_row db.clock) r
                (λ t. refl) there.0,
            rest.0,
          ),
          Changes-append (next_change none_yet step) rest.1,
        )

unfoldable pub extended_all : ℕ → List Task → Db → Db
extended_all until [] db = db
extended_all until (r ∷ rows) db = extended_all until rows (changed r.id (extended_row until) db)

pub set_leases_lem :
    (until : ℕ) (rows : List Task) (db : Db)
    → set_leases until rows db ≡ returned tt (extended_all until rows db)
unfolding set_leases extended_all
set_leases_lem until [] db = refl
set_leases_lem until (r ∷ rows) db =
    set_leases_lem until rows (changed r.id (extended_row until) db)

-- Each row that the loop names gets the lease, and no other row changes.
pub find-extended_all :
    (until : ℕ) (rows : List Task) (db : Db) (j : String)
    → find task_key j (extended_all until rows db).tasks ≡ (
        if has task_key j rows
        then Option.map (extended_row until) (find task_key j db.tasks)
        else find task_key j db.tasks)
unfolding extended_all
find-extended_all until [] db j = refl
find-extended_all until (r ∷ rows) db j = ground (
  arith,
  find-extended_all until rows (changed r.id (extended_row until) db) j,
  find-update task_key (extended_row until) (λ t. refl) r.id j db.tasks,
)

pub extended_all-Changes :
    (uuid : ℕ → String) (until : ℕ) (rows : List Task) (db : Db)
    → HasUniqueKeys task_key rows
    → All (λ x. find task_key x.id db.tasks ≡ some x) rows
    → All (λ x. same_status waiting x.status ≡ true) rows
    → Changes uuid db (extended_all until rows db)
unfolding extended_all
extended_all-Changes uuid until [] db u there waits = none_yet
extended_all-Changes uuid until (r ∷ rows) db u there waits =
    Changes-append (next_change none_yet (extend r.id r until there.0 (ground arith) refl)) (
      extended_all-Changes uuid until rows (changed r.id (extended_row until) db) u.1
        (others_stay (extended_row until) db r rows (λ t. refl) u.0 there.1) waits.1)

pub clock-extended_all :
    (until : ℕ) (rows : List Task) (db : Db) → (extended_all until rows db).clock ≡ db.clock
unfolding extended_all
clock-extended_all until [] db = refl
clock-extended_all until (r ∷ rows) db =
    clock-extended_all until rows (changed r.id (extended_row until) db)
