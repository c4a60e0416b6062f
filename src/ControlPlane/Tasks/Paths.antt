-- ===== src/ControlPlane/Tasks/Paths.antt =====
-- apps/control-plane/src/task-store.ts: the status of a task over a history, one call after the other.
use mathlib.Core.Option.{some-injective}
use samdi.Common.{
  ℕ, ◌+◌, ◌*◌, if◌then◌else◌, ◌≡◌, refl, sym, ap, subst, ◌∙◌, String, Bool, true, Option, some,
  List, [], ◌∷◌, arith, eq_iff, Bool-cases, Option-cases, inl, inr, ◌==◌,
}
use samdi.Common.Table.{find, find-append, find-update, has, update}
use samdi.Domain.{
  TaskStatus, pending, claimed, stalled, can_transition, report_target, resolution_target,
  TaskReport, Resolution, same_status, in_flight,
}
use samdi.Domain.Lifecycle.{same_status_iff}
use samdi.ControlPlane.Db.{Db, Task, task_key, channel_key}
use samdi.ControlPlane.Identifiers.{IsInjective}
use samdi.ControlPlane.Tasks.{overdue, held_in_flight, extendable}
use samdi.ControlPlane.Tasks.Invariant.{IsValid, Changes-IsValid}
use samdi.ControlPlane.Tasks.Creation.{create_task_lem, new_task}
use samdi.ControlPlane.Tasks.Effects.{
  apply_report_lem, set_agent_lem, resolve_stalled_lem, claim_next_lem, next_claimable,
  next_claimable-IsFound, reported, assigned, resolved, taken,
}
use samdi.ControlPlane.Tasks.Stalling.{stalled_row, extended_row}
use samdi.ControlPlane.Tasks.Leases.{changed_if, find-sweep, find-recover, find-extend}
use samdi.ControlPlane.Tasks.Refinement.{
  Call, create_call, claim_call, report_call, agent_call, resolve_call, recover_call,
  heartbeat_call, sweep_call, after, after-Changes,
}
use samdi.ControlPlane.Tasks.History.{Continues, run, run-Survives, wait, wait-IsValid}

-- What one call may do to the status of the task `id`: a claim takes a pending task, a report and
-- a decision at the gate move the task that they name to their status, if the table allows it,
-- and a recovery and a sweep stall a task in flight.
pub data Step (id : String) : Call → TaskStatus → TaskStatus → Type 0 where
  stays : {c : Call} {s : TaskStatus} → Step id c s s
  claims :
      {w : String} {labels : List String} {n : ℕ} → Step id (claim_call w labels n) pending claimed
  reports :
      {report : TaskReport} {s : TaskStatus}
      → can_transition s (report_target report) ≡ true
      → Step id (report_call id report) s (report_target report)
  resolves :
      {action : Resolution} {s : TaskStatus}
      → can_transition s (resolution_target action) ≡ true
      → Step id (resolve_call id action) s (resolution_target action)
  recovers : {w : String} {s : TaskStatus} → in_flight s ≡ true → Step id (recover_call w) s stalled
  expires : {s : TaskStatus} → in_flight s ≡ true → Step id sweep_call s stalled

-- One step for each call of a history.
pub data Course (id : String) : List (ℕ × Call) → TaskStatus → TaskStatus → Type 0 where
  stop : {s : TaskStatus} → Course id [] s s
  move :
      {n : ℕ} {c : Call} {calls : List (ℕ × Call)} {s t u : TaskStatus}
      → Step id c s t
      → Course id calls t u
      → Course id ((n, c) ∷ calls) s u

-- The row under `id` has become one that the call may make of it.
abbrev StepsTo : String → Call → Task → Option Task → Type 0
StepsTo id c t found = (u : Task) × (found ≡ some u) × Step id c t.status u.status

module _ (uuid : ℕ → String) (injective : IsInjective uuid) (db : Db) (v : IsValid uuid db)
    (id : String) (t : Task) (there : find task_key id db.tasks ≡ some t) where
  -- A row that is changed by `f` if it has the key `j`.
  row_of :
      (c : Call) (j : String) (f : Task → Task) (found : Option Task)
      → found ≡ (if j == id then some (f t) else some t)
      → (j ≡ id → Step id c t.status (f t).status)
      → StepsTo id c t found
  row_of c j f found e own = elim (Bool-cases (j == id)) [
    | inl same ↦ (f t, e ∙ rw same refl, own ((eq_iff j id).0 same))
    | inr other ↦ (t, e ∙ rw other refl, stays)
  ]

  written_row :
      (c : Call) (j : String) (f : Task → Task)
      → ((r : Task) → (f r).id ≡ r.id)
      → (j ≡ id → Step id c t.status (f t).status)
      → StepsTo id c t (find task_key id (update task_key j f db.tasks))
  written_row c j f same own =
      row_of c j f _ (find-update task_key f same j id db.tasks ∙ rw there refl) own

  edge_of :
      (j : String) (r : Task)
      → find task_key j db.tasks ≡ some r
      → j ≡ id
      → (p : Task → Bool) → p r ≡ true
      → p t ≡ true
  edge_of j r found e p edge =
      let same : some t ≡ some r =
        sym there ∙ (ap (λ k. find task_key k db.tasks) (sym e) ∙ found) in
      let row : t ≡ r = some-injective _ _ same in ap p row ∙ edge

  stalled_if :
      (c : Call) (p : Task → Bool)
      → (p t ≡ true → in_flight t.status ≡ true)
      → (in_flight t.status ≡ true → Step id c t.status stalled)
      → (found : Option Task)
      → found ≡ changed_if p (stalled_row db.clock) (find task_key id db.tasks)
      → StepsTo id c t found
  stalled_if c p flies step found e = elim (Bool-cases (p t)) [
    | inl fits ↦ (stalled_row db.clock t, e ∙ rw (there, fits) refl, step (flies fits))
    | inr unfit ↦ (t, e ∙ rw (there, unfit) refl, stays)
  ]

  after-StepsTo : (c : Call) → StepsTo id c t (find task_key id (after uuid c db).tasks)
  unfolding after
  after-StepsTo (create_call channel_id label payload agent thread_id) =
      rw (create_task_lem uuid channel_id label payload agent thread_id db v)
        (elim (Bool-cases (has channel_key channel_id db.channels)) [
          | inr missing ↦ rw missing (t, there, stays)
          | inl known ↦ rw known (
            t,
            ground (
              arith,
              find-append task_key id db.tasks
                  (new_task uuid channel_id label payload agent thread_id db ∷ []),
            ),
            stays,
          )
        ])
  after-StepsTo (claim_call w labels n) =
      rw (claim_next_lem uuid db v w labels n) (elim (Option-cases (next_claimable labels db)) [
        | inl absent ↦ rw absent (t, there, stays)
        | inr (r, found) ↦
            let row = next_claimable-IsFound uuid db v labels r found in
            rw found (
              written_row (claim_call w labels n) r.id (taken w n db.clock) (λ x. refl)
                (λ e.
                  let waits : same_status pending t.status ≡ true =
                    edge_of r.id r row.0 e (λ x. same_status pending x.status)
                      (ground (arith, row.1)) in
                  subst (λ s. Step id (claim_call w labels n) s claimed)
                    ((same_status_iff pending t.status).0 waits) claims))
      ])
  after-StepsTo (report_call j report) =
      rw (apply_report_lem uuid db v j report) (elim (Option-cases (find task_key j db.tasks)) [
        | inl absent ↦ rw absent (t, there, stays)
        | inr (r, found) ↦
            rw found (elim (Bool-cases (can_transition r.status (report_target report))) [
              | inr no_edge ↦ rw no_edge (t, there, stays)
              | inl edge ↦ rw edge (
                  written_row (report_call j report) j (reported report db.clock) (λ x. refl)
                    (λ e.
                      subst (λ k. Step id (report_call k report) t.status (report_target report))
                        (sym e)
                        (reports (
                          edge_of j r found e (λ x. can_transition x.status (report_target report))
                            edge))))
            ])
      ])
  after-StepsTo (agent_call j agent) =
      rw (set_agent_lem uuid db v j agent) (elim (Option-cases (find task_key j db.tasks)) [
        | inl absent ↦ rw absent (t, there, stays)
        | inr (r, found) ↦ rw found (elim (Bool-cases (same_status pending r.status)) [
          | inr taken_up ↦ rw taken_up (t, there, stays)
          | inl free ↦ rw free (
              written_row (agent_call j agent) j (assigned agent db.clock) (λ x. refl) (λ e. stays))
        ])
      ])
  after-StepsTo (resolve_call j action) =
      rw (resolve_stalled_lem uuid db v j action) (elim (Option-cases (find task_key j db.tasks)) [
        | inl absent ↦ rw absent (t, there, stays)
        | inr (r, found) ↦
            rw found (elim (Bool-cases (can_transition r.status (resolution_target action))) [
              | inr no_edge ↦ rw no_edge (t, there, stays)
              | inl edge ↦ rw edge (
                  written_row (resolve_call j action) j (resolved action db.clock) (λ x. refl)
                    (λ e.
                      subst
                        (λ k. Step id (resolve_call k action) t.status (resolution_target action))
                        (sym e)
                        (resolves (
                          edge_of j r found e
                            (λ x. can_transition x.status (resolution_target action)) edge))))
            ])
      ])
  after-StepsTo (recover_call w) =
      stalled_if (recover_call w) (held_in_flight w) (λ h. ground arith) recovers _
        (find-recover uuid injective db v w id)
  after-StepsTo (heartbeat_call w task_ids n) = elim (Bool-cases (extendable w task_ids t)) [
    | inl fits ↦ (
      extended_row (db.clock + n * 1000) t,
      find-extend uuid injective db v w task_ids n id ∙ rw (there, fits) refl,
      stays,
    )
    | inr unfit ↦
        (t, find-extend uuid injective db v w task_ids n id ∙ rw (there, unfit) refl, stays)
  ]
  after-StepsTo sweep_call =
      stalled_if sweep_call (overdue db.clock) (λ h. ground arith) expires _
        (find-sweep uuid injective db v id)

-- What became of the task `t` in the tables `db` after these calls.
abbrev pub Follows : String → List (ℕ × Call) → Task → Db → Type 0
Follows id calls t db =
    (u : Task) × (find task_key id db.tasks ≡ some u)
    × Continues t u
    × Course id calls t.status u.status

module _ (uuid : ℕ → String) (injective : IsInjective uuid) where
  reached :
      (calls : List (ℕ × Call)) (db : Db) (id : String) (t : Task)
      → IsValid uuid db
      → find task_key id db.tasks ≡ some t
      → (u : Task) → find task_key id (run uuid calls db).tasks ≡ some u
      → Course id calls t.status u.status
  unfolding run
  reached [] db id t v there u fu =
      let same : some t ≡ some u = sym there ∙ fu in
      subst (λ (x : Task). Course id [] t.status x.status) (some-injective _ _ same) stop
  reached ((n, c) ∷ calls) db id t v there u fu =
      let w = wait-IsValid uuid injective n db v in
      let next_db = after uuid c (wait n db) in
      let (x, fx, step) = after-StepsTo uuid injective (wait n db) w id t there c in
      let v' =
        Changes-IsValid uuid injective (wait n db) next_db w
          (after-Changes uuid c (wait n db) injective w) in
      move step (reached calls next_db id x v' fx u fu)

  -- From valid tables and with identifiers that never repeat, after every sequence of waits and
  -- calls of the task store each task that was there is still there, with the channel, label,
  -- payload, thread and creation time that it had, and a path of one step per call leads from its
  -- former status to its status: a claim takes it from pending to claimed or leaves it, a report
  -- or a decision that names it moves it to the status of that report or decision if the table of
  -- transitions allows the move or leaves it, a recovery or a sweep stalls it if it is claimed,
  -- running or waiting or leaves it, and every other call leaves its status.
  pub run-Follows :
      (calls : List (ℕ × Call)) (db : Db) (id : String) (t : Task)
      → IsValid uuid db
      → find task_key id db.tasks ≡ some t
      → Follows id calls t (run uuid calls db)
  run-Follows calls db id t v there =
      let (u, fu, cu) = run-Survives uuid injective calls db id t v there in
      (u, fu, cu, reached calls db id t v there u fu)
