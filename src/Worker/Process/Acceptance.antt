-- ===== src/Worker/Process/Acceptance.antt =====
-- The worker and the control plane together: what the task store makes of the reports of a call.
use samdi.Common.{
  ℕ, ◌≡◌, refl, sym, ap, subst, ◌∙◌, String, true, Option, none, some, List, [], ◌∷◌, inl, inr,
  arith, Bool-cases, Outcome, returned, threw, final, length, eq_iff,
}
use samdi.Common.Table.{find, find-update}
use samdi.Domain.{TaskStatus, TaskReport, can_transition, report_target}
use samdi.Gateway.{StartGateDecision}
use samdi.ControlPlane.Db.{Db, Task, task_key, Failure}
use samdi.ControlPlane.Identifiers.{IsInjective}
use samdi.ControlPlane.Audit.{report_event, report_fields}
use samdi.ControlPlane.Tasks.{apply_report, claim_next}
use samdi.ControlPlane.Tasks.Claim.{Returns, Claimed, claim_takes_oldest}
use samdi.ControlPlane.Tasks.Invariant.{IsValid, Changes-IsValid}
use samdi.ControlPlane.Tasks.Effects.{apply_report_lem, reported, written}
use samdi.ControlPlane.Tasks.Refinement.{after, report_call, claim_call, after-Changes}
use samdi.ControlPlane.Tasks.History.{wait, wait-IsValid}
use samdi.Worker.State.{WorkerState}
use samdi.Worker.Activity.{ActivityLog}
use samdi.Worker.Process.{new_worker, Entry, sent, launched, heard, Run}
use samdi.Worker.Process.Steps.{Event, run_events}
use samdi.Worker.Process.Guarantees.{status_after, after_report, reports_keep_to_diagram}

abbrev pub tables_of : Outcome Failure Db Task → Option Db
tables_of (returned t db) = some db
tables_of (threw e db) = none

-- A report that leads to a status was allowed in the one before.
allowed :
    (report : TaskReport) (before : Option TaskStatus) (s : TaskStatus)
    → after_report report before ≡ some s
    → (s₀ : TaskStatus) × (before ≡ some s₀)
      × (can_transition s₀ (report_target report) ≡ true)
      × (report_target report ≡ s)
allowed report none s e = cc
allowed report (some s₀) s e = elim (Bool-cases (can_transition s₀ (report_target report))) [
  | inl edge ↦
      let same : some (report_target report) ≡ some s = sym (rw edge refl) ∙ e in
      (s₀, refl, edge, cc)
  | inr refused ↦ let same : none ≡ some s = sym (rw refused refl) ∙ e in cc
]

module _ (uuid : ℕ → String) (pauses : ℕ → ℕ) where
  module _ (id : String) where
    abbrev deliver_to : ℕ → TaskReport → Option Db → Option Db
    deliver_to n report none = none
    deliver_to n report (some db) = tables_of (apply_report uuid id report (wait n db))

    -- The tables when the reports of a log have come in order, each after a pause; `none` where one
    -- is refused.
    unfoldable pub deliver : List Entry → Db → Option Db
    deliver [] db = some db
    deliver (sent report ∷ log) db = deliver_to (pauses (length log)) report (deliver log db)
    deliver (launched _ ∷ log) db = deliver log db
    deliver (heard _ ∷ log) db = deliver log db

    -- The tables that are left have the task under this status.
    abbrev pub ArrivesAt : TaskStatus → Option Db → Type 0
    ArrivesAt s left =
        (db : Db) × (t : Task) × (left ≡ some db)
        × IsValid uuid db
        × (find task_key id db.tasks ≡ some t)
        × (t.status ≡ s)

    module _ (injective : IsInjective uuid) where
      -- One report that the state machine allows.
      report_arrives :
          (report : TaskReport) (db : Db) (t : Task)
          → IsValid uuid db
          → find task_key id db.tasks ≡ some t
          → can_transition t.status (report_target report) ≡ true
          → ArrivesAt (report_target report) (tables_of (apply_report uuid id report db))
      unfolding after
      report_arrives report db t v there edge =
          let f = reported report db.clock in
          let left = written uuid id f (report_event report) (report_fields report) db in
          let done : apply_report uuid id report db ≡ returned (f t) left =
            apply_report_lem uuid db v id report ∙ rw (there, edge) refl in
          (
            left,
            f t,
            ap tables_of done,
            subst (IsValid uuid) (ap final done) (
                Changes-IsValid uuid injective db (after uuid (report_call id report) db) v
                  (after-Changes uuid (report_call id report) db injective v)),
            ground (arith, find-update task_key f (λ r. refl) id id db.tasks, there, eq_iff id id),
            refl,
          )

      sent_arrives :
          (n : ℕ) (report : TaskReport) (s : TaskStatus) (left : Option Db)
          → ArrivesAt s left
          → can_transition s (report_target report) ≡ true
          → ArrivesAt (report_target report) (deliver_to n report left)
      sent_arrives n report s left (db, t, e, v, there, same) edge =
          subst (λ l. ArrivesAt (report_target report) (deliver_to n report l)) (sym e)
            (report_arrives report (wait n db) t (wait-IsValid uuid injective n db v) there
              (rw same edge))

      log_arrives :
          (log : List Entry) (db : Db) (t : Task) (s : TaskStatus)
          → IsValid uuid db
          → find task_key id db.tasks ≡ some t
          → t.status ≡ TaskStatus.claimed
          → status_after log ≡ some s
          → ArrivesAt s (deliver log db)
      unfolding deliver
      log_arrives [] db t s v there new e = (db, t, refl, v, there, cc)
      log_arrives (launched _ ∷ log) db t s v there new e = log_arrives log db t s v there new e
      log_arrives (heard _ ∷ log) db t s v there new e = log_arrives log db t s v there new e
      log_arrives (sent report ∷ log) db t s v there new e =
          let (s₀, before, edge, now) = allowed report (status_after log) s e in
          subst (λ x. ArrivesAt x (deliver (sent report ∷ log) db)) now
            (sent_arrives (pauses (length log)) report s₀ (deliver log db)
              (log_arrives log db t s₀ v there new before) edge)

  -- What a claim hands out stands in the tables as it was handed out.
  claim_gives :
      (injective : IsInjective uuid) (w : String) (labels : List String) (lease_seconds : ℕ)
      (db db' : Db) (t : Task)
      → IsValid uuid db
      → claim_next uuid w labels lease_seconds db ≡ returned (some t) db'
      → IsValid uuid db' × (find task_key t.id db'.tasks ≡ some t) × (t.status ≡ TaskStatus.claimed)
  unfolding after
  claim_gives injective w labels lease_seconds db db' t v e =
      let (r, oldest, row, frame) =
        subst (Returns uuid db v w labels lease_seconds (Claimed uuid db v w labels lease_seconds))
          e (claim_takes_oldest uuid db v w labels lease_seconds) in
      let same : t.id ≡ r.id = ap (λ (x : Task). x.id) row in
      (
        subst (IsValid uuid) (ap final e) (
            Changes-IsValid uuid injective db (after uuid (claim_call w labels lease_seconds) db) v
              (after-Changes uuid (claim_call w labels lease_seconds) db injective v)),
        ground (arith, frame t.id, same, eq_iff r.id t.id),
        ap (λ (x : Task). x.status) row,
      )

  -- On valid tables and with identifiers that never repeat: if a claim hands out a task, then for
  -- every call of `processOne` on that task that a worker has made after any sequence of events
  -- from its start, the reports that the call has sent, delivered to `applyReport` in order with
  -- any pauses and with no other change of the tables between, are all accepted, and leave valid
  -- tables where the task has the status that they lead to.
  pub reports_are_accepted :
      IsInjective uuid
      → (w : String) (labels : List String) (lease_seconds : ℕ) (db db' : Db) → IsValid uuid db
      → (gate : Task → String → StartGateDecision) (adapters : List String) (settings : WorkerState)
        (activity : ActivityLog) (start : ℕ) (es : List Event) (r : ℕ) (run : Run)
      → (run_events gate adapters es (new_worker settings activity start)).runs r ≡ some run
      → claim_next uuid w labels lease_seconds db ≡ returned (some run.task) db'
      → (s : TaskStatus) × (status_after run.log ≡ some s)
        × ArrivesAt run.task.id s (deliver run.task.id run.log db')
  reports_are_accepted injective w labels lease_seconds db db' v gate adapters settings activity
        start es r run made claimed =
      let (s, e) = reports_keep_to_diagram gate adapters settings activity start es r run made in
      let (v', there, new) =
        claim_gives injective w labels lease_seconds db db' run.task v claimed in
      (s, e, log_arrives run.task.id injective run.log db' run.task s v' there new e)
