-- ===== src/ControlPlane/Tasks/Refinement.antt =====
-- apps/control-plane/src/task-store.ts: the methods of the store beside the allowed changes of Steps.
use samdi.Common.{
  ℕ, ◌≡◌, refl, String, true, Option, none, some, List, [], ◌∷◌, arith, final, Option-cases,
  Bool-cases, inl, inr,
}
use samdi.Common.Table.{find, has}
use samdi.Domain.{
  pending, claimed, can_transition, same_status, TaskReport, report_rejected, report_started,
  report_waiting, report_resumed, report_completed, report_failed, report_target, Resolution, retry,
  abandon, resolution_target,
}
use samdi.ControlPlane.Db.{Db, Task, text, task_key, channel_key}
use samdi.ControlPlane.Audit.{report_event, report_fields, resolution_event}
use samdi.ControlPlane.Tasks.{
  create_task, claim_next, apply_report, set_agent, resolve_stalled, recover_worker_tasks,
  extend_waiting_leases, sweep_expired_leases, claimable,
}
use samdi.ControlPlane.Tasks.Steps.{
  event_status, is_held_right, origin_kept, Changes, draw, stash, create, move, assign, none_yet,
  next_change,
}
use samdi.ControlPlane.Identifiers.{IsInjective}
use samdi.ControlPlane.Tasks.Invariant.{IsValid}
use samdi.ControlPlane.Tasks.Effects.{
  event, reported, assigned, resolved, taken, claim_fields, next_claimable, next_claimable-IsFound,
  apply_report_lem, set_agent_lem, resolve_stalled_lem, claim_next_lem,
}
use samdi.ControlPlane.Tasks.Creation.{create_task_lem, new_task, created_event}
use samdi.ControlPlane.Tasks.Leases.{sweep-Changes, recover-Changes, extend-Changes}

-- The calls that the server makes of the store.
pub data Call : Type 0 where
  create_call : String → String → String → Option String → Option String → Call
  claim_call : String → List String → ℕ → Call
  report_call : String → TaskReport → Call
  agent_call : String → String → Call
  resolve_call : String → Resolution → Call
  recover_call : String → Call
  heartbeat_call : String → List String → ℕ → Call
  sweep_call : Call

-- A report leaves worker and lease as they are, and that suits the new status.
report_held :
    (t : Task) (report : TaskReport)
    → can_transition t.status (report_target report) ≡ true
    → is_held_right t.status t.worker_id t.lease_expires_at ≡ true
    → is_held_right (report_target report) t.worker_id t.lease_expires_at ≡ true
report_held t report edge h = ground arith

report_event_status :
    (report : TaskReport) → event_status (report_event report) ≡ some (report_target report)
unfolding event_status
report_event_status (report_rejected _) = refl
report_event_status report_started = refl
report_event_status (report_waiting _) = refl
report_event_status report_resumed = refl
report_event_status (report_completed _) = refl
report_event_status (report_failed _) = refl

resolved_held : (action : Resolution) → is_held_right (resolution_target action) none none ≡ true
resolved_held retry = refl
resolved_held abandon = refl

resolution_event_status :
    (action : Resolution) → event_status (resolution_event action) ≡ some (resolution_target action)
unfolding event_status
resolution_event_status retry = refl
resolution_event_status abandon = refl

claimable_edge :
    (labels : List String) (t : Task)
    → claimable labels t ≡ true
    → can_transition t.status claimed ≡ true
claimable_edge labels t h = ground arith

module _ (uuid : ℕ → String) where
  unfoldable pub after : Call → Db → Db
  after (create_call channel_id label payload agent thread_id) db =
      final (create_task uuid channel_id label payload agent thread_id db)
  after (claim_call worker_id labels lease_seconds) db =
      final (claim_next uuid worker_id labels lease_seconds db)
  after (report_call task_id report) db = final (apply_report uuid task_id report db)
  after (agent_call task_id agent) db = final (set_agent uuid task_id agent db)
  after (resolve_call task_id action) db = final (resolve_stalled uuid task_id action db)
  after (recover_call worker_id) db = final (recover_worker_tasks uuid worker_id db)
  after (heartbeat_call worker_id task_ids lease_seconds) db =
      final (extend_waiting_leases worker_id task_ids lease_seconds db)
  after sweep_call db = final (sweep_expired_leases uuid db)

  module _ (injective : IsInjective uuid) (db : Db) (v : IsValid uuid db) where
    report-Changes :
        (id : String) (report : TaskReport) → Changes uuid db (after (report_call id report) db)
    unfolding after
    report-Changes id report =
        rw (apply_report_lem uuid db v id report) (elim (Option-cases (find task_key id db.tasks)) [
          | inl absent ↦ rw absent none_yet
          | inr (t, found) ↦
              rw found (elim (Bool-cases (can_transition t.status (report_target report))) [
                | inr no_edge ↦ rw no_edge none_yet
                | inl edge ↦ rw edge (
                    next_change none_yet (
                      move id t (reported report db.clock)
                        (event uuid db id (report_event report) (report_fields report)) found edge
                        (origin_kept (reported report db.clock) (λ r. refl))
                        (report_held t report edge (ground (arith, v.held id))) refl refl
                        (report_event_status report) refl))
              ])
        ])

    agent-Changes : (id agent : String) → Changes uuid db (after (agent_call id agent) db)
    unfolding after event_status
    agent-Changes id agent =
        rw (set_agent_lem uuid db v id agent) (elim (Option-cases (find task_key id db.tasks)) [
          | inl absent ↦ rw absent none_yet
          | inr (t, found) ↦ rw found (elim (Bool-cases (same_status pending t.status)) [
            | inr other ↦ rw other none_yet
            | inl is_pending ↦ rw is_pending (
                next_change none_yet (
                  assign id t (assigned agent db.clock)
                    (event uuid db id "agent_assigned" (("agent", text agent) ∷ [])) found
                    (ground arith) (origin_kept (assigned agent db.clock) (λ r. refl)) refl refl
                    refl refl refl refl refl))
          ])
        ])

    resolve-Changes :
        (id : String) (action : Resolution) → Changes uuid db (after (resolve_call id action) db)
    unfolding after
    resolve-Changes id action =
        rw (resolve_stalled_lem uuid db v id action)
          (elim (Option-cases (find task_key id db.tasks)) [
            | inl absent ↦ rw absent none_yet
            | inr (t, found) ↦
                rw found (elim (Bool-cases (can_transition t.status (resolution_target action))) [
                  | inr no_edge ↦ rw no_edge none_yet
                  | inl edge ↦ rw edge (
                      next_change none_yet (
                        move id t (resolved action db.clock)
                          (event uuid db id (resolution_event action) []) found edge
                          (origin_kept (resolved action db.clock) (λ r. refl))
                          (resolved_held action) refl refl (resolution_event_status action) refl))
                ])
          ])

    claim-Changes :
        (worker_id : String) (labels : List String) (lease_seconds : ℕ)
        → Changes uuid db (after (claim_call worker_id labels lease_seconds) db)
    unfolding after event_status
    claim-Changes worker_id labels lease_seconds =
        rw (claim_next_lem uuid db v worker_id labels lease_seconds)
          (elim (Option-cases (next_claimable labels db)) [
            | inl absent ↦ rw absent none_yet
            | inr (t, found) ↦
                let row = next_claimable-IsFound uuid db v labels t found in
                rw found (
                  next_change none_yet (
                    move t.id t (taken worker_id lease_seconds db.clock)
                      (event uuid db t.id "claimed" (claim_fields worker_id lease_seconds db)) row.0
                      (claimable_edge labels t row.1)
                      (origin_kept (taken worker_id lease_seconds db.clock) (λ r. refl)) refl refl
                      refl refl refl))
          ])

    create-Changes :
        (channel_id label payload : String) (agent thread_id : Option String)
        → Changes uuid db (after (create_call channel_id label payload agent thread_id) db)
    unfolding after event_status
    create-Changes channel_id label payload agent thread_id =
        let put = next_change none_yet (
          stash (record { ref = uuid db.drawn; body = payload; created_at = db.clock }) refl
            refl) in
        rw (create_task_lem uuid channel_id label payload agent thread_id db v)
          (elim (Bool-cases (has channel_key channel_id db.channels)) [
            | inr missing ↦ rw missing (next_change put (draw refl))
            | inl known ↦ rw known (
                next_change put (
                  create (new_task uuid channel_id label payload agent thread_id db)
                    (created_event uuid channel_id label payload agent thread_id db) refl refl refl
                    refl refl refl refl refl))
          ])

-- From valid tables and with identifiers that never repeat, what a call of any method of the task
-- store does to the tables is a sequence of allowed changes: storing a payload or a new pending
-- task with its event, moving a status along the state machine with the event that names the move,
-- or a change that keeps the status.
pub after-Changes :
    (uuid : ℕ → String) (c : Call) (db : Db)
    → IsInjective uuid
    → IsValid uuid db
    → Changes uuid db (after uuid c db)
unfolding after
after-Changes uuid (create_call channel_id label payload agent thread_id) db i v =
    create-Changes uuid i db v channel_id label payload agent thread_id
after-Changes uuid (claim_call worker_id labels lease_seconds) db i v =
    claim-Changes uuid i db v worker_id labels lease_seconds
after-Changes uuid (report_call task_id report) db i v = report-Changes uuid i db v task_id report
after-Changes uuid (agent_call task_id agent) db i v = agent-Changes uuid i db v task_id agent
after-Changes uuid (resolve_call task_id action) db i v = resolve-Changes uuid i db v task_id action
after-Changes uuid (recover_call worker_id) db i v = recover-Changes uuid i db v worker_id
after-Changes uuid (heartbeat_call worker_id task_ids lease_seconds) db i v =
    extend-Changes uuid i db v worker_id task_ids lease_seconds
after-Changes uuid sweep_call db i v = sweep-Changes uuid i db v
