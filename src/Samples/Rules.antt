-- ===== src/Samples/Rules.antt =====
-- The rules of the task states, of the start gate and of the worker list, applied.
use samdi.Common.{◌≡◌, ◌↔◌, refl, ◌⊎◌, true, false, none, some, [], ◌∷◌, includes}
use samdi.Domain.{claimed, waiting, stalled, can_transition}
use samdi.Domain.Lifecycle.{IsDrawn, IsUndrawn, can_transition_iff}
use samdi.ControlPlane.Db.{Db, Task}
use samdi.ControlPlane.Workers.{collect, covered_labels}
use samdi.Common.Texts.{is_blank}
use samdi.Gateway.{allow, deny, ask, ApprovalPolicy, default_approval_policy, evaluate}
use samdi.Gateway.Decisions.{evaluate_verdict}
use samdi.Samples.Start.{start}

can_transition_iff_example :
    (can_transition waiting stalled ≡ true) ↔ (IsDrawn waiting stalled ⊎ IsUndrawn waiting stalled)
can_transition_iff_example = can_transition_iff waiting stalled

abbrev task : Task
task = record {
  id = "t1";
  channel_id = "demo";
  label = "ops";
  payload_ref = "p1";
  status = claimed;
  agent = none;
  thread_id = none;
  worker_id = some "w1";
  lease_expires_at = some 60;
  created_at = 0;
  updated_at = 0;
}

abbrev ops_exempt : ApprovalPolicy
ops_exempt = record default_approval_policy { auto_pass_labels = "ops" ∷ [] }

evaluate_verdict_example :
    (((evaluate ops_exempt task "run").verdict ≡ deny) ↔ (is_blank "run" ≡ true))
    × (((evaluate ops_exempt task "run").verdict ≡ ask) ↔ (
        (is_blank "run" ≡ false)
        × (ops_exempt.require_approval ≡ true)
        × (includes ops_exempt.auto_pass_channels task.channel_id ≡ false)
        × (includes ops_exempt.auto_pass_labels task.label ≡ false)))
    × (((evaluate ops_exempt task "run").verdict ≡ allow) ↔ (
        (is_blank "run" ≡ false)
        × ((ops_exempt.require_approval ≡ false)
            ⊎ ((includes ops_exempt.auto_pass_channels task.channel_id ≡ true)
                ⊎ (includes ops_exempt.auto_pass_labels task.label ≡ true)))))
evaluate_verdict_example = evaluate_verdict ops_exempt task "run"

run_not_blank : is_blank "run" ≡ false
unfolding is_blank
run_not_blank = refl

-- One worker seen a minute ago, one an hour ago.
abbrev two_workers : Db
two_workers = record start {
  workers =
      record { id = "w1"; labels = "ops" ∷ "dev" ∷ []; first_seen_at = 0; last_seen_at = 3540000 }
      ∷ record { id = "w2"; labels = "mail" ∷ []; first_seen_at = 0; last_seen_at = 0 }
      ∷ [];
}

covered_example : covered_labels 120 3600000 two_workers ≡ "dev" ∷ "ops" ∷ []
unfolding covered_labels collect
covered_example = refl
