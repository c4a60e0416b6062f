-- ===== src/Gateway/Decisions.antt =====
-- What the start gate decides, for every policy, task and instruction.
use samdi.Common.{◌≤◌, ◌≡◌, refl, ◌↔◌, ◌⊎◌, String, true, false, none, includes, arith}
use samdi.Common.Texts.{is_blank, text_length, slice_to}
use samdi.Common.Texts.Lengths.{slice_to-length, text_length-append}
use samdi.ControlPlane.Db.{Task}
use samdi.Gateway.{
  allow, deny, ask, ApprovalPolicy, PartialPolicy, policy_of, evaluate, evaluate_allow_all, preview,
}

-- For every policy, task and instruction the approval gate denies exactly when the instruction is
-- blank, asks exactly when it is not blank, approval is required and neither the channel nor the
-- label is exempt, and allows exactly when it is not blank and approval is not required or the
-- channel or the label is exempt.
pub evaluate_verdict :
    (policy : ApprovalPolicy) (task : Task) (instruction : String)
    → (((evaluate policy task instruction).verdict ≡ deny) ↔ (is_blank instruction ≡ true))
      × (((evaluate policy task instruction).verdict ≡ ask) ↔ (
          (is_blank instruction ≡ false)
          × (policy.require_approval ≡ true)
          × (includes policy.auto_pass_channels task.channel_id ≡ false)
          × (includes policy.auto_pass_labels task.label ≡ false)))
      × (((evaluate policy task instruction).verdict ≡ allow) ↔ (
          (is_blank instruction ≡ false)
          × ((policy.require_approval ≡ false)
              ⊎ ((includes policy.auto_pass_channels task.channel_id ≡ true)
                  ⊎ (includes policy.auto_pass_labels task.label ≡ true)))))
unfolding evaluate
evaluate_verdict policy task instruction =
    ((ground arith, ground arith), (ground arith, ground arith), (ground arith, ground arith))

abbrev pub nothing_set : PartialPolicy
nothing_set = record { require_approval = none; auto_pass_labels = none; auto_pass_channels = none }

-- Under a policy that sets nothing the approval gate asks the user about every task whose
-- instruction is not blank.
pub default_asks :
    (task : Task) (instruction : String)
    → is_blank instruction ≡ false
    → (evaluate (policy_of nothing_set) task instruction).verdict ≡ ask
unfolding evaluate
default_asks task instruction h = ground arith

-- If approval is not required, the approval gate decides as the gate that lets all pass, whatever
-- the exemptions.
pub approval_off :
    (policy : ApprovalPolicy) (task : Task) (instruction : String)
    → policy.require_approval ≡ false
    → evaluate policy task instruction ≡ evaluate_allow_all task instruction
unfolding evaluate evaluate_allow_all
approval_off policy task instruction h = ground arith

ellipsis_length : text_length "…" ≡ 1
unfolding text_length
ellipsis_length = refl

-- The preview of an instruction has at most 121 UTF-16 units, and it is the instruction itself if
-- that has at most 120.
pub preview_bounds :
    (instruction : String)
    → (text_length (preview instruction) ≤ 121)
      × (text_length instruction ≤ 120 → preview instruction ≡ instruction)
unfolding preview
preview_bounds instruction = (
  ground (
    arith,
    text_length-append (slice_to 120 instruction) "…",
    slice_to-length 120 instruction,
    ellipsis_length,
  ),
  λ h. ground arith,
)
