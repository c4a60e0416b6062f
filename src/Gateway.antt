-- ===== src/Gateway.antt =====
-- packages/policy-gateway/src/index.ts: the start gate, which decides on the user's device whether
-- a task may start.
pub mod Decisions
use Prim.Native.Char.{Char, code}
use Prim.Native.String.{◌++◌ as text_append}
use samdi.Common.{
  ℕ, ◌+◌, ◌-◌, String, Bool, true, false, ◌&&◌, ◌||◌, Option, none, some, List, [], ◌∷◌, ◌==◌,
  includes, if◌then◌else◌, leb, ltb,
}
use samdi.Common.Texts.{is_blank, text_length, slice_to}
use samdi.ControlPlane.Db.{Task}

pub data Verdict : Type 0 where
  allow deny ask : Verdict

pub record StartGateDecision : Type 0 where
  pub verdict : Verdict
  pub reason : Option String
  pub question : Option String

pub record ApprovalPolicy : Type 0 where
  pub require_approval : Bool
  pub auto_pass_labels : List String
  pub auto_pass_channels : List String

-- `Partial<ApprovalPolicy>`
pub record PartialPolicy : Type 0 where
  pub require_approval : Option Bool
  pub auto_pass_labels : Option (List String)
  pub auto_pass_channels : Option (List String)

abbrev pub default_approval_policy : ApprovalPolicy
default_approval_policy = record {
  require_approval = true;
  auto_pass_labels = [];
  auto_pass_channels = [];
}

abbrev or_else {ℓ} : {A : Type ℓ} → Option A → A → A
or_else none d = d
or_else (some a) d = a

-- `{ ...DEFAULT_APPROVAL_POLICY, ...policy }`
abbrev pub policy_of : PartialPolicy → ApprovalPolicy
policy_of p = record {
  require_approval = or_else p.require_approval default_approval_policy.require_approval;
  auto_pass_labels = or_else p.auto_pass_labels default_approval_policy.auto_pass_labels;
  auto_pass_channels = or_else p.auto_pass_channels default_approval_policy.auto_pass_channels;
}

unfoldable pub preview : String → String
preview instruction =
    if ltb 120 (text_length instruction)
    then text_append (slice_to 120 instruction) "…"
    else instruction

abbrev decision : Verdict → StartGateDecision
decision verdict = record { verdict = verdict; reason = none; question = none }

abbrev pub denied_empty : StartGateDecision
denied_empty = record (decision deny) { reason = some "지시 내용이 비어 있다" }

-- `ApprovalStartGate.evaluate`
unfoldable pub evaluate : ApprovalPolicy → Task → String → StartGateDecision
evaluate policy task instruction =
    if is_blank instruction
    then denied_empty
    else if policy.require_approval
    then (if includes policy.auto_pass_channels task.channel_id
        then record (decision allow) {
          reason = some (text_append "채널 " (text_append task.channel_id "는 승인 면제"));
        }
        else if includes policy.auto_pass_labels task.label
        then record (decision allow) {
          reason = some (text_append "라벨 " (text_append task.label "은 승인 면제"));
        }
        else record {
          verdict = ask;
          reason = some "승인 정책";
          question = some (text_append "이 작업을 시작할까요?\n\n" (preview instruction));
        })
    else decision allow

-- `AllowAllStartGate.evaluate`
unfoldable pub evaluate_allow_all : Task → String → StartGateDecision
evaluate_allow_all task instruction = if is_blank instruction then denied_empty else decision allow
