-- ===== src/Core/Hitl/ApprovalPolicy.antt =====
-- core/hitl/approval_policy.py: which actions need an approval.
use support_agent_platform.Shared.{
  String, Bool, true, false, ◌&&◌, ◌||◌, List, [], ◌∷◌, ◌==◌, if◌then◌else◌, contains, Dict, get,
}
use support_agent_platform.Shared.Text.{strip, lower}
use support_agent_platform.Shared.Str.{str_or}
use support_agent_platform.Storage.Models.{Ticket}

pub record ApprovalRequirement : Type 0 where
  pub requires_approval : Bool
  pub risk_level : String
  pub reason : String
  pub rule_id : String
  pub policy_version : String

-- The names are in lower case already, as `__init__` leaves them.
pub record ApprovalPolicy : Type 0 where
  pub policy_version : String
  pub sensitive_reassign_queues : List String
  pub sensitive_reassign_assignees : List String

-- `ApprovalPolicy.default()`.
abbrev pub default_policy : ApprovalPolicy
default_policy = record {
  policy_version = "approval-policy-v1";
  sensitive_reassign_queues = "security" ∷ "legal" ∷ "finance-critical" ∷ [];
  sensitive_reassign_assignees = "security_oncall" ∷ "legal_lead" ∷ "finance_owner" ∷ [];
}

-- `str(payload.get(key) or "").strip().lower()`.
unfoldable pub target : String → Dict → String
unfolding strip lower str_or
target key payload = lower (strip (str_or (get key payload) ""))

unfoldable pub is_sensitive : ApprovalPolicy → Dict → Bool
unfolding target
is_sensitive p payload =
    contains p.sensitive_reassign_queues (target "target_queue" payload)
    || contains p.sensitive_reassign_assignees (target "target_assignee" payload)

needs : ApprovalPolicy → String → String → ApprovalRequirement
needs p reason rule_id = record {
  requires_approval = true;
  risk_level = "high";
  reason = reason;
  rule_id = rule_id;
  policy_version = p.policy_version;
}

unfoldable pub evaluate : ApprovalPolicy → String → Ticket → Dict → ApprovalRequirement
unfolding strip lower is_sensitive needs
evaluate p action_type ticket payload =
    let action = lower (strip action_type) in
    if action == "escalate"
    then needs p "escalation_requires_manual_confirmation" "approval.escalate"
    else if (action == "reassign") && is_sensitive p payload
    then needs p "sensitive_reassign_requires_manual_confirmation" "approval.reassign_sensitive"
    else record {
      requires_approval = false;
      risk_level = ticket.risk_level;
      reason = "no_approval_required";
      rule_id = "approval.none";
      policy_version = p.policy_version;
    }
