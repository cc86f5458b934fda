-- ===== src/Core/Hitl/Decisions.antt =====
-- core/hitl/approval_runtime.py: requests and decisions keep to the lifecycle of tickets.
use support_agent_platform.Shared.{String, refl, Option, ℤ, Dict}
use support_agent_platform.Storage.Models.{Ticket}
use support_agent_platform.Core.Lifecycle.{Keeps}
use support_agent_platform.Core.Lifecycle.Actions.{Keeps-frame}
use support_agent_platform.Core.Lifecycle.Merging.{require_ticket-Keeps, add_event-Keeps}
use support_agent_platform.Core.Hitl.ApprovalPolicy.{ApprovalPolicy, ApprovalRequirement}
use support_agent_platform.Core.Hitl.PendingActions.{PendingAction, build_pending_action}
use support_agent_platform.Core.Hitl.ApprovalRuntime.{
  ApprovalRequest, request_approval, request_approval_if_needed, approve_action, mark_approved,
  reject_action, mark_rejected,
}
use support_agent_platform.Core.Hitl.Keeping.{load_pending_actions-Keeps}
use support_agent_platform.Core.Hitl.Listings.{get_pending_action-Keeps, reject_decided-Keeps}
use support_agent_platform.Core.Lifecycle.Programs.{program_rules}

reject_action-Keeps :
    (id actor_id : String) (remark : Option String) (t : Ticket) (a : PendingAction)
    → Keeps (reject_action id actor_id remark t a)
unfolding reject_action
reject_action-Keeps id actor_id remark t a =
    search (program_rules, load_pending_actions-Keeps, add_event-Keeps) depth 12

approve_action-Keeps :
    (id actor_id : String) (execution_ticket : Ticket) (remark : Option String) (t : Ticket)
    (a : PendingAction)
    → Keeps (approve_action id actor_id execution_ticket remark t a)
unfolding approve_action
approve_action-Keeps id actor_id execution_ticket remark t a =
    search (program_rules, load_pending_actions-Keeps, add_event-Keeps) depth 14

build_pending_action-Keeps :
    (ticket_id action_type risk_level requested_by reason : String) (payload context : Dict)
    (minutes : ℤ)
    → Keeps (
        build_pending_action ticket_id action_type risk_level requested_by reason payload context
          minutes)
unfolding build_pending_action
build_pending_action-Keeps ticket_id action_type risk_level requested_by reason payload context
      minutes =
    Keeps-frame _ (λ w. refl)

request_approval-Keeps :
    (q : ApprovalRequest) (t : Ticket) (requirement : ApprovalRequirement)
    → Keeps (request_approval q t requirement)
unfolding request_approval
request_approval-Keeps q t requirement =
    search (program_rules, build_pending_action-Keeps, load_pending_actions-Keeps, add_event-Keeps)
      depth 12

pub request_approval_if_needed-Keeps :
    (policy : ApprovalPolicy) (q : ApprovalRequest) → Keeps (request_approval_if_needed policy q)
unfolding request_approval_if_needed
request_approval_if_needed-Keeps policy q =
    search (program_rules, require_ticket-Keeps, request_approval-Keeps)

ruleset decision_rules = (program_rules, get_pending_action-Keeps, reject_decided-Keeps)

pub mark_rejected-Keeps :
    (id actor_id : String) (remark : Option String) → Keeps (mark_rejected id actor_id remark)
unfolding mark_rejected
mark_rejected-Keeps id actor_id remark = search (decision_rules, reject_action-Keeps)

pub mark_approved-Keeps :
    (id actor_id : String) (execution_ticket : Ticket) (remark : Option String)
    → Keeps (mark_approved id actor_id execution_ticket remark)
unfolding mark_approved
mark_approved-Keeps id actor_id execution_ticket remark =
    search (decision_rules, approve_action-Keeps)
