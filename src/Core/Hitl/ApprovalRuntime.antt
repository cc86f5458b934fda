-- ===== src/Core/Hitl/ApprovalRuntime.antt =====
-- core/hitl/approval_runtime.py: the requests and the decisions of `ApprovalRuntime`. What it writes
-- to the trace log is left out.
use support_agent_platform.Shared.{
  String, ◌<>◌, Bool, true, false, Option, none, some, [], ◌∷◌, ◌++◌, if◌then◌else◌, ℤ, pos, Value,
  Dict, bool, int, text, end, entry, get, merge, ok, err, runtime_error, Exec, pure, gets, ◌>>=◌,
  ◌>>◌,
}
use support_agent_platform.Shared.Str.{of_option}
use support_agent_platform.Storage.Models.{Ticket}
use support_agent_platform.Storage.World.{World, now}
use support_agent_platform.Storage.Columns.{Update}
use support_agent_platform.Core.TicketApi.{require_ticket, update_ticket}
use support_agent_platform.Core.TicketActions.{add_event}
use support_agent_platform.Core.Hitl.ApprovalPolicy
use support_agent_platform.Core.Hitl.ApprovalPolicy.{ApprovalPolicy, ApprovalRequirement}
use support_agent_platform.Core.Hitl.PendingActions.{
  PendingAction, approved, rejected, approval_status_text, as_dict, build_pending_action,
  load_pending_actions, save_pending_actions, replace_action, is_pending,
}
use support_agent_platform.Core.Hitl.Timeouts.{
  resume_handoff_state, next_handoff_state, approval_updates, get_pending_action,
}

pub record ApprovalRequestResult : Type 0 where
  pub requires_approval : Bool
  pub ticket : Ticket
  pub requirement : ApprovalRequirement
  pub pending_action : Option PendingAction

pub record ApprovalDecisionResult : Type 0 where
  pub ticket : Ticket
  pub pending_action : PendingAction

-- The arguments of a request.
pub record ApprovalRequest : Type 0 where
  pub ticket_id : String
  pub action_type : String
  pub actor_id : String
  pub payload : Dict
  pub context : Dict
  pub timeout_minutes : Option ℤ

-- The minutes that are asked for, in the call or in the payload, where True is 1.
unfoldable pub requested_timeout : Option ℤ → Option Value → ℤ
requested_timeout (some z) v = z
requested_timeout none (some (int z)) = z
requested_timeout none (some (bool true)) = pos 1
requested_timeout none (some (bool false)) = pos 0
requested_timeout none _ = pos 30

-- The writes of a request that needs an approval.
unfoldable pub request_approval :
    ApprovalRequest → Ticket → ApprovalRequirement → Exec World ApprovalRequestResult
unfolding requested_timeout
request_approval q ticket requirement = do
  action ←
      build_pending_action ticket.ticket_id q.action_type requirement.risk_level q.actor_id
        requirement.reason q.payload q.context
        (requested_timeout q.timeout_minutes (get "timeout_minutes" q.payload))
  actions ← load_pending_actions ticket
  updated ←
      update_ticket q.ticket_id
        (Update.handoff_state "pending_approval"
          ∷ Update.risk_level requirement.risk_level
          ∷ Update.last_agent_action (some ("approval_pending:" <> q.action_type))
          ∷ Update.metadata (save_pending_actions ticket.metadata (actions ++ action ∷ []))
          ∷ [])
        q.actor_id
  add_event q.ticket_id "approval_requested" "agent" q.actor_id (
      merge (as_dict action) (
        entry "policy_version" (text requirement.policy_version)
          (entry "rule_id" (text requirement.rule_id) end)))
  pure (record {
    requires_approval = true;
    ticket = updated;
    requirement = requirement;
    pending_action = some action;
  })

unfoldable pub request_approval_if_needed :
    ApprovalPolicy → ApprovalRequest → Exec World ApprovalRequestResult
request_approval_if_needed policy q = do
  ticket ← require_ticket q.ticket_id
  let requirement = ApprovalPolicy.evaluate policy q.action_type ticket q.payload
  if requirement.requires_approval
      then request_approval q ticket requirement
      else pure (record {
        requires_approval = false;
        ticket = ticket;
        requirement = requirement;
        pending_action = none;
      })

unfoldable pub reject_decided : PendingAction → String → Exec World Unit
unfolding approval_status_text
reject_decided a id w = if is_pending a then (ok tt, w) else (
  err (runtime_error ("approval " <> id <> " is already " <> approval_status_text a.status)),
  w,
)

unfoldable pub decision_payload :
    String → String → String → PendingAction → String → Option String → Dict
decision_payload id status decided_by a actor_id note = entry "approval_id" (text id) (
    entry "action_type" (text a.action_type) (
      entry "status" (text status) (
        entry decided_by (text actor_id) (
          entry "requested_by" (text a.requested_by)
            (entry "decision_note" (of_option note) end)))))

-- The writes of an approval: the execution's ticket gets the actions of the one that was found.
unfoldable pub approve_action :
    String
    → String
    → Ticket
    → Option String
    → Ticket
    → PendingAction
    → Exec World ApprovalDecisionResult
unfolding replace_action next_handoff_state resume_handoff_state approval_updates decision_payload
approve_action id actor_id execution_ticket note ticket target = do
  time ← now
  iso ← gets (λ (w : World). w.isoformat)
  let decided : PendingAction = record target {
    status = approved;
    approved_by = some actor_id;
    decided_at = some (iso time);
    decision_note = note;
  }
  known ← load_pending_actions ticket
  let actions = replace_action known id decided
  updated ←
      update_ticket execution_ticket.ticket_id
        (approval_updates (next_handoff_state actions target execution_ticket.handoff_state)
          ("approval_approved:" <> target.action_type)
          (save_pending_actions execution_ticket.metadata actions))
        actor_id
  add_event updated.ticket_id "approval_decision" "agent" actor_id
      (decision_payload id "approved" "approved_by" target actor_id note)
  add_event updated.ticket_id "approval_resumed" "agent" actor_id (
      entry "approval_id" (text id) (
        entry "action_type" (text target.action_type) (
          entry "resume_handoff_state"
            (text (resume_handoff_state target execution_ticket.handoff_state)) end)))
  pure (record { ticket = updated; pending_action = decided })

unfoldable pub mark_approved :
    String → String → Ticket → Option String → Exec World ApprovalDecisionResult
mark_approved id actor_id execution_ticket note = do
  (ticket, target) ← get_pending_action id
  reject_decided target id
  approve_action id actor_id execution_ticket note ticket target

-- The writes of a rejection.
unfoldable pub reject_action :
    String → String → Option String → Ticket → PendingAction → Exec World ApprovalDecisionResult
unfolding replace_action next_handoff_state approval_updates decision_payload
reject_action id actor_id note ticket target = do
  time ← now
  iso ← gets (λ (w : World). w.isoformat)
  let decided : PendingAction = record target {
    status = rejected;
    rejected_by = some actor_id;
    decided_at = some (iso time);
    decision_note = note;
  }
  known ← load_pending_actions ticket
  let actions = replace_action known id decided
  updated ←
      update_ticket ticket.ticket_id
        (approval_updates (next_handoff_state actions target ticket.handoff_state)
          ("approval_rejected:" <> target.action_type)
          (save_pending_actions ticket.metadata actions))
        actor_id
  add_event updated.ticket_id "approval_decision" "agent" actor_id
      (decision_payload id "rejected" "rejected_by" target actor_id note)
  pure (record { ticket = updated; pending_action = decided })

unfoldable pub mark_rejected : String → String → Option String → Exec World ApprovalDecisionResult
mark_rejected id actor_id note = do
  (ticket, target) ← get_pending_action id
  reject_decided target id
  reject_action id actor_id note ticket target
