-- ===== src/Workflows/CaseCollab.antt =====
-- workflows/case_collab_workflow.py: `CaseCollabWorkflow.handle_command`.
pub mod Keeping
pub mod Approvals
use support_agent_platform.Shared.{
  ◌/◌, String, ◌<>◌, Option, none, some, List, [], ◌∷◌, map, ◌==◌, if◌then◌else◌, take_last,
  contains, Dict, text, arr, end, entry, put, to_items, err, value_error, Exec, pure, lift, ◌>>=◌,
  ◌>>◌,
}
use support_agent_platform.Shared.Text.{strip, lower}
use support_agent_platform.Shared.Words.{join_words}
use support_agent_platform.Storage.Models.{Ticket, TicketEvent, p1}
use support_agent_platform.Storage.World.{World}
use support_agent_platform.Storage.Columns.{Update}
use support_agent_platform.Core.TicketApi.{require_ticket, update_ticket}
use support_agent_platform.Core.TicketActions.{
  Closing, add_event, list_events, assign_ticket, escalate_ticket, resolve_ticket, close_ticket,
}
use support_agent_platform.Core.Hitl.ApprovalPolicy.{ApprovalPolicy}
use support_agent_platform.Core.Hitl.PendingActions.{PendingAction}
use support_agent_platform.Core.Hitl.HandoffContext.{build_approval_context}
use support_agent_platform.Core.Hitl.ApprovalRuntime.{
  ApprovalRequestResult, request_approval_if_needed,
}
use support_agent_platform.Workflows.Commands.{parse_command}

pub record CaseCollabAction : Type 0 where
  pub command : String
  pub ticket : Ticket
  pub message : String

abbrev pub done : String → Ticket → String → Exec World CaseCollabAction
done command t message = pure (record { command = command; ticket = t; message = message })

-- `_STATE_SET`.
abbrev pub collab_states : List String
collab_states =
    "pending_claim" ∷ "claimed" ∷ "waiting_customer" ∷ "waiting_internal" ∷ "pending_approval"
    ∷ "escalated" ∷ "resolved" ∷ "closed" ∷ "completed" ∷ []

-- The ticket, the agent who sent the command, and the line that was sent.
module _ (id actor_id line : String) where
  -- The new collaboration state, with the action that made it.
  abbrev pub mark : String → String → Exec World Ticket
  mark state action =
      update_ticket id (Update.handoff_state state ∷ Update.last_agent_action (some action) ∷ [])
        actor_id

  abbrev pub report : String → Dict → Exec World TicketEvent
  report event_type payload = add_event id event_type "agent" actor_id payload

  abbrev pub sent : Dict
  sent = entry "command" (text line) end

  unfoldable pub claim : Exec World CaseCollabAction
  claim = do
    assign_ticket id actor_id actor_id
    updated ← mark "claimed" "claim"
    report "collab_claim" sent
    done "claim" updated (actor_id <> " claimed " <> id)

  -- The context is built from the ticket before the request reads it again.
  unfoldable pub ask : ApprovalPolicy → String → Dict → Dict → Exec World ApprovalRequestResult
  unfolding build_approval_context
  ask policy action_type payload preview = do
    t ← require_ticket id
    request_approval_if_needed policy (record {
      ticket_id = id;
      action_type = action_type;
      actor_id = actor_id;
      payload = payload;
      context = build_approval_context t action_type (some line) preview;
      timeout_minutes = none;
    })

  -- `request.pending_action`, where the request requires an approval.
  abbrev pub asked : ApprovalRequestResult → Option PendingAction
  asked r = if r.requires_approval then r.pending_action else none

  unfoldable pub reassign_now : String → Exec World CaseCollabAction
  reassign_now assignee = do
    assign_ticket id assignee actor_id
    updated ← mark "waiting_internal" ("reassign:" <> assignee)
    report "collab_reassign" (entry "to" (text assignee) sent)
    done "reassign" updated (id <> " reassigned to " <> assignee <> " by " <> actor_id)

  unfoldable pub reassign_later :
      String → ApprovalRequestResult → PendingAction → Exec World CaseCollabAction
  reassign_later assignee r a = do
    report "collab_reassign_pending_approval"
        (entry "approval_id" (text a.approval_id) (entry "target_assignee" (text assignee) sent))
    done "reassign" r.ticket (id <> " reassign pending approval (" <> a.approval_id <> ")")

  unfoldable pub reassign : ApprovalPolicy → String → Exec World CaseCollabAction
  unfolding reassign_now reassign_later
  reassign policy assignee = do
    r ←
        ask policy "reassign"
          (entry "actor_id" (text actor_id) (entry "target_assignee" (text assignee) end))
          (entry "target_assignee" (text assignee) end)
    elim (asked r) [ none ↦ reassign_now assignee | some a ↦ reassign_later assignee r a ]

  -- `" ".join(args).strip() or "manual escalation"`.
  abbrev pub reason_of : List String → String
  reason_of args =
      let reason = strip (join_words args) in if reason == "" then "manual escalation" else reason

  unfoldable pub escalate_now : String → Exec World CaseCollabAction
  escalate_now reason = do
    updated ← escalate_ticket id actor_id reason p1
    report "collab_escalate" (entry "reason" (text reason) sent)
    done "escalate" updated (id <> " escalated: " <> reason)

  unfoldable pub escalate_later :
      String → ApprovalRequestResult → PendingAction → Exec World CaseCollabAction
  escalate_later reason r a = do
    report "collab_escalate_pending_approval"
        (entry "approval_id" (text a.approval_id) (entry "reason" (text reason) sent))
    done "escalate" r.ticket (id <> " escalation pending approval (" <> a.approval_id <> ")")

  unfoldable pub escalate : ApprovalPolicy → String → Exec World CaseCollabAction
  unfolding escalate_now escalate_later
  escalate policy reason = do
    r ←
        ask policy "escalate" (entry "actor_id" (text actor_id) (entry "note" (text reason) end))
          (entry "note" (text reason) end)
    elim (asked r) [ none ↦ escalate_now reason | some a ↦ escalate_later reason r a ]

  -- The trail of the last events, as the metadata and the payload have it.
  unfoldable pub close_with : String → Exec World CaseCollabAction
  close_with remark = do
    events ← list_events id
    let trail = arr (to_items (map (λ (e : TicketEvent). text e.event_type) (take_last 8 events)))
    t ← require_ticket id
    updated ← close_ticket id actor_id remark (record {
      close_reason = some "customer_confirmed";
      resolution_code = some "COLLAB_CLOSED";
      handoff_state = some "completed";
      metadata = some (put "final_action_trail" trail t.metadata);
    })
    report "collab_close" (
        entry "resolution_note" (text remark)
          (entry "command" (text line) (entry "final_action_trail" trail end)))
    done "close" updated (id <> " closed")

  unfoldable pub resolve_with : String → Exec World CaseCollabAction
  resolve_with remark = do
    resolve_ticket id actor_id remark (some "COLLAB_RESOLVED")
    updated ← mark "waiting_customer" "resolve"
    report "collab_resolve" (entry "resolution_note" (text remark) sent)
    done "resolve" updated (id <> " resolved")

  unfoldable pub set_state : String → Exec World CaseCollabAction
  set_state state = do
    updated ← mark state ("state:" <> state)
    report "collab_state_changed" (entry "to_state" (text state) sent)
    done "state" updated (id <> " state -> " <> state)

  unfoldable pub move_to : String → Exec World CaseCollabAction
  unfolding set_state
  move_to state w =
      if contains collab_states state
      then set_state state w
      else (err (value_error ("Unsupported collab state: " <> state)), w)

  -- The resolution's note, which may not be empty.
  abbrev pub noted :
      String → List String → (String → Exec World CaseCollabAction) → Exec World CaseCollabAction
  noted name args act w =
      let remark = strip (join_words args) in
      if remark == ""
      then (err (value_error ("/" <> name <> " requires resolution note")), w)
      else act remark w

  -- The first argument, which must be there.
  abbrev pub with_argument :
      String → List String → (String → Exec World CaseCollabAction) → Exec World CaseCollabAction
  with_argument message [] act w = (err (value_error message), w)
  with_argument message (arg ∷ args) act w = act arg w

  -- The branches of `handle_command` on the name.
  unfoldable pub run_command : ApprovalPolicy → String → List String → Exec World CaseCollabAction
  unfolding claim reassign escalate close_with resolve_with move_to
  run_command policy command args w =
      if command == "claim"
      then claim w
      else if command == "reassign"
      then with_argument "/reassign requires target assignee" args (reassign policy) w
      else if command == "escalate"
      then escalate policy (reason_of args) w
      else if command == "close"
      then noted "close" args close_with w
      else if command == "resolve"
      then noted "resolve" args resolve_with w
      else if command == "state"
      then with_argument "/state requires target collab state" args
          (λ arg. move_to (lower (strip arg))) w
      else (err (value_error ("Unsupported command: /" <> command)), w)

  unfoldable pub handle_command : ApprovalPolicy → Exec World CaseCollabAction
  unfolding run_command
  handle_command policy = do
    parsed ← lift (parse_command line)
    run_command policy parsed.0 parsed.1
