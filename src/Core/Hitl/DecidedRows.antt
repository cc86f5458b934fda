-- ===== src/Core/Hitl/DecidedRows.antt =====
-- core/hitl/approval_runtime.py: the rows and the events that a decision leaves.
use support_agent_platform.Shared.{
  suc, String, ◌<>◌, Option, some, List, if◌then◌else◌, some_of, text, obj, end, entry,
}
use support_agent_platform.Shared.Str.{of_option}
use support_agent_platform.Storage.Models.{Ticket, TicketEvent}
use support_agent_platform.Storage.World.{World, Row}
use support_agent_platform.Core.Outcomes.{next_event}
use support_agent_platform.Core.Hitl.PendingActions.{
  is_pending, PendingAction, approved, rejected, save_pending_actions, replace_action,
}
use support_agent_platform.Core.Hitl.Timeouts.{resume_handoff_state}
use support_agent_platform.Core.Hitl.ApprovalRuntime.{decision_payload}
use support_agent_platform.Core.Hitl.Decided.{decided_row}

-- The action with the decision on it.
abbrev pub rejected_action : World → String → Option String → PendingAction → PendingAction
rejected_action v actor_id remark target = record target {
  status = rejected;
  rejected_by = some actor_id;
  decided_at = some (v.isoformat (v.clock v.reads));
  decision_note = remark;
}

abbrev pub approved_action : World → String → Option String → PendingAction → PendingAction
approved_action v actor_id remark target = record target {
  status = approved;
  approved_by = some actor_id;
  decided_at = some (v.isoformat (v.clock v.reads));
  decision_note = remark;
}

-- The handoff state stays while an action is left pending, and is resumed else.
abbrev pub state_after : List PendingAction → PendingAction → String → String
state_after actions target current =
    if some_of is_pending actions then current else resume_handoff_state target current

-- The row of the ticket with the action, after a rejection.
abbrev pub rejected_row :
    World → Row → List PendingAction → String → PendingAction → PendingAction → Row
rejected_row v q known id target decided =
    decided_row v q (state_after (replace_action known id decided) target q.handoff_state)
      ("approval_rejected:" <> target.action_type)
      (save_pending_actions q.metadata (replace_action known id decided))

-- The row of the execution's ticket, after an approval.
abbrev pub approved_row :
    World → Row → Ticket → List PendingAction → String → PendingAction → PendingAction → Row
approved_row v q x known id target decided =
    decided_row v q (state_after (replace_action known id decided) target x.handoff_state)
      ("approval_approved:" <> target.action_type)
      (save_pending_actions x.metadata (replace_action known id decided))

-- The event of the update that writes a row.
abbrev pub row_event : World → Row → String → TicketEvent
row_event v r actor_id =
    next_event r.ticket_id "ticket_updated" "agent" actor_id
      (entry "updates"
        (obj (
          entry "handoff_state" (text r.handoff_state) (
            entry "last_agent_action" (of_option r.last_agent_action)
              (entry "metadata" (obj r.metadata) end))))
        end)
      (record v { reads = suc (suc v.reads) })

abbrev pub decision_event :
    World → Row → String → String → String → String → PendingAction → Option String → TicketEvent
decision_event v r id status decided_by actor_id target remark =
    next_event r.ticket_id "approval_decision" "agent" actor_id
      (decision_payload id status decided_by target actor_id remark)
      (record v { reads = suc (suc (suc v.reads)); drawn = suc v.drawn })

abbrev pub resumption_event : World → Row → String → String → PendingAction → String → TicketEvent
resumption_event v r id actor_id target fallback =
    next_event r.ticket_id "approval_resumed" "agent" actor_id
      (entry "approval_id" (text id) (
        entry "action_type" (text target.action_type)
          (entry "resume_handoff_state" (text (resume_handoff_state target fallback)) end)))
      (record v { reads = suc (suc (suc (suc v.reads))); drawn = suc (suc v.drawn) })
