-- ===== src/Core/Outcomes/Rows.antt =====
-- core/ticket_api.py: the rows and the events that assignment, resolution and escalation leave.
use support_agent_platform.Shared.{
  suc, String, ◌<>◌, ◌≡◌, refl, ◌≢◌, true, false, ◌||◌, Option, some, if◌then◌else◌, text, end,
  entry,
}
use support_agent_platform.Shared.Str.{of_option}
use support_agent_platform.Storage.Models.{
  moment, TicketEvent, Status, Priority, status_text, priority_text, opened, pending, escalated,
}
use support_agent_platform.Storage.World.{World, Row}
use support_agent_platform.Core.TicketApi.{allowed, same_status}
use support_agent_platform.Core.TicketActions.{is_assigned}
use support_agent_platform.Core.Outcomes.{next_event}

pub same_status-closed : (s : Status) → s ≢ Status.closed → same_status s Status.closed ≡ false
unfolding same_status status_text
same_status-closed opened h = refl
same_status-closed Status.closed h = absurd (h refl)
same_status-closed _ h = refl

pub can_assign :
    (s : Status) → s ≢ Status.closed → (same_status pending s || allowed s pending) ≡ true
unfolding same_status allowed status_text
can_assign opened h = refl
can_assign Status.closed h = absurd (h refl)
can_assign _ h = refl

pub can_resolve :
    (s : Status)
    → s ≢ Status.closed
    → (same_status Status.resolved s || allowed s Status.resolved) ≡ true
unfolding same_status allowed status_text
can_resolve opened h = refl
can_resolve Status.closed h = absurd (h refl)
can_resolve _ h = refl

pub can_escalate :
    (s : Status)
    → s ≢ Status.closed
    → s ≢ Status.resolved
    → (same_status escalated s || allowed s escalated) ≡ true
unfolding same_status allowed status_text
can_escalate opened h k = refl
can_escalate Status.closed h k = absurd (h refl)
can_escalate Status.resolved h k = absurd (k refl)
can_escalate _ h k = refl

-- The world after a reading of the clock.
abbrev pub later_world : World → World
later_world w = record w { reads = suc w.reads }

-- The columns that an assignment writes.
abbrev pub assigned_row : World → Row → String → Row
assigned_row w r assignee = record r {
  assignee = some assignee;
  lifecycle_stage = "classified";
  last_agent_action = some ("assign:" <> assignee);
  status = "pending";
  updated_at = w.clock w.reads;
}

abbrev pub assignment_event : String → World → Row → Status → String → String → TicketEvent
assignment_event id w r s assignee actor_id =
    next_event id (if is_assigned r.assignee then "ticket_reassigned" else "ticket_assigned")
      "agent" actor_id
      (entry "from_status" (text (status_text s)) (
        entry "to_status" (text "pending")
          (entry "policy" (text "ticket_lifecycle_v1") (entry "assignee" (text assignee) end))))
      (later_world w)

-- The columns that a resolution writes.
abbrev pub resolved_row : World → Row → String → Option String → Row
resolved_row w r note code = record r {
  needs_handoff = false;
  latest_message = note;
  resolution_note = some note;
  resolution_code = code;
  resolved_at = some (moment (w.clock w.reads));
  lifecycle_stage = "resolved";
  last_agent_action = some "resolve";
  status = "resolved";
  updated_at = w.clock (suc w.reads);
}

abbrev pub resolution_event :
    String → World → Row → Status → String → String → Option String → TicketEvent
resolution_event id w r s actor_id note code =
    next_event id "ticket_resolved" "agent" actor_id
      (entry "from_status" (text (status_text s)) (
        entry "to_status" (text "resolved") (
          entry "policy" (text "ticket_lifecycle_v1")
            (entry "resolution_note" (text note) (entry "resolution_code" (of_option code) end)))))
      (record w { reads = suc (suc w.reads) })

-- The columns that an escalation writes.
abbrev pub escalated_row : World → Row → Priority → Row
escalated_row w r new_priority = record r {
  priority = priority_text new_priority;
  escalated_at = some (moment (w.clock w.reads));
  lifecycle_stage = "awaiting_human";
  handoff_state = "requested";
  risk_level = "high";
  last_agent_action = some "escalate";
  status = "escalated";
  updated_at = w.clock (suc w.reads);
}

abbrev pub escalation_event :
    String → World → Row → Status → String → String → Priority → TicketEvent
escalation_event id w r s actor_id reason new_priority =
    next_event id "ticket_escalated" "agent" actor_id
      (entry "from_status" (text (status_text s)) (
        entry "to_status" (text "escalated") (
          entry "policy" (text "ticket_lifecycle_v1") (
            entry "reason" (text reason)
              (entry "priority" (text (priority_text new_priority)) end)))))
      (record w { reads = suc (suc w.reads) })
