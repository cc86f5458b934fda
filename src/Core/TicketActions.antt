-- ===== src/Core/TicketActions.antt =====
-- core/ticket_api.py: the actions on a ticket and the creation of one.
use support_agent_platform.Shared.{
  ℕ, String, ◌<>◌, Bool, true, false, not, Option, none, some, List, [], ◌∷◌, ◌++◌, ◌==◌,
  if◌then◌else◌, Dict, text, obj, end, entry, get, ok, Exec, pure, gets, ◌>>=◌, ◌>>◌,
}
use support_agent_platform.Shared.Str.{str_or, of_option}
use support_agent_platform.Storage.Models.{
  moment, Ticket, Status, Stage, Priority, opened, status_text, stage_text, priority_text,
  classified, awaiting_human, intake, TicketEvent,
}
use support_agent_platform.Storage.World.{World, now}
use support_agent_platform.Storage.Columns.{Update}
use support_agent_platform.Storage.Repository
use support_agent_platform.Storage.Repository.{get_ticket, Draft}
use support_agent_platform.Storage.EventLog
use support_agent_platform.Storage.EventLog.{append_event}
use support_agent_platform.Openclaw.SessionMapper
use support_agent_platform.Core.TicketJson.{ticket_json}
use support_agent_platform.Core.TicketApi.{
  same_status, ensure_not_closed, require_ticket, transition_status, update_ticket,
}

-- `bool(ticket.assignee)`.
abbrev pub is_assigned : Option String → Bool
is_assigned none = false
is_assigned (some s) = not (s == "")

unfoldable pub assign_ticket : String → String → String → Exec World Ticket
assign_ticket id assignee actor_id = do
  current ← require_ticket id
  ensure_not_closed current
  transition_status id "pending" actor_id
      (if is_assigned current.assignee then "ticket_reassigned" else "ticket_assigned")
      (Update.assignee (some assignee)
        ∷ Update.lifecycle_stage (stage_text classified)
        ∷ Update.last_agent_action (some ("assign:" <> assignee))
        ∷ [])
      (entry "assignee" (text assignee) end)

-- The columns that a resolution writes.
unfoldable pub resolve_updates : String → Option String → ℕ → List Update
unfolding stage_text
resolve_updates note code time =
    Update.needs_handoff false
    ∷ Update.latest_message note
    ∷ Update.resolution_note (some note)
    ∷ Update.resolution_code code
    ∷ Update.resolved_at (some (moment time))
    ∷ Update.lifecycle_stage (stage_text Stage.resolved)
    ∷ Update.last_agent_action (some "resolve")
    ∷ []

unfoldable pub resolve_ticket : String → String → String → Option String → Exec World Ticket
resolve_ticket id actor_id note code = do
  current ← require_ticket id
  ensure_not_closed current
  time ← now
  transition_status id "resolved" actor_id "ticket_resolved" (resolve_updates note code time)
      (entry "resolution_note" (text note) (entry "resolution_code" (of_option code) end))

unfoldable pub escalate_ticket : String → String → String → Priority → Exec World Ticket
escalate_ticket id actor_id reason new_priority = do
  current ← require_ticket id
  ensure_not_closed current
  time ← now
  transition_status id "escalated" actor_id "ticket_escalated"
      (Update.priority (priority_text new_priority)
        ∷ Update.escalated_at (some (moment time))
        ∷ Update.lifecycle_stage (stage_text awaiting_human)
        ∷ Update.handoff_state "requested"
        ∷ Update.risk_level "high"
        ∷ Update.last_agent_action (some "escalate")
        ∷ [])
      (entry "reason" (text reason) (entry "priority" (text (priority_text new_priority)) end))

-- The optional arguments of `close_ticket`.
pub record Closing : Type 0 where
  pub close_reason : Option String
  pub resolution_code : Option String
  pub handoff_state : Option String
  pub metadata : Option Dict

-- `close_reason or "agent_close"`.
abbrev pub reason_or_default : Option String → String
reason_or_default none = "agent_close"
reason_or_default (some s) = if s == "" then "agent_close" else s

unfoldable pub handoff_update : Option String → List Update
handoff_update none = []
handoff_update (some s) = Update.handoff_state s ∷ []

unfoldable pub metadata_update : Option Dict → List Update
metadata_update none = []
metadata_update (some d) = Update.metadata d ∷ []

-- The columns that a closure writes.
unfoldable pub close_updates : String → Closing → ℕ → List Update
unfolding stage_text handoff_update metadata_update
close_updates note c time =
    (Update.needs_handoff false
      ∷ Update.latest_message note
      ∷ Update.resolution_note (some note)
      ∷ Update.resolution_code c.resolution_code
      ∷ Update.close_reason (some (reason_or_default c.close_reason))
      ∷ Update.closed_at (some (moment time))
      ∷ Update.lifecycle_stage (stage_text Stage.closed)
      ∷ Update.last_agent_action (some "close")
      ∷ [])
    ++ (handoff_update c.handoff_state ++ metadata_update c.metadata)

-- The resolution that comes before the closure of a ticket that is not resolved.
unfoldable pub resolve_first : Status → String → String → String → Option String → Exec World Unit
resolve_first status id actor_id note code w =
    let resolution = (do resolve_ticket id actor_id note code; pure tt) in
    if same_status status Status.resolved then (ok tt, w) else resolution w

unfoldable pub close_ticket : String → String → String → Closing → Exec World Ticket
close_ticket id actor_id note c = do
  current ← require_ticket id
  ensure_not_closed current
  resolve_first current.status id actor_id note c.resolution_code
  time ← now
  transition_status id "closed" actor_id "ticket_closed" (close_updates note c time) (
      entry "resolution_note" (text note) (
        entry "resolution_code" (of_option c.resolution_code)
          (entry "close_reason" (text (reason_or_default c.close_reason)) end)))

-- The arguments of `create_ticket`; metadata that is None is an empty dict.
pub record NewTicket : Type 0 where
  pub channel : String
  pub session_id : String
  pub thread_id : String
  pub title : String
  pub latest_message : String
  pub intent : String
  pub priority : String
  pub queue : String
  pub customer_id : Option String
  pub assignee : Option String
  pub risk_level : String
  pub inbox : Option String
  pub metadata : Dict

-- `inbox or str((metadata or {}).get("inbox") or channel)`.
unfoldable pub normalized_inbox : NewTicket → String
unfolding str_or
normalized_inbox n =
    let derived = str_or (get "inbox" n.metadata) n.channel in
    elim n.inbox [ none ↦ derived | some s ↦ if s == "" then derived else s ]

-- The arguments of the repository's `create_ticket`, its defaults filled in; it sets the empty
-- identifier, source and times itself.
unfoldable pub draft_of : NewTicket → Draft
unfolding status_text stage_text normalized_inbox
draft_of n = record {
  row = record {
    ticket_id = "";
    channel = n.channel;
    session_id = n.session_id;
    thread_id = n.thread_id;
    customer_id = n.customer_id;
    title = n.title;
    latest_message = n.latest_message;
    intent = n.intent;
    priority = n.priority;
    status = status_text opened;
    queue = n.queue;
    assignee = n.assignee;
    needs_handoff = false;
    inbox = normalized_inbox n;
    lifecycle_stage = stage_text intake;
    first_response_due_at = none;
    resolution_due_at = none;
    escalated_at = none;
    resolved_at = none;
    closed_at = none;
    resolution_note = none;
    resolution_code = none;
    close_reason = none;
    source_channel = "";
    handoff_state = "none";
    last_agent_action = none;
    risk_level = n.risk_level;
    metadata = n.metadata;
    created_at = 0;
    updated_at = 0;
  };
  draft_id = none;
  draft_source = some n.channel;
}

-- `bind_session_ticket`: nothing without a session mapper.
unfoldable pub bind_session_ticket : Bool → String → String → Dict → Exec World Unit
bind_session_ticket false session_id id metadata = pure tt
bind_session_ticket true session_id id metadata = do
  SessionMapper.set_ticket_id session_id id metadata
  pure tt

unfoldable pub create_ticket : Bool → NewTicket → Exec World Ticket
create_ticket mapped n = do
  ticket ← Repository.create_ticket (draft_of n)
  iso ← gets (λ (w : World). w.isoformat)
  append_event ticket.ticket_id "ticket_created" "system" "ticket-api" (
      entry "snapshot" (obj (ticket_json iso ticket)) (
        entry "policy" (text "ticket_lifecycle_v1")
          (entry "inbox" (text (normalized_inbox n)) end)))
  bind_session_ticket mapped n.session_id ticket.ticket_id n.metadata
  pure ticket

-- `merge_ticket_metadata`.
unfoldable pub merge_ticket_metadata : String → Dict → String → Exec World Ticket
merge_ticket_metadata id patch actor_id = update_ticket id (Update.metadata patch ∷ []) actor_id

-- `add_event`, which takes any event type and payload.
unfoldable pub add_event : String → String → String → String → Dict → Exec World TicketEvent
add_event id event_type actor_type actor_id payload =
    append_event id event_type actor_type actor_id payload

-- `list_tickets` and `list_all_tickets`.
unfoldable pub list_tickets :
    Option String → Option String → Option String → ℕ → Exec World (List Ticket)
list_tickets status queue assignee limit = Repository.list_tickets status queue assignee limit 0

unfoldable pub list_events : String → Exec World (List TicketEvent)
list_events id = EventLog.list_events id 200
