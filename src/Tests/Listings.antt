-- ===== src/Tests/Listings.antt =====
-- A listing and a closure after some calls of the ticket API.
use support_agent_platform.Shared.{◌≡◌, refl, ◌≢◌, none, some, List, [], ◌∷◌, ne_of_test, get, ok}
use support_agent_platform.Shared.Elements.{All}
use support_agent_platform.Storage.Models.{
  moment, Ticket, Status, p1, p3, opened, intake, parse_priority, parse_status, parse_stage,
  priority_text,
}
use support_agent_platform.Storage.World.{World, Row}
use support_agent_platform.Storage.Columns.{Update}
use support_agent_platform.Core.TicketActions.{Closing, escalate_ticket, list_tickets, close_ticket}
use support_agent_platform.Core.Typed.{IsTyped}
use support_agent_platform.Core.Typed.Listing.{Reaches, list_tickets_of_reached}
use support_agent_platform.Core.TicketApi.{
  require_ticket, ensure_not_closed, route_update, merge_metadata, plain_update,
  assert_transition_allowed, normalize_status, transition_payload, transition_status,
  transition_updates, update_ticket,
}
use support_agent_platform.Storage.Times.{is_read}
use support_agent_platform.Storage.Repository.{
  row_to_ticket, typed_row, reject_unknown, write_columns, reload_ticket, update_rows, find_row,
}
use support_agent_platform.Storage.Columns.{status_update, unknown_fields}
use support_agent_platform.Storage.EventLog.{
  append_event, event_id_of, find_event, find_event_by_idempotency_key, insert_event, store_event,
}
use support_agent_platform.Tests.Stores.{with_open, open_row}
use support_agent_platform.Storage.Repository
use support_agent_platform.Core.Outcomes.Closing.{AreFresh}
use support_agent_platform.Core.Typed.Closable.{EndsClosed, close_ticket_of_reached}

-- An update of the priority, and an escalation.
abbrev reached : World
reached =
    (escalate_ticket "TCK-1" "bob" "angry" p1
      (update_ticket "TCK-1" (Update.priority "P3" ∷ []) "bob" with_open).1).1

reaches : Reaches with_open reached
unfolding parse_priority
reaches =
    Reaches.escalates "TCK-1" "bob" "angry" p1
      (Reaches.updates "TCK-1" (Update.priority "P3" ∷ []) "bob" Reaches.here ((p3, refl), tt))

typed : All IsTyped with_open.tickets
unfolding parse_priority parse_status parse_stage is_read
typed = (
  record { priority = (p3, refl); status = (opened, refl); stage = (intake, refl); times = refl },
  tt,
)

list_tickets_of_reached_example :
    (ts : List Ticket) × (list_tickets none (some "support") none 100 reached ≡ (ok ts, reached))
list_tickets_of_reached_example =
    list_tickets_of_reached none (some "support") none 100 reaches typed

-- The row of the ticket after both calls.
abbrev reached_row : Row
reached_row = record open_row {
  priority = "P1";
  status = "escalated";
  lifecycle_stage = "awaiting_human";
  escalated_at = some (moment 102);
  handoff_state = "requested";
  risk_level = "high";
  last_agent_action = some "escalate";
  updated_at = 103;
}

-- The row is found, and the next identifiers are new.
after_both : (find_row "TCK-1" reached.tickets ≡ some reached_row) × AreFresh reached
unfolding find_row escalate_ticket update_ticket require_ticket row_to_ticket parse_priority
    parse_stage ensure_not_closed typed_row route_update status_update merge_metadata plain_update
    Repository.update_ticket reject_unknown unknown_fields write_columns reload_ticket update_rows
    assert_transition_allowed normalize_status transition_payload transition_status
    transition_updates get append_event event_id_of find_event find_event_by_idempotency_key
    insert_event store_event priority_text
after_both = (refl, record { first_id = refl; second_id = refl; differ = ne_of_test _ _ refl })

still_open : parse_status reached_row.status ≢ some Status.closed
unfolding parse_status
still_open = λ e. cc

abbrev plain : Closing
plain = record {
  close_reason = none;
  resolution_code = none;
  handoff_state = none;
  metadata = none;
}

close_ticket_of_reached_example :
    EndsClosed "TCK-1" (close_ticket "TCK-1" "bob" "done" plain reached)
close_ticket_of_reached_example =
    close_ticket_of_reached "TCK-1" "bob" "done" plain reached_row reaches typed after_both.1
      after_both.0 still_open
