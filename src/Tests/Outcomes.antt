-- ===== src/Tests/Outcomes.antt =====
-- Operations of the ticket API on one open ticket.
use support_agent_platform.Shared.{
  suc, ◌<>◌, ◌≡◌, refl, ◌≢◌, false≢true, none, some, [], ◌∷◌, ne_of_test, end, err, value_error,
  runtime_error,
}
use support_agent_platform.Shared.Text.{prefix}
use support_agent_platform.Storage.Models.{
  status_text, Status, Stage, parse_status, parse_priority, parse_stage, opened, pending, escalated,
  intake, classified, awaiting_human, p1, p3,
}
use support_agent_platform.Storage.World.{World, Row}
use support_agent_platform.Storage.Times.{is_read}
use support_agent_platform.Storage.Repository.{typed_row, find_row}
use support_agent_platform.Storage.EventLog.{event_id_of, find_event}
use support_agent_platform.Storage.Literals.{IsReadable}
use support_agent_platform.Core.TicketActions.{
  Closing, merge_ticket_metadata, assign_ticket, resolve_ticket, escalate_ticket, close_ticket,
}
use support_agent_platform.Core.TicketApi.{update_ticket, require_ticket}
use support_agent_platform.Core.Outcomes.{Moved, IsFresh}
use support_agent_platform.Core.Outcomes.Rows.{
  assigned_row, assignment_event, escalated_row, escalation_event, resolution_event,
}
use support_agent_platform.Core.Outcomes.Actions.{assign_ticket-Moved, escalate_ticket-Moved}
use support_agent_platform.Core.Outcomes.ClosedRow.{closed_row, closure_event}
use support_agent_platform.Core.Outcomes.Closing.{
  AreFresh, resolved_world, resolved_first, close_ticket_of_active,
}
use support_agent_platform.Core.Outcomes.Refusals.{closed_refuses, update_ticket_of_bad_priority}
use support_agent_platform.Storage.Columns.{Update}
use support_agent_platform.Core.Lifecycle.{Edge, allowed-Edge}
use support_agent_platform.Core.TicketApi.{allowed, transition_status}
use support_agent_platform.Core.Outcomes.Refusals.{transition_status_of_no_edge}
use support_agent_platform.Tests.Stores.{with_open, open_row}

found : find_row "TCK-1" with_open.tickets ≡ some open_row
unfolding find_row
found = refl

readable : IsReadable open_row p3 opened intake
unfolding parse_priority parse_status parse_stage is_read
readable = record { priority = refl; status = refl; stage = refl; times = refl }

fresh : IsFresh with_open
unfolding find_event
fresh = refl

not_closed : opened ≢ Status.closed
not_closed = cc

not_resolved : opened ≢ Status.resolved
not_resolved = cc

assign_ticket-Moved_example :
    Moved "TCK-1" with_open
      (assigned_row with_open open_row "ann")
      (typed_row (assigned_row with_open open_row "ann") p3 pending classified)
      (assignment_event "TCK-1" with_open open_row opened "ann" "bob" ∷ [])
      (assign_ticket "TCK-1" "ann" "bob" with_open)
assign_ticket-Moved_example =
    assign_ticket-Moved "TCK-1" with_open open_row found p3 opened intake readable fresh not_closed
      "ann" "bob"

escalate_ticket-Moved_example :
    Moved "TCK-1" with_open
      (escalated_row with_open open_row p1)
      (typed_row (escalated_row with_open open_row p1) p1 escalated awaiting_human)
      (escalation_event "TCK-1" with_open open_row opened "bob" "angry" p1 ∷ [])
      (escalate_ticket "TCK-1" "bob" "angry" p1 with_open)
escalate_ticket-Moved_example =
    escalate_ticket-Moved "TCK-1" with_open open_row found p3 opened intake readable fresh
      not_closed "bob" "angry" p1 not_resolved

fresh_ids : AreFresh with_open
unfolding find_event event_id_of prefix
fresh_ids = record { first_id = fresh; second_id = refl; differ = ne_of_test _ _ refl }

abbrev closing : Closing
closing = record {
  close_reason = none;
  resolution_code = none;
  handoff_state = none;
  metadata = none;
}

abbrev between : World
between = resolved_world "TCK-1" "bob" "done" closing with_open open_row found p3 intake

abbrev closed_after : Row
closed_after =
    closed_row "done" closing (between.clock between.reads) (between.clock (suc between.reads))
      (resolved_first "TCK-1" "bob" "done" closing with_open open_row found p3 intake)

close_ticket_of_active_example :
    Moved "TCK-1" with_open closed_after
      (typed_row closed_after p3 Status.closed Stage.closed)
      (resolution_event "TCK-1" with_open open_row opened "bob" "done" none
        ∷ closure_event "TCK-1" "bob" "done" closing
            (record between { reads = suc (suc between.reads) })
        ∷ [])
      (close_ticket "TCK-1" "bob" "done" closing with_open)
close_ticket_of_active_example =
    close_ticket_of_active "TCK-1" "bob" "done" closing with_open open_row found p3 intake opened
      readable fresh_ids not_closed not_resolved

abbrev closed_ticket : Row
closed_ticket = record open_row { status = "closed" }

abbrev with_closed : World
with_closed = record with_open { tickets = closed_ticket ∷ [] }

found_closed : find_row "TCK-1" with_closed.tickets ≡ some closed_ticket
unfolding find_row
found_closed = refl

IsReadable-closed_ticket : IsReadable closed_ticket p3 Status.closed intake
unfolding parse_priority parse_status parse_stage is_read
IsReadable-closed_ticket = record { priority = refl; status = refl; stage = refl; times = refl }

closed_refuses_example :
    let e = runtime_error "Ticket TCK-1 is already closed" in
    (update_ticket "TCK-1" (Update.title "x" ∷ []) "bob" with_closed ≡ (err e, with_closed))
    × ((assign_ticket "TCK-1" "ann" "bob" with_closed ≡ (err e, with_closed))
        × ((resolve_ticket "TCK-1" "bob" "done" none with_closed ≡ (err e, with_closed))
            × ((escalate_ticket "TCK-1" "bob" "angry" p1 with_closed ≡ (err e, with_closed))
                × ((close_ticket "TCK-1" "bob" "done" closing with_closed ≡ (err e, with_closed))
                    × (merge_ticket_metadata "TCK-1" end "bob" with_closed
                        ≡ (err e, with_closed))))))
closed_refuses_example =
    closed_refuses "TCK-1" with_closed closed_ticket found_closed p3 intake (Update.title "x" ∷ [])
      "ann" "bob" "done" "angry" none p1 closing end IsReadable-closed_ticket

abbrev spoiled : Row
spoiled = record open_row { priority = "urgent"; updated_at = 100 }

update_ticket_of_bad_priority_example :
    let (outcome, v) = update_ticket "TCK-1" (Update.priority "urgent" ∷ []) "bob" with_open in
    let e = value_error "Invalid priority in DB: urgent" in
    (outcome ≡ err e)
    × ((find_row "TCK-1" v.tickets ≡ some spoiled) × (require_ticket "TCK-1" v ≡ (err e, v)))
unfolding parse_priority
update_ticket_of_bad_priority_example =
    update_ticket_of_bad_priority "TCK-1" with_open open_row found p3 opened intake "urgent" "bob"
      readable not_closed refl

abbrev resolved_ticket : Row
resolved_ticket = record open_row { status = "resolved" }

abbrev with_resolved : World
with_resolved = record with_open { tickets = resolved_ticket ∷ [] }

found_resolved : find_row "TCK-1" with_resolved.tickets ≡ some resolved_ticket
unfolding find_row
found_resolved = refl

IsReadable-resolved_ticket : IsReadable resolved_ticket p3 Status.resolved intake
unfolding parse_priority parse_status parse_stage is_read
IsReadable-resolved_ticket = record { priority = refl; status = refl; stage = refl; times = refl }

no_edge : ¬ Edge Status.resolved escalated
unfolding allowed
no_edge e = absurd (false≢true ((allowed-Edge Status.resolved escalated).1 e))

transition_status_of_no_edge_example :
    transition_status "TCK-1" (status_text escalated) "bob" "ticket_escalated" [] end with_resolved
    ≡ (
      err (
          runtime_error (
            "Invalid lifecycle transition for "
            <> "TCK-1"
            <> ": "
            <> status_text Status.resolved
            <> " -> "
            <> status_text escalated)),
      with_resolved,
    )
transition_status_of_no_edge_example =
    transition_status_of_no_edge "TCK-1" with_resolved resolved_ticket found_resolved p3
      Status.resolved escalated intake "bob" "ticket_escalated" [] end IsReadable-resolved_ticket
      (λ e. cc) no_edge
