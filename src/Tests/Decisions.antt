-- ===== src/Tests/Decisions.antt =====
-- Decisions on the one pending approval of an open ticket.
use support_agent_platform.Shared.{
  ◌≡◌, refl, ◌≢◌, none, some, [], ◌∷◌, end, put, has, IsKeyed, Result, ok, err, runtime_error,
}
use support_agent_platform.Shared.Sort.{sort_in}
use support_agent_platform.Shared.Text.{strip, prefix}
use support_agent_platform.Storage.Models.{
  Ticket, intake, p3, opened, Status, parse_priority, parse_status, parse_stage,
}
use support_agent_platform.Storage.World.{World, Row}
use support_agent_platform.Storage.Columns.{set_columns}
use support_agent_platform.Storage.Repository
use support_agent_platform.Storage.Times.{is_read}
use support_agent_platform.Storage.Repository.{
  typed_row, find_row, update_rows, row_to_ticket, rows_to_tickets, select_rows,
}
use support_agent_platform.Storage.EventLog.{find_event, event_id_of}
use support_agent_platform.Storage.Literals.{IsReadable}
use support_agent_platform.Core.TicketApi.{merge_metadata}
use support_agent_platform.Core.Outcomes.{require_ticket-IsReadable}
use support_agent_platform.Core.Outcomes.Updates.{FreshIds}
use support_agent_platform.Core.Hitl.PendingActions.{
  PendingAction, approval_status_text, replace_action, load_pending_actions, save_pending_actions,
  find_action,
}
use support_agent_platform.Core.Hitl.RoundTrip.{IsStorable, load_pending_actions-save}
use support_agent_platform.Core.Hitl.Timeouts.{
  next_handoff_state, approval_updates, last_expired, scan_tickets, get_pending_action,
}
use support_agent_platform.Core.Hitl.ApprovalRuntime.{
  ApprovalDecisionResult, mark_approved, mark_rejected,
}
use support_agent_platform.Core.Hitl.DecidedRows.{
  rejected_action, approved_action, rejected_row, approved_row,
}
use support_agent_platform.Core.Hitl.Verdicts.{
  mark_rejected-Decides, mark_rejected_lem, world_rejected,
}
use support_agent_platform.Core.Hitl.Final.{
  later, get_pending_action-first, second_decision_refused,
}
use support_agent_platform.Tests.Stores.{empty, open_row}
use support_agent_platform.Tests.Approvals.{action, storable}

abbrev held : Row
held = record open_row { metadata = save_pending_actions end (action ∷ []) }

abbrev ticket : Ticket
ticket = typed_row held p3 opened intake

abbrev world : World
world = record empty { tickets = held ∷ [] }

readable : IsReadable held p3 opened intake
unfolding parse_priority parse_status parse_stage is_read
readable = record { priority = refl; status = refl; stage = refl; times = refl }

not_closed : opened ≢ Status.closed
not_closed = cc

loads : (u : World) → load_pending_actions ticket u ≡ (ok (action ∷ []), u)
unfolding typed_row
loads u =
    load_pending_actions-save (typed_row open_row p3 opened intake) (action ∷ []) u (storable, tt)

found : (u : World) → u.tickets ≡ held ∷ [] → find_row "TCK-1" u.tickets ≡ some held
unfolding find_row
found u e = rw e refl

scanned : scan_tickets world ≡ (ok (ticket ∷ []), world)
unfolding scan_tickets Repository.list_tickets select_rows sort_in rows_to_tickets row_to_ticket
    parse_priority parse_status parse_stage
scanned = refl

got : get_pending_action "apr_1" world ≡ (ok (ticket, action), later world)
unfolding find_action last_expired typed_row
got =
    get_pending_action-first "apr_1" world ticket (action ∷ []) loads action refl refl
      (require_ticket-IsReadable "TCK-1" (later world) held (found (later world) refl) p3 opened
        intake readable)
      [] scanned

keyed : IsKeyed held.metadata
unfolding save_pending_actions put has
keyed = (refl, (refl, (refl, tt)))

fresh : FreshIds 3 world.uuid 0 []
unfolding find_event event_id_of prefix
fresh = (refl, λ e h. rw h (refl, λ f k. rw k (refl, λ g j. tt)))

fresh_two : FreshIds 2 world.uuid 0 []
fresh_two = (fresh.0, λ e h. ((fresh.1 e h).0, λ f k. tt))

abbrev rejected : PendingAction
rejected = rejected_action (later world) "ann" none action

abbrev rejected_held : Row
rejected_held = rejected_row (later world) held (action ∷ []) "apr_1" action rejected

rejected_storable : IsStorable rejected
unfolding strip
rejected_storable = record {
  approval_id = record { there = refl; stripped = refl };
  action_type = record { there = refl; stripped = refl };
  ticket_id = refl;
  risk_level = refl;
  requested_by = refl;
  requested_at = refl;
  timeout_at = refl;
  reason = refl;
  approved_by = tt;
  rejected_by = record { there = refl; stripped = refl };
  decided_at = record { there = refl; stripped = refl };
  decision_note = tt;
}

abbrev approved : PendingAction
approved = approved_action (later world) "ann" none action

abbrev approved_held : Row
approved_held = approved_row (later world) held ticket (action ∷ []) "apr_1" action approved

abbrev rejection : Result ApprovalDecisionResult × World
rejection = mark_rejected "apr_1" "ann" none world

run : rejection ≡ (
  ok (record { ticket = typed_row rejected_held p3 opened intake; pending_action = rejected }),
  world_rejected "apr_1" "ann" none world
      (later world)
      ticket
      action
      got
      refl
      (action ∷ [])
      loads
      (storable, tt)
      held
      p3
      opened
      intake
      (found (later world) refl)
      readable
      not_closed,
)
run =
    mark_rejected_lem "apr_1" "ann" none world (later world) ticket action got refl (action ∷ [])
      loads (storable, tt) held p3 opened intake (found (later world) refl) readable not_closed refl
      keyed fresh_two rejected_storable

scanned_after :
    scan_tickets rejection.1 ≡ (ok (typed_row rejected_held p3 opened intake ∷ []), rejection.1)
unfolding scan_tickets Repository.list_tickets select_rows sort_in rows_to_tickets row_to_ticket
    parse_priority parse_status parse_stage typed_row update_rows set_columns merge_metadata
    approval_updates next_handoff_state
scanned_after = rw run refl

unexpired_after :
    last_expired
      (later rejection.1)
      (rejection.1.clock rejection.1.reads)
      (replace_action (action ∷ []) "apr_1" rejected)
    ≡ none
unfolding last_expired replace_action
unexpired_after = refl

readable_after : IsReadable rejected_held p3 opened intake
unfolding parse_priority parse_status parse_stage is_read
readable_after = record { priority = refl; status = refl; stage = refl; times = refl }

second_decision_refused_example :
    let u = rejection.1 in
    let refusal : Result ApprovalDecisionResult × World =
      (err (runtime_error "approval apr_1 is already rejected"), later u) in
    (mark_approved "apr_1" "bob" ticket none u ≡ refusal)
    × (mark_rejected "apr_1" "bob" none u ≡ refusal)
unfolding approval_status_text
second_decision_refused_example =
    second_decision_refused
      (mark_rejected-Decides "apr_1" "ann" none world (later world) ticket action got refl
        (action ∷ []) loads (storable, tt) held p3 opened intake (found (later world) refl) readable
        not_closed refl keyed fresh_two rejected_storable)
      "bob" ticket none [] refl readable_after scanned_after unexpired_after
