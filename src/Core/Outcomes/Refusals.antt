-- ===== src/Core/Outcomes/Refusals.antt =====
-- core/ticket_api.py: the errors of the operations, and what they leave.
use support_agent_platform.Shared.{
  ℕ, String, ◌<>◌, ◌≡◌, refl, sym, ap, ◌∙◌, ◌≢◌, inl, inr, false, Option, none, some, List, [], ◌∷◌,
  arith, Bool-cases, test_of_ne, Dict, Error, err, value_error, runtime_error,
}
use support_agent_platform.Storage.Models.{
  parse_status, Status, Priority, Stage, parse_priority, status_text,
}
use support_agent_platform.Storage.World.{World, Row}
use support_agent_platform.Storage.Columns.{Update, unknown_fields, set_columns, status_update}
use support_agent_platform.Storage.Repository
use support_agent_platform.Storage.Repository.{
  typed_row, row_to_ticket, find_row, update_rows, get_ticket, found_ticket, reload_ticket,
  write_columns, reject_unknown,
}
use support_agent_platform.Storage.Literals.{IsReadable}
use support_agent_platform.Storage.Rows.{find_row-update_self, ticket_id-set_columns}
use support_agent_platform.Core.TicketApi.{
  require_ticket, ensure_not_closed, same_status, allowed, assert_transition_allowed,
  transition_status, update_ticket, merge_metadata, route_update, plain_update,
}
use support_agent_platform.Core.TicketActions.{
  Closing, assign_ticket, resolve_ticket, escalate_ticket, close_ticket, merge_ticket_metadata,
}
use support_agent_platform.Core.Outcomes.{
  require_ticket-IsReadable, normalize_status-status_text, updated_row, updated_world,
}
use support_agent_platform.Core.Lifecycle.{Edge, allowed-Edge}
use support_agent_platform.Storage.Literals.{parse_status-status_text}
use mathlib.Core.Option.{some-injective}
use support_agent_platform.Core.Outcomes.Rows.{same_status-closed}

require_ticket_of_unreadable :
    (id : String) (w : World) (r : Row) (e : Error)
    → find_row id w.tickets ≡ some r
    → row_to_ticket r ≡ err e
    → require_ticket id w ≡ (err e, w)
unfolding require_ticket get_ticket found_ticket
require_ticket_of_unreadable id w r e found unreadable = ground arith

other_status : (s t : Status) → s ≢ t → same_status t s ≡ false
unfolding same_status
other_status s t ne = test_of_ne (status_text t) (status_text s) λ e. ne (
    some-injective s t
      (sym (parse_status-status_text s) ∙ ap parse_status (sym e) ∙ parse_status-status_text t))

not_allowed : (s t : Status) → ¬ Edge s t → allowed s t ≡ false
not_allowed s t no_edge = elim (Bool-cases (allowed s t)) [
  | inl e ↦ absurd (no_edge ((allowed-Edge s t).0 e))
  | inr e ↦ e
]

module _ (id : String) (w : World) (r : Row) (found : find_row id w.tickets ≡ some r) where
  -- Six operations on a closed ticket that can be read raise the same error, and change nothing: the
  -- update, the assignment, the resolution, the escalation, the closure and the merge of metadata.
  pub closed_refuses :
      (p : Priority) (l : Stage) (us : List Update) (assignee actor_id note reason : String)
      (code : Option String) (priority : Priority) (c : Closing) (patch : Dict)
      → IsReadable r p Status.closed l
      → let e = runtime_error ("Ticket " <> r.ticket_id <> " is already closed") in
        (update_ticket id us actor_id w ≡ (err e, w))
        × ((assign_ticket id assignee actor_id w ≡ (err e, w))
            × ((resolve_ticket id actor_id note code w ≡ (err e, w))
                × ((escalate_ticket id actor_id reason priority w ≡ (err e, w))
                    × ((close_ticket id actor_id note c w ≡ (err e, w))
                        × (merge_ticket_metadata id patch actor_id w ≡ (err e, w))))))
  unfolding update_ticket assign_ticket resolve_ticket escalate_ticket close_ticket
      merge_ticket_metadata ensure_not_closed same_status status_text typed_row
  closed_refuses p l us assignee actor_id note reason code priority c patch readable =
      let e = require_ticket-IsReadable id w r found p Status.closed l readable in
      (rw e refl, (rw e refl, (rw e refl, (rw e refl, (rw e refl, rw e refl)))))

  pub closed_update_refused :
      (p : Priority) (l : Stage) (us : List Update) (actor_id : String)
      → IsReadable r p Status.closed l
      → update_ticket id us actor_id w
        ≡ (err (runtime_error ("Ticket " <> r.ticket_id <> " is already closed")), w)
  unfolding update_ticket ensure_not_closed same_status status_text typed_row
  closed_update_refused p l us actor_id readable =
      rw (require_ticket-IsReadable id w r found p Status.closed l readable) refl

  -- A move that is no edge of the lifecycle is refused by the common end of assignment, resolution,
  -- escalation, closure and updates of the status, on any ticket that can be read, whatever else it
  -- would write: the error names the two statuses, and nothing is written.
  pub transition_status_of_no_edge :
      (p : Priority) (s t : Status) (l : Stage) (actor_id event_type : String) (extra : List Update)
      (payload : Dict)
      → IsReadable r p s l
      → s ≢ t
      → ¬ Edge s t
      → transition_status id (status_text t) actor_id event_type extra payload w ≡ (
        err (
            runtime_error (
              "Invalid lifecycle transition for "
              <> id
              <> ": "
              <> status_text s
              <> " -> "
              <> status_text t)),
        w,
      )
  unfolding transition_status assert_transition_allowed typed_row
  transition_status_of_no_edge p s t l actor_id event_type extra payload readable moves no_edge =
      rw
        (
          require_ticket-IsReadable id w r found p s l readable,
          normalize_status-status_text t,
          other_status s t moves,
          not_allowed s t no_edge,
        )
        refl

  -- The row with the text of a priority.
  abbrev spoiled_world : String → World
  spoiled_world value = updated_world id (Update.priority value ∷ []) w

  row_to_ticket-spoiled :
      (value : String) (time : ℕ)
      → parse_priority value ≡ none
      → row_to_ticket (record r { priority = value; updated_at = time })
        ≡ err (value_error ("Invalid priority in DB: " <> value))
  unfolding row_to_ticket
  row_to_ticket-spoiled value time bad = ground arith

  spoils :
      (p : Priority) (s : Status) (l : Stage) (value actor_id : String)
      → IsReadable r p s l
      → s ≢ Status.closed
      → parse_priority value ≡ none
      → update_ticket id (Update.priority value ∷ []) actor_id w
        ≡ (err (value_error ("Invalid priority in DB: " <> value)), spoiled_world value)
  unfolding update_ticket merge_metadata status_update route_update plain_update ensure_not_closed
      typed_row Repository.update_ticket reject_unknown unknown_fields write_columns reload_ticket
      set_columns find_row update_rows
  spoils p s l value actor_id readable not_closed bad =
      rw
        (
          require_ticket-IsReadable id w r found p s l readable,
          same_status-closed s not_closed,
          found,
          find_row-update_self (updated_row (Update.priority value ∷ []) w)
              (λ q. ticket_id-set_columns (Update.priority value ∷ []) q) id w.tickets r found,
          row_to_ticket-spoiled value (w.clock w.reads) bad,
        )
        refl

  -- An update of nothing but the priority, by a text that is no literal, of a ticket that can be read
  -- and is not closed, raises when it reads the ticket back; but the text is in the row then, and the
  -- next read of the ticket raises the same error.
  pub update_ticket_of_bad_priority :
      (p : Priority) (s : Status) (l : Stage) (value actor_id : String)
      → IsReadable r p s l
      → s ≢ Status.closed
      → parse_priority value ≡ none
      → let (outcome, v) = update_ticket id (Update.priority value ∷ []) actor_id w in
        let e = value_error ("Invalid priority in DB: " <> value) in
        (outcome ≡ err e)
        × ((find_row id v.tickets
              ≡ some (record r { priority = value; updated_at = w.clock w.reads }))
            × (require_ticket id v ≡ (err e, v)))
  unfolding set_columns
  update_ticket_of_bad_priority p s l value actor_id readable not_closed bad =
      let run = spoils p s l value actor_id readable not_closed bad in
      let stays =
        find_row-update_self (updated_row (Update.priority value ∷ []) w)
          (λ q. ticket_id-set_columns (Update.priority value ∷ []) q) id w.tickets r found in
      rw run (
        refl,
        (
          stays,
          require_ticket_of_unreadable id (spoiled_world value) _ _ stays
              (row_to_ticket-spoiled value (w.clock w.reads) bad),
        ),
      )
