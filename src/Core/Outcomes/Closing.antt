-- ===== src/Core/Outcomes/Closing.antt =====
-- core/ticket_api.py: `close_ticket` on a ticket that can be read.
use support_agent_platform.Shared.{
  suc, String, ◌≡◌, refl, sym, ap, subst, ◌∙◌, ◌≢◌, false, none, some, List, [], ◌∷◌, ◌++◌, arith,
  test_of_ne, get, put, merge, Result, Exec, ◌>>=◌,
}
use support_agent_platform.Shared.Text.{strip}
use support_agent_platform.Shared.Str.{str_or}
use support_agent_platform.Storage.Models.{
  Ticket, TicketEvent, Status, Priority, Stage, status_text, parse_status, parse_stage,
  parse_priority,
}
use support_agent_platform.Storage.World.{World, Row, now}
use support_agent_platform.Storage.Columns.{Update, set_columns}
use support_agent_platform.Storage.Times.{reads_times}
use support_agent_platform.Storage.Repository.{typed_row, find_row, idempotency_key_of}
use support_agent_platform.Storage.EventLog.{find_event, event_id_of}
use support_agent_platform.Storage.Literals.{
  IsReadable, reads_times-closed_at, reads_times-resolved_at,
}
use support_agent_platform.Core.TicketApi.{
  ensure_not_closed, transition_status, transition_updates, transition_payload, allowed,
  same_status,
}
use support_agent_platform.Core.TicketActions.{
  Closing, close_updates, resolve_first, resolve_ticket, close_ticket,
}
use support_agent_platform.Core.Outcomes.{
  IsFresh, Moved, Moved-moved_world, Moved-now, Moved-then, require_ticket-IsReadable,
  transition_status-IsReadable,
}
use support_agent_platform.Core.Outcomes.Rows.{same_status-closed, resolved_row, resolution_event}
use support_agent_platform.Core.Outcomes.Actions.{resolve_ticket_lem, resolve_ticket-Moved}
use support_agent_platform.Core.Outcomes.ClosedRow.{
  closed_row, closure_payload, closure_event, set_columns-close, unknown_fields-close,
}

module _ (id actor_id note : String) (c : Closing) (v : World) (q : Row)
    (found : find_row id v.tickets ≡ some q) (p : Priority) (l : Stage)
    (readable : IsReadable q p Status.resolved l) (fresh : IsFresh v) where
  -- The end of `close_ticket`, on a ticket that is resolved.
  abbrev finish : Exec World Ticket
  finish = do
    time ← now
    transition_status id "closed" actor_id "ticket_closed" (close_updates note c time)
        (closure_payload note c)

  abbrev written : List Update
  written = transition_updates Status.closed l (close_updates note c (v.clock v.reads))

  abbrev after : Row
  after = closed_row note c (v.clock v.reads) (v.clock (suc v.reads)) q

  columns : record (set_columns written q) { updated_at = v.clock (suc v.reads) } ≡ after
  columns =
      ap (λ (r : Row). record r { updated_at = v.clock (suc v.reads) })
        (set_columns-close note c.close_reason c.resolution_code c.handoff_state c.metadata
          (v.clock v.reads) l q)

  IsReadable-columns : IsReadable (set_columns written q) p Status.closed Stage.closed
  unfolding parse_status parse_stage
  IsReadable-columns = record {
    priority = ap (λ (r : Row). parse_priority r.priority) columns ∙ readable.priority;
    status = ap (λ (r : Row). parse_status r.status) columns;
    stage = ap (λ (r : Row). parse_stage r.lifecycle_stage) columns;
    times =
        ap (λ (r : Row). reads_times r) columns
        ∙ reads_times-closed_at q (v.clock v.reads) readable.times;
  }

  abbrev later : World
  later = record v { reads = suc v.reads }

  finish-Moved :
      Moved id v after
        (typed_row after p Status.closed Stage.closed)
        (closure_event id actor_id note c (record v { reads = suc (suc v.reads) }) ∷ [])
        (finish v)
  unfolding transition_payload allowed same_status status_text merge get put idempotency_key_of
      str_or strip
  finish-Moved =
      subst
        (λ r.
          Moved id v r (typed_row r p Status.closed Stage.closed)
            (closure_event id actor_id note c (record v { reads = suc (suc v.reads) }) ∷ [])
            (finish v))
        columns
        (Moved-now (
          Moved-moved_world id written "ticket_closed" actor_id _ later q _ _ found (
            transition_status-IsReadable id later q found p Status.resolved l readable fresh
              Status.closed actor_id "ticket_closed" (close_updates note c (v.clock v.reads))
              (closure_payload note c) p Stage.closed refl
              (unknown_fields-close note c.close_reason c.resolution_code c.handoff_state c.metadata
                (v.clock v.reads) l)
              IsReadable-columns refl)))

find_event-append :
    (key : String) (es : List TicketEvent) (e : TicketEvent)
    → find_event key es ≡ none
    → e.event_id ≢ key
    → find_event key (es ++ e ∷ []) ≡ none
unfolding find_event
find_event-append key [] e h ne = rw (test_of_ne e.event_id key ne) refl
find_event-append key (x ∷ es) e h ne = ground (arith, find_event-append key es e)

-- The next two identifiers of events are new, and differ.
pub record AreFresh (w : World) : Type 0 where
  pub first_id : IsFresh w
  pub second_id : find_event (event_id_of (w.uuid (suc w.drawn))) w.events ≡ none
  pub differ : event_id_of (w.uuid w.drawn) ≢ event_id_of (w.uuid (suc w.drawn))

same_status-resolved : (s : Status) → s ≢ Status.resolved → same_status s Status.resolved ≡ false
unfolding same_status status_text
same_status-resolved Status.resolved h = absurd (h refl)
same_status-resolved Status.closed h = refl
same_status-resolved _ h = refl

module _ (id actor_id note : String) (c : Closing) (w : World) (r : Row)
    (found : find_row id w.tickets ≡ some r) (p : Priority) (l : Stage) where
  -- A ticket that is resolved is closed by one event.
  pub close_ticket_of_resolved :
      IsReadable r p Status.resolved l
      → IsFresh w
      → Moved id w
          (closed_row note c (w.clock w.reads) (w.clock (suc w.reads)) r)
          (typed_row
            (closed_row note c (w.clock w.reads) (w.clock (suc w.reads)) r)
            p
            Status.closed
            Stage.closed)
          (closure_event id actor_id note c (record w { reads = suc (suc w.reads) }) ∷ [])
          (close_ticket id actor_id note c w)
  unfolding close_ticket ensure_not_closed resolve_first same_status status_text typed_row
  close_ticket_of_resolved readable fresh =
      rw (require_ticket-IsReadable id w r found p Status.resolved l readable)
        (finish-Moved id actor_id note c w r found p l readable fresh)

  -- The world between the two transitions of an active ticket.
  abbrev pub resolved_world : World
  resolved_world = (resolve_ticket id actor_id note c.resolution_code w).1

  abbrev pub resolved_first : Row
  resolved_first = resolved_row w r note c.resolution_code

  -- A ticket that can be read and is neither closed nor resolved, when the next two identifiers of
  -- events are new and differ: its closure succeeds; it is resolved first, and closed from there with
  -- the reason, the code, and the handoff state and metadata where they are given; no other row
  -- changes, and the two transitions append one event each, in that order.
  pub close_ticket_of_active :
      (s : Status)
      → IsReadable r p s l
      → AreFresh w
      → s ≢ Status.closed
      → s ≢ Status.resolved
      → let v = resolved_world in
        let after = closed_row note c (v.clock v.reads) (v.clock (suc v.reads)) resolved_first in
        Moved id w after
          (typed_row after p Status.closed Stage.closed)
          (resolution_event id w r s actor_id note c.resolution_code
            ∷ closure_event id actor_id note c (record v { reads = suc (suc v.reads) })
            ∷ [])
          (close_ticket id actor_id note c w)
  unfolding close_ticket ensure_not_closed resolve_first typed_row parse_status parse_stage
  close_ticket_of_active s readable fresh not_closed not_resolved =
      let resolution =
        resolve_ticket-Moved id w r found p s l readable fresh.first_id not_closed actor_id note
          c.resolution_code in
      let run =
        resolve_ticket_lem id w r found p s l readable fresh.first_id not_closed actor_id note
          c.resolution_code in
      let v = resolved_world in
      let closure =
        finish-Moved id actor_id note c v resolved_first resolution.stored p Stage.resolved
          (record {
            priority = readable.priority;
            status = refl;
            stage = refl;
            times = reads_times-resolved_at r (w.clock w.reads) readable.times;
          })
          (subst (λ (out : Result Ticket × World). IsFresh out.1) (sym run)
            (find_event-append (event_id_of (w.uuid (suc w.drawn))) w.events _ fresh.second_id
              fresh.differ)) in
      rw
        (
          require_ticket-IsReadable id w r found p s l readable,
          same_status-closed s not_closed,
          same_status-resolved s not_resolved,
          resolution.returned,
        )
        (Moved-then resolution closure)
