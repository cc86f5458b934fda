-- ===== src/Core/Typed/Closable.antt =====
-- core/ticket_api.py: `close_ticket` after other calls of the ticket API.
use support_agent_platform.Shared.{
  String, ◌≡◌, refl, ap, subst, ◌∙◌, ◌≢◌, ◌⊎◌, inl, inr, some, List, [], ◌∷◌, arith, ◌==◌,
  Bool-cases, Result, ok,
}
use support_agent_platform.Shared.Elements.{All}
use support_agent_platform.Storage.Models.{
  Ticket, TicketEvent, Priority, Status, Stage, parse_status,
}
use support_agent_platform.Storage.World.{World, Row}
use support_agent_platform.Storage.Repository.{find_row, typed_row}
use support_agent_platform.Storage.Literals.{IsReadable}
use support_agent_platform.Core.TicketActions.{Closing, close_ticket}
use support_agent_platform.Core.Outcomes.{Moved}
use support_agent_platform.Core.Outcomes.Closing.{
  AreFresh, close_ticket_of_resolved, close_ticket_of_active,
}
use support_agent_platform.Core.Typed.{IsTyped}
use support_agent_platform.Core.Typed.Listing.{Reaches, Reaches-IsTyped}

-- A run that returns a closed ticket, and leaves its row closed.
pub record EndsClosed (id : String) (out : Result Ticket × World) : Type 0 where
  pub ticket : Ticket
  pub returned : out.0 ≡ ok ticket
  pub is_closed : ticket.status ≡ Status.closed
  pub row : Row
  pub stored : find_row id out.1.tickets ≡ some row
  pub row_status : row.status ≡ "closed"

IsTyped-found :
    (id : String) (rows : List Row) (r : Row)
    → All IsTyped rows
    → find_row id rows ≡ some r
    → IsTyped r
unfolding find_row
IsTyped-found id [] r h e = cc
IsTyped-found id (q ∷ rows) r h e = elim (Bool-cases (q.ticket_id == id)) [
  | inl t ↦ subst IsTyped (ground arith) h.0
  | inr t ↦ IsTyped-found id rows r h.1 (ground arith)
]

is_resolved : (s : Status) → (s ≡ Status.resolved) ⊎ (s ≢ Status.resolved)
is_resolved Status.resolved = inl refl
is_resolved _ = inr λ e. cc

module _ (id actor_id note : String) (c : Closing) (v : World) where
  EndsClosed-Moved :
      (after : Row) (t : Ticket) (logged : List TicketEvent)
      → t.status ≡ Status.closed
      → after.status ≡ "closed"
      → Moved id v after t logged (close_ticket id actor_id note c v)
      → EndsClosed id (close_ticket id actor_id note c v)
  EndsClosed-Moved after t logged e f moved = record {
    ticket = t;
    returned = moved.returned;
    is_closed = e;
    row = after;
    stored = moved.stored;
    row_status = f;
  }

  close_ticket_of_typed :
      (r : Row) (p : Priority) (s : Status) (l : Stage)
      → IsReadable r p s l
      → AreFresh v
      → find_row id v.tickets ≡ some r
      → s ≢ Status.closed
      → EndsClosed id (close_ticket id actor_id note c v)
  unfolding typed_row
  close_ticket_of_typed r p s l readable fresh found open_row = elim (is_resolved s) [
    | inl e ↦ EndsClosed-Moved _ _ _ refl refl (
        close_ticket_of_resolved id actor_id note c v r found p l
          (subst (λ q. IsReadable r p q l) e readable) fresh.first_id)
    | inr n ↦
        EndsClosed-Moved _ _ _ refl refl
          (close_ticket_of_active id actor_id note c v r found p l s readable fresh open_row n)
  ]

-- A ticket is never stuck: whatever calls of the ticket API were made, in any order and whether they
-- raised or not, if their priorities, statuses and stages are literals, the times that their updates
-- give are None, moments or texts that are read as a time, and the columns of the rows were so at the
-- start: each ticket in the table that is not closed can be closed by one call, with any note, actor
-- and options, when the next two identifiers of events are new and differ. The call returns the
-- ticket as closed, and its row is closed.
pub close_ticket_of_reached :
    {w v : World} (id actor_id note : String) (c : Closing) (r : Row)
    → Reaches w v
    → All IsTyped w.tickets
    → AreFresh v
    → find_row id v.tickets ≡ some r
    → parse_status r.status ≢ some Status.closed
    → EndsClosed id (close_ticket id actor_id note c v)
close_ticket_of_reached {v = v} id actor_id note c r reached h fresh found open_row =
    let typed = IsTyped-found id v.tickets r (Reaches-IsTyped reached h) found in
    let (p, priority) = typed.priority in
    let (s, status) = typed.status in
    let (l, stage) = typed.stage in
    close_ticket_of_typed id actor_id note c v r p s l
      (record { priority = priority; status = status; stage = stage; times = typed.times }) fresh
      found λ e. open_row (status ∙ ap some e)
