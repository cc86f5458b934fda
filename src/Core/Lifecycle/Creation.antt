-- ===== src/Core/Lifecycle/Creation.antt =====
-- The creation of a ticket, by the repository and by core/ticket_api.py, as a change of the table.
use support_agent_platform.Shared.{
  String, ◌≡◌, refl, Bool, true, false, Option, none, some, arith, ◌==◌, if◌then◌else◌, Dict, pure,
}
use support_agent_platform.Storage.Models.{status_text, opened}
use support_agent_platform.Storage.World.{World, Row}
use support_agent_platform.Storage.Repository
use support_agent_platform.Storage.Repository.{
  find_row, row_to_ticket, get_ticket, insert_ticket, choose_id, reload_ticket, Draft, source_or,
}
use support_agent_platform.Storage.Rows.{find_row-append}
use support_agent_platform.Openclaw.SessionMapper.{get_or_create, set_ticket_id, upsert}
use support_agent_platform.Core.TicketActions.{
  create_ticket, draft_of, bind_session_ticket, NewTicket,
}
use support_agent_platform.Core.Lifecycle.{
  stay, Evolves, Evolves-same, Keeps, Keeps-bind, RowEvolves, RowEvolves-refl,
}
use support_agent_platform.Core.Lifecycle.Actions.{Keeps-frame}
use support_agent_platform.Core.Lifecycle.Programs.{program_rules}

-- The session mapper changes no ticket.
tickets-get_or_create :
    (session_id : String) (metadata : Dict) (w : World)
    → (get_or_create session_id metadata w).1.tickets ≡ w.tickets
unfolding get_or_create upsert
tickets-get_or_create session_id metadata w = ground arith

pub tickets-set_ticket_id :
    (session_id id : String) (metadata : Dict) (w : World)
    → (set_ticket_id session_id id metadata w).1.tickets ≡ w.tickets
unfolding set_ticket_id upsert
tickets-set_ticket_id session_id id metadata w =
    ground (arith, tickets-get_or_create session_id metadata w)

pub bind_session_ticket-Keeps :
    (mapped : Bool) (session_id id : String) (metadata : Dict)
    → Keeps (bind_session_ticket mapped session_id id metadata)
unfolding bind_session_ticket
bind_session_ticket-Keeps false session_id id metadata = Keeps-frame _ (λ w. refl)
bind_session_ticket-Keeps true session_id id metadata =
    Keeps-bind (set_ticket_id session_id id metadata) (λ _. pure tt)
      (Keeps-frame _ (tickets-set_ticket_id session_id id metadata))
      (λ _. Keeps-frame _ (λ w. refl))

insert_ticket-Evolves :
    (r : Row) (w : World) → r.status ≡ status_text opened → Evolves w (insert_ticket r w).1
unfolding insert_ticket
insert_ticket-Evolves r w starts = by_row (find_row r.ticket_id w.tickets) refl
  where
    at_row :
        (j : String) (o : Option Row) (b : Bool)
        → RowEvolves o (elim o [ none ↦ if b then some r else none | some q ↦ some q ])
    at_row j none true = rw starts stay
    at_row j none false = tt
    at_row j (some q) b = RowEvolves-refl (some q)

    by_row : (o : Option Row) → find_row r.ticket_id w.tickets ≡ o → Evolves w (insert_ticket r w).1
    by_row (some q) h = Evolves-same (ground arith)
    by_row none h = record {
      at = λ j.
          rw (h, insert_ticket, find_row-append)
            (at_row j (find_row j w.tickets) (r.ticket_id == j));
    }

choose_id-Keeps : (o : Option String) → Keeps (choose_id o)
unfolding choose_id
choose_id-Keeps none = Keeps-frame _ (λ w. refl)
choose_id-Keeps (some id) = Keeps-frame _ (λ w. ground arith)

insert_ticket-Keeps : (r : Row) → r.status ≡ status_text opened → Keeps (insert_ticket r)
insert_ticket-Keeps r starts = record { at = λ w. insert_ticket-Evolves r w starts }

reload_ticket-Keeps : (message id : String) → Keeps (reload_ticket message id)
unfolding reload_ticket
reload_ticket-Keeps message id = Keeps-frame _ (λ w. ground arith)

create-Keeps : (d : Draft) → d.row.status ≡ status_text opened → Keeps (Repository.create_ticket d)
unfolding Repository.create_ticket
create-Keeps d starts =
    search (program_rules, choose_id-Keeps, insert_ticket-Keeps, reload_ticket-Keeps)

-- A new ticket starts open, and no other ticket changes.
pub create_ticket-Keeps : (mapped : Bool) (n : NewTicket) → Keeps (create_ticket mapped n)
unfolding create_ticket draft_of
create_ticket-Keeps mapped n =
    Keeps-bind (Repository.create_ticket (draft_of n)) _ (create-Keeps (draft_of n) refl)
      λ t. search (program_rules, bind_session_ticket-Keeps)
