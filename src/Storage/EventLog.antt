-- ===== src/Storage/EventLog.antt =====
-- storage/ticket_repository.py: the event log of `TicketRepository`.
use support_agent_platform.Shared.{
  ℕ, String, ◌<>◌, Bool, true, ◌&&◌, Option, none, some, List, [], ◌∷◌, ◌++◌, ◌==◌, leb,
  if◌then◌else◌, take, select, first, Dict, ok, err, integrity_error, Exec, pure, gets, ◌>>=◌,
}
use support_agent_platform.Shared.Sort.{sort_desc, sort_in}
use support_agent_platform.Shared.Text.{strip, prefix}
use support_agent_platform.Storage.Models.{TicketEvent}
use support_agent_platform.Storage.World.{World, now, new_uuid}
use support_agent_platform.Storage.Repository.{idempotency_key_of}

-- The events of a ticket, newest first.
unfoldable pub recent_events : String → List TicketEvent → List TicketEvent
unfolding sort_in
recent_events id events =
    sort_desc (λ (e : TicketEvent). e.created_at) (select (λ e. e.ticket_id == id) events)

abbrev pub admits_type : Option String → String → Bool
admits_type none value = true
admits_type (some wanted) value = value == wanted

unfoldable pub find_event_by_idempotency_key :
    String → Option String → String → List TicketEvent → Option TicketEvent
unfolding recent_events idempotency_key_of strip
find_event_by_idempotency_key id event_type key events =
    let wanted = strip key in
    if wanted == ""
    then none
    else first (λ e. admits_type event_type e.event_type && idempotency_key_of e.payload == wanted)
        (take 500 (recent_events id events))

unfoldable pub find_event : String → List TicketEvent → Option TicketEvent
find_event id [] = none
find_event id (e ∷ events) = if e.event_id == id then some e else find_event id events

-- The INSERT statement and the read after it.
unfoldable pub insert_event : TicketEvent → Exec World TicketEvent
insert_event e w = elim (find_event e.event_id w.events) [
  | some _ ↦ (err (integrity_error "UNIQUE constraint failed: ticket_events.event_id"), w)
  | none ↦ (ok e, record w { events = w.events ++ e ∷ [] })
]

unfoldable pub event_id_of : String → String
unfolding prefix
event_id_of hex = "evt_" <> prefix 12 hex

-- The event that has the key already, or else the new one.
unfoldable pub store_event : Option TicketEvent → TicketEvent → Exec World TicketEvent
store_event (some known) e = pure known
store_event none e = insert_event e

-- `append_event` with a generated event id.
unfoldable pub append_event : String → String → String → String → Dict → Exec World TicketEvent
append_event id event_type actor_type actor_id payload = do
  created_at ← now
  hex ← new_uuid
  stored ← gets (λ (w : World). w.events)
  store_event
      (find_event_by_idempotency_key id (some event_type) (idempotency_key_of payload) stored)
      (record {
        event_id = event_id_of hex;
        ticket_id = id;
        event_type = event_type;
        actor_type = actor_type;
        actor_id = actor_id;
        payload = payload;
        created_at = created_at;
      })

unfoldable pub get_event : String → Exec World (Option TicketEvent)
unfolding find_event
get_event id w = (ok (find_event id w.events), w)

-- `ORDER BY created_at ASC`: the rows of equal time in the order of the table.
abbrev pub sort_asc : List TicketEvent → List TicketEvent
sort_asc = sort_in (λ (e f : TicketEvent). leb e.created_at f.created_at)

unfoldable pub list_events : String → ℕ → Exec World (List TicketEvent)
unfolding sort_in
list_events id limit w = (ok (take limit (sort_asc (select (λ e. e.ticket_id == id) w.events))), w)
