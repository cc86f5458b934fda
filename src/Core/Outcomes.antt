-- ===== src/Core/Outcomes.antt =====
-- core/ticket_api.py: what the checks, the writes and the events of an operation do to a ticket that
-- can be read.
pub mod Rows
pub mod Actions
pub mod ClosedRow
pub mod Closing
pub mod Updates
pub mod Refusals
use support_agent_platform.Shared.{
  suc, String, ◌≡◌, refl, sym, ap, subst, ◌∙◌, ◌≢◌, true, ◌||◌, none, some, List, [], ◌∷◌, ◌++◌,
  arith, Dict, Result, ok,
}
use support_agent_platform.Shared.Text.{strip}
use support_agent_platform.Shared.Str.{str_or}
use support_agent_platform.Storage.Models.{
  Ticket, TicketEvent, Status, Priority, Stage, status_text, opened,
}
use support_agent_platform.Storage.World.{World, Row}
use support_agent_platform.Storage.Columns.{Update, unknown_fields, set_columns}
use support_agent_platform.Storage.Repository
use support_agent_platform.Storage.Repository.{
  typed_row, row_to_ticket, find_row, update_rows, get_ticket, found_ticket, reload_ticket,
  write_columns, reject_unknown, idempotency_key_of,
}
use support_agent_platform.Storage.EventLog.{
  find_event, find_event_by_idempotency_key, event_id_of, store_event, insert_event, append_event,
}
use support_agent_platform.Storage.Literals.{IsReadable, row_to_ticket-IsReadable}
use support_agent_platform.Storage.Rows.{
  find_row-update_self, find_row-update_ne, ticket_id-set_columns,
}
use support_agent_platform.Core.TicketApi.{
  require_ticket, normalize_status, assert_transition_allowed, transition_status,
  transition_updates, transition_payload, allowed, same_status,
}

-- The row that an UPDATE leaves, at the time of the next reading of the clock.
abbrev pub updated_row : List Update → World → Row → Row
updated_row us w r = record (set_columns us r) { updated_at = w.clock w.reads }

-- The world after an UPDATE.
abbrev pub updated_world : String → List Update → World → World
updated_world id us w = record w {
  reads = suc w.reads;
  tickets = update_rows id (updated_row us w) w.tickets;
}

-- The event that is appended, and the world after it.
abbrev pub next_event : String → String → String → String → Dict → World → TicketEvent
next_event id event_type actor_type actor_id payload w = record {
  event_id = event_id_of (w.uuid w.drawn);
  ticket_id = id;
  event_type = event_type;
  actor_type = actor_type;
  actor_id = actor_id;
  payload = payload;
  created_at = w.clock w.reads;
}

abbrev pub logged_world : TicketEvent → World → World
logged_world e w = record w {
  reads = suc w.reads;
  drawn = suc w.drawn;
  events = w.events ++ e ∷ [];
}

-- The next event's identifier is new.
abbrev pub IsFresh : World → Type 0
IsFresh w = find_event (event_id_of (w.uuid w.drawn)) w.events ≡ none

pub append_event-IsFresh :
    (id event_type actor_type actor_id : String) (payload : Dict) (w : World)
    → IsFresh w
    → idempotency_key_of payload ≡ ""
    → append_event id event_type actor_type actor_id payload w ≡ (
      ok (next_event id event_type actor_type actor_id payload w),
      logged_world (next_event id event_type actor_type actor_id payload w) w,
    )
unfolding append_event store_event insert_event find_event_by_idempotency_key strip find_event
    event_id_of
append_event-IsFresh id event_type actor_type actor_id payload w fresh keyless =
    rw (keyless, fresh) refl

module _ (id : String) (w : World) (r : Row) (found : find_row id w.tickets ≡ some r) where
  pub require_ticket-IsReadable :
      (p : Priority) (s : Status) (l : Stage)
      → IsReadable r p s l
      → require_ticket id w ≡ (ok (typed_row r p s l), w)
  unfolding require_ticket get_ticket found_ticket
  require_ticket-IsReadable p s l readable =
      ground (arith, row_to_ticket-IsReadable r p s l readable)

  pub update_ticket-IsReadable :
      (us : List Update) (p : Priority) (s : Status) (l : Stage)
      → unknown_fields us ≡ []
      → IsReadable (set_columns us r) p s l
      → Repository.update_ticket id us w
        ≡ (ok (typed_row (updated_row us w r) p s l), updated_world id us w)
  unfolding Repository.update_ticket reject_unknown write_columns reload_ticket typed_row find_row
      update_rows
  update_ticket-IsReadable us p s l known readable =
      rw
        (
          known,
          found,
          find_row-update_self (updated_row us w) (λ q. ticket_id-set_columns us q) id w.tickets r
              found,
          row_to_ticket-IsReadable (updated_row us w r) p s l (record {
            priority = readable.priority;
            status = readable.status;
            stage = readable.stage;
            times = readable.times;
          }),
        )
        refl

pub normalize_status-status_text : (s : Status) → normalize_status (status_text s) ≡ ok s
unfolding normalize_status status_text
normalize_status-status_text opened = refl
normalize_status-status_text _ = refl

pub assert_transition_allowed-allowed :
    (s t : Status) (id : String) (w : World)
    → (same_status t s || allowed s t) ≡ true
    → assert_transition_allowed s t id w ≡ (ok tt, w)
unfolding assert_transition_allowed
assert_transition_allowed-allowed s t id w h = rw h refl

-- The world after the write and the event of a transition.
abbrev pub moved_world : String → List Update → String → String → Dict → World → World
moved_world id us event_type actor_id payload w =
    logged_world (next_event id event_type "agent" actor_id payload (updated_world id us w))
      (updated_world id us w)

module _ (id : String) (w : World) (r : Row) (found : find_row id w.tickets ≡ some r) (p : Priority)
    (s : Status) (l : Stage) (readable : IsReadable r p s l) (fresh : IsFresh w) where
  pub transition_status-IsReadable :
      (t : Status) (actor_id event_type : String) (extra : List Update) (payload : Dict)
      (q : Priority) (k : Stage)
      → (same_status t s || allowed s t) ≡ true
      → unknown_fields (transition_updates t l extra) ≡ []
      → IsReadable (set_columns (transition_updates t l extra) r) q t k
      → idempotency_key_of (transition_payload s t payload) ≡ ""
      → transition_status id (status_text t) actor_id event_type extra payload w ≡ (
        ok (typed_row (updated_row (transition_updates t l extra) w r) q t k),
        moved_world id
            (transition_updates t l extra)
            event_type
            actor_id
            (transition_payload s t payload)
            w,
      )
  unfolding transition_status typed_row
  transition_status-IsReadable t actor_id event_type extra payload q k may known after_readable
        keyless =
      let us = transition_updates t l extra in
      rw
        (
          require_ticket-IsReadable id w r found p s l readable,
          normalize_status-status_text t,
          assert_transition_allowed-allowed s t id w may,
          update_ticket-IsReadable id w r found us q t k known after_readable,
          append_event-IsFresh id event_type "agent" actor_id (transition_payload s t payload)
              (updated_world id us w) fresh keyless,
        )
        refl

-- What an operation that succeeds returns and leaves: the ticket, its row, the rows of all other
-- tickets as they were, and the events that it appends.
pub record Moved (id : String) (w : World) (after : Row) (t : Ticket) (logged : List TicketEvent)
    (out : Result Ticket × World) : Type 0 where
  pub returned : out.0 ≡ ok t
  pub stored : find_row id out.1.tickets ≡ some after
  pub others : (j : String) → j ≢ id → find_row j out.1.tickets ≡ find_row j w.tickets
  pub appended : out.1.events ≡ w.events ++ logged

pub Moved-moved_world :
    (id : String) (us : List Update) (event_type actor_id : String) (payload : Dict) (w : World)
    (r : Row) (t : Ticket) (out : Result Ticket × World)
    → find_row id w.tickets ≡ some r
    → out ≡ (ok t, moved_world id us event_type actor_id payload w)
    → Moved id w
        (updated_row us w r)
        t
        (next_event id event_type "agent" actor_id payload (updated_world id us w) ∷ [])
        out
Moved-moved_world id us event_type actor_id payload w r t out found e =
    let keeps = λ (q : Row). ticket_id-set_columns us q in
    subst
      (λ o.
        Moved id w (updated_row us w r) t
          (next_event id event_type "agent" actor_id payload (updated_world id us w) ∷ []) o)
      (sym e)
      (record {
        returned = refl;
        stored = find_row-update_self (updated_row us w) keeps id w.tickets r found;
        others = λ j ne. find_row-update_ne (updated_row us w) keeps id j w.tickets ne;
        appended = refl;
      })

-- A reading of the clock before the operation makes no difference.
pub Moved-now :
    {id : String} {w : World} {after : Row} {t : Ticket} {logged : List TicketEvent}
    {out : Result Ticket × World}
    → Moved id (record w { reads = suc w.reads }) after t logged out
    → Moved id w after t logged out
Moved-now m = record {
  returned = m.returned;
  stored = m.stored;
  others = m.others;
  appended = m.appended;
}

pub append_assoc : (xs ys zs : List TicketEvent) → (xs ++ ys) ++ zs ≡ xs ++ (ys ++ zs)
append_assoc [] ys zs = refl
append_assoc (x ∷ xs) ys zs = ap (λ rest. x ∷ rest) (append_assoc xs ys zs)

-- One operation after another.
pub Moved-then :
    {id : String} {w : World} {r q : Row} {t u : Ticket} {es fs : List TicketEvent}
    {out next : Result Ticket × World}
    → Moved id w r t es out
    → Moved id out.1 q u fs next
    → Moved id w q u (es ++ fs) next
Moved-then {w = w} {es = es} {fs = fs} m n = record {
  returned = n.returned;
  stored = n.stored;
  others = λ j ne. n.others j ne ∙ m.others j ne;
  appended = n.appended ∙ ap (λ events. events ++ fs) m.appended ∙ append_assoc w.events es fs;
}
