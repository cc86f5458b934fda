-- ===== src/Storage/Repository.antt =====
-- storage/ticket_repository.py: `TicketRepository` over the tables of the world. A statement is one
-- transaction. Rows of equal time come in the order of the table, which SQLite leaves open.
use support_agent_platform.Shared.{
  ℕ, suc, String, ◌<>◌, Bool, true, false, ◌&&◌, Option, none, some, List, [], ◌∷◌, ◌++◌, map, ◌==◌,
  if◌then◌else◌, take, drop, select, first, Dict, get, Result, ok, err, key_error, value_error,
  runtime_error, integrity_error, Exec, ◌>>=◌, ◌>>◌,
}
use support_agent_platform.Shared.Sort.{sort_desc, sort_in, sort_texts}
use support_agent_platform.Shared.Text.{strip, prefix, upper}
use support_agent_platform.Shared.Str.{str_or}
use support_agent_platform.Shared.Words.{join}
use support_agent_platform.Storage.Models.{
  Ticket, Priority, Status, Stage, parse_priority, parse_status, parse_stage,
}
use support_agent_platform.Storage.World.{World, Row, now}
use support_agent_platform.Storage.Columns.{Update, unknown_fields, set_columns}
use support_agent_platform.Storage.Times.{quoted, time_of, reads_times, unread_text}

-- The keyword arguments of `create_ticket`, with the defaults filled in.
pub record Draft : Type 0 where
  pub row : Row
  pub draft_id : Option String
  pub draft_source : Option String

-- The fields of a ticket from the columns of its row, the literals given.
unfoldable pub typed_row : Row → Priority → Status → Stage → Ticket
unfolding time_of
typed_row r p s l = record {
  ticket_id = r.ticket_id;
  channel = r.channel;
  session_id = r.session_id;
  thread_id = r.thread_id;
  customer_id = r.customer_id;
  title = r.title;
  latest_message = r.latest_message;
  intent = r.intent;
  priority = p;
  status = s;
  queue = r.queue;
  assignee = r.assignee;
  needs_handoff = r.needs_handoff;
  inbox = r.inbox;
  lifecycle_stage = l;
  first_response_due_at = time_of r.first_response_due_at;
  resolution_due_at = time_of r.resolution_due_at;
  escalated_at = time_of r.escalated_at;
  resolved_at = time_of r.resolved_at;
  closed_at = time_of r.closed_at;
  resolution_note = r.resolution_note;
  resolution_code = r.resolution_code;
  close_reason = r.close_reason;
  source_channel = r.source_channel;
  handoff_state = r.handoff_state;
  last_agent_action = r.last_agent_action;
  risk_level = r.risk_level;
  metadata = r.metadata;
  created_at = r.created_at;
  updated_at = r.updated_at;
}

-- The ticket of a row, if its times are read.
unfoldable pub with_times : Row → Ticket → Result Ticket
unfolding unread_text
with_times r t =
    if reads_times r
    then ok t
    else err (value_error ("Invalid isoformat string: " <> quoted (unread_text r)))

-- `_row_to_ticket`: the checks on the three literals, in their order, and the reading of the times.
unfoldable pub row_to_ticket : Row → Result Ticket
unfolding with_times
row_to_ticket r = elim (parse_priority r.priority) [
  | none ↦ err (value_error ("Invalid priority in DB: " <> r.priority))
  | some p ↦ elim (parse_status r.status) [
    | none ↦ err (value_error ("Invalid status in DB: " <> r.status))
    | some s ↦ elim (parse_stage r.lifecycle_stage) [
      | none ↦ err (value_error ("Invalid lifecycle_stage in DB: " <> r.lifecycle_stage))
      | some l ↦ with_times r (typed_row r p s l)
    ]
  ]
]

-- `SELECT * FROM tickets WHERE ticket_id = ?`.
unfoldable pub find_row : String → List Row → Option Row
find_row id [] = none
find_row id (r ∷ rows) = if r.ticket_id == id then some r else find_row id rows

-- `UPDATE tickets SET ... WHERE ticket_id = ?`.
unfoldable pub update_rows : String → (Row → Row) → List Row → List Row
update_rows id f [] = []
update_rows id f (r ∷ rows) = (if r.ticket_id == id then f r else r) ∷ update_rows id f rows

unfoldable pub found_ticket : Option Row → Result (Option Ticket)
found_ticket none = ok none
found_ticket (some r) = elim (row_to_ticket r) [ ok t ↦ ok (some t) | err e ↦ err e ]

unfoldable pub get_ticket : String → Exec World (Option Ticket)
unfolding found_ticket
get_ticket id w = (found_ticket (find_row id w.tickets), w)

-- The read after a write: a missing row is a `RuntimeError`.
unfoldable pub reload_ticket : String → String → Exec World Ticket
unfolding get_ticket
reload_ticket message id w = elim (find_row id w.tickets) [
  | none ↦ (err (runtime_error (message <> id)), w)
  | some r ↦ (row_to_ticket r, w)
]

-- `_new_ticket_id` of one random number.
unfoldable pub ticket_id_of : String → String
unfolding prefix upper
ticket_id_of hex = "TCK-" <> upper (prefix 10 hex)

-- The INSERT statement, which the primary key guards.
unfoldable pub insert_ticket : Row → Exec World Unit
insert_ticket r w = elim (find_row r.ticket_id w.tickets) [
  | none ↦ (ok tt, record w { tickets = w.tickets ++ r ∷ [] })
  | some _ ↦ (err (integrity_error "UNIQUE constraint failed: tickets.ticket_id"), w)
]

fresh_id : Exec World String
unfolding ticket_id_of
fresh_id w = (ok (ticket_id_of (w.uuid w.drawn)), record w { drawn = suc w.drawn })

-- `ticket_id or self._new_ticket_id()`.
unfoldable pub choose_id : Option String → Exec World String
unfolding fresh_id
choose_id none w = fresh_id w
choose_id (some id) w = if id == "" then fresh_id w else (ok id, w)

unfoldable pub source_or : Option String → String → String
source_or none channel = channel
source_or (some s) channel = if s == "" then channel else s

unfoldable pub create_ticket : Draft → Exec World Ticket
create_ticket d = do
  created_at ← now
  id ← choose_id d.draft_id
  insert_ticket (record d.row {
    ticket_id = id;
    source_channel = source_or d.draft_source d.row.channel;
    created_at = created_at;
    updated_at = created_at;
  })
  reload_ticket "Failed to load created ticket " id

-- The UPDATE statement: no row of that id is a `KeyError`.
unfoldable pub write_columns : String → List Update → ℕ → Exec World Unit
unfolding set_columns
write_columns id updates time w = elim (find_row id w.tickets) [
  | none ↦ (err (key_error ("Ticket not found: " <> id)), w)
  | some _ ↦ (
    ok tt,
    record w {
      tickets =
          update_rows id (λ r. record (set_columns updates r) { updated_at = time }) w.tickets;
    },
  )
]

unfoldable pub reject_unknown : List String → Exec World Unit
unfolding join sort_in
reject_unknown [] w = (ok tt, w)
reject_unknown (key ∷ keys) w =
    let names = join ", " (map quoted (sort_texts (key ∷ keys))) in
    (err (value_error ("Unsupported update fields: [" <> names <> "]")), w)

unfoldable pub update_ticket : String → List Update → Exec World Ticket
update_ticket id updates = do
  reject_unknown (unknown_fields updates)
  time ← now
  write_columns id updates time
  reload_ticket "Failed to load updated ticket " id

-- A filter that is given, against a column.
abbrev pub admits : Option String → String → Bool
admits none value = true
admits (some wanted) value = value == wanted

-- A NULL never equals a filter.
abbrev pub admits_null : Option String → Option String → Bool
admits_null none value = true
admits_null (some wanted) none = false
admits_null (some wanted) (some value) = value == wanted

unfoldable pub rows_to_tickets : List Row → Result (List Ticket)
rows_to_tickets [] = ok []
rows_to_tickets (r ∷ rows) = elim (row_to_ticket r) [
  | err e ↦ err e
  | ok t ↦ elim (rows_to_tickets rows) [ err e ↦ err e | ok ts ↦ ok (t ∷ ts) ]
]

-- The rows that the SELECT returns.
unfoldable pub select_rows :
    Option String → Option String → Option String → ℕ → ℕ → List Row → List Row
unfolding sort_in
select_rows status queue assignee limit offset rows = take limit (
    drop offset (
      sort_desc (λ (r : Row). r.updated_at)
        (select
          (λ r. admits status r.status && admits queue r.queue && admits_null assignee r.assignee)
          rows)))

unfoldable pub list_tickets :
    Option String → Option String → Option String → ℕ → ℕ → Exec World (List Ticket)
unfolding select_rows rows_to_tickets
list_tickets status queue assignee limit offset w =
    (rows_to_tickets (select_rows status queue assignee limit offset w.tickets), w)

-- `str(d.get("idempotency_key") or "").strip()`.
unfoldable pub idempotency_key_of : Dict → String
unfolding strip str_or
idempotency_key_of d = strip (str_or (get "idempotency_key" d) "")

unfoldable pub find_ticket_by_idempotency_key : String → Exec World (Option Ticket)
unfolding idempotency_key_of found_ticket sort_in strip
find_ticket_by_idempotency_key key w =
    let wanted = strip key in
    if wanted == "" then (ok none, w) else (
      found_ticket (
          first (λ r. idempotency_key_of r.metadata == wanted)
            (take 500 (sort_desc (λ (r : Row). r.updated_at) w.tickets))),
      w,
    )
