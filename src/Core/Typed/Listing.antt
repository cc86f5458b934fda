-- ===== src/Core/Typed/Listing.antt =====
-- core/ticket_api.py: the worlds that its operations reach, and the listing of tickets there.
use support_agent_platform.Shared.{
  ℕ, String, ◌≡◌, refl, Bool, ◌&&◌, Option, some, List, [], ◌∷◌, arith, take, drop, select, Dict,
  ok,
}
use support_agent_platform.Shared.Elements.{All, All-drop, All-select, All-take}
use support_agent_platform.Shared.Sort.{All-sort_in, sort_desc}
use support_agent_platform.Storage.Models.{Ticket, Priority, parse_priority}
use support_agent_platform.Storage.World.{World, Row}
use support_agent_platform.Storage.Columns.{Update}
use support_agent_platform.Storage.Repository
use support_agent_platform.Storage.Repository.{
  rows_to_tickets, row_to_ticket, typed_row, select_rows, admits, admits_null,
}
use support_agent_platform.Storage.Literals.{row_to_ticket-IsReadable}
use support_agent_platform.Core.TicketApi.{update_ticket}
use support_agent_platform.Core.TicketActions.{
  Closing, NewTicket, create_ticket, assign_ticket, resolve_ticket, escalate_ticket, close_ticket,
  add_event, merge_ticket_metadata, list_tickets,
}
use support_agent_platform.Core.TicketMerge.{
  MergeCall, accept_merge_suggestion, reject_merge_suggestion, reject_same, timestamp, merge_into,
  keep_apart,
}
use support_agent_platform.Core.Typed.{IsTyped, IsLiteral, KeepsTyped, KeepsTyped-frame}
use support_agent_platform.Core.Typed.Actions.{
  create_ticket-KeepsTyped, assign_ticket-KeepsTyped, resolve_ticket-KeepsTyped,
  escalate_ticket-KeepsTyped, close_ticket-KeepsTyped, merge_ticket_metadata-KeepsTyped,
}
use support_agent_platform.Core.Typed.Operations.{
  typed_rules, update_ticket-KeepsTyped, append_event-KeepsTyped,
}

-- What the ticket API can do to a world, whether its calls return or raise. A new ticket's priority is a
-- literal, and so are the priority, the status and the stage of an update, where it has them; its times
-- are read.
pub data Reaches (w : World) : World → Type 0 where
  here : Reaches w w
  creates :
      {v : World} (mapped : Bool) (n : NewTicket) (p : Priority)
      → Reaches w v
      → parse_priority n.priority ≡ some p
      → Reaches w (create_ticket mapped n v).1
  updates :
      {v : World} (id : String) (us : List Update) (actor_id : String)
      → Reaches w v
      → All IsLiteral us
      → Reaches w (update_ticket id us actor_id v).1
  assigns :
      {v : World} (id assignee actor_id : String)
      → Reaches w v
      → Reaches w (assign_ticket id assignee actor_id v).1
  resolves :
      {v : World} (id actor_id note : String) (code : Option String)
      → Reaches w v
      → Reaches w (resolve_ticket id actor_id note code v).1
  escalates :
      {v : World} (id actor_id reason : String) (p : Priority)
      → Reaches w v
      → Reaches w (escalate_ticket id actor_id reason p v).1
  closes :
      {v : World} (id actor_id note : String) (c : Closing)
      → Reaches w v
      → Reaches w (close_ticket id actor_id note c v).1
  adds_event :
      {v : World} (id event_type actor_type actor_id : String) (payload : Dict)
      → Reaches w v
      → Reaches w (add_event id event_type actor_type actor_id payload v).1
  merges_metadata :
      {v : World} (id : String) (patch : Dict) (actor_id : String)
      → Reaches w v
      → Reaches w (merge_ticket_metadata id patch actor_id v).1
  accepts : {v : World} (c : MergeCall) → Reaches w v → Reaches w (accept_merge_suggestion c v).1
  rejects : {v : World} (c : MergeCall) → Reaches w v → Reaches w (reject_merge_suggestion c v).1

add_event-KeepsTyped :
    (id event_type actor_type actor_id : String) (payload : Dict)
    → KeepsTyped (add_event id event_type actor_type actor_id payload)
unfolding add_event
add_event-KeepsTyped = append_event-KeepsTyped

reject_same-KeepsTyped : (a b : String) → KeepsTyped (reject_same a b)
unfolding reject_same
reject_same-KeepsTyped a b = KeepsTyped-frame (reject_same a b) (λ w. ground arith)

timestamp-KeepsTyped : KeepsTyped timestamp
unfolding timestamp
timestamp-KeepsTyped = KeepsTyped-frame timestamp (λ w. refl)

merge_into-KeepsTyped : (s t : Ticket) (c : MergeCall) → KeepsTyped (merge_into s t c)
unfolding merge_into
merge_into-KeepsTyped s t c =
    search
      (
        typed_rules, timestamp-KeepsTyped, close_ticket-KeepsTyped, add_event-KeepsTyped,
        update_ticket-KeepsTyped,
      )
      depth 20

keep_apart-KeepsTyped : (s : Ticket) (c : MergeCall) → KeepsTyped (keep_apart s c)
unfolding keep_apart
keep_apart-KeepsTyped s c =
    search (typed_rules, timestamp-KeepsTyped, add_event-KeepsTyped, update_ticket-KeepsTyped) depth
      16

accept_merge_suggestion-KeepsTyped : (c : MergeCall) → KeepsTyped (accept_merge_suggestion c)
unfolding accept_merge_suggestion
accept_merge_suggestion-KeepsTyped c =
    search (typed_rules, reject_same-KeepsTyped, merge_into-KeepsTyped) depth 14

reject_merge_suggestion-KeepsTyped : (c : MergeCall) → KeepsTyped (reject_merge_suggestion c)
unfolding reject_merge_suggestion
reject_merge_suggestion-KeepsTyped c =
    search (typed_rules, reject_same-KeepsTyped, keep_apart-KeepsTyped) depth 14

pub Reaches-IsTyped : {w v : World} → Reaches w v → All IsTyped w.tickets → All IsTyped v.tickets
Reaches-IsTyped here h = h
Reaches-IsTyped (creates mapped n p r e) h =
    (create_ticket-KeepsTyped mapped n p e).at _ (Reaches-IsTyped r h)
Reaches-IsTyped (updates id us actor_id r k) h =
    (update_ticket-KeepsTyped id us actor_id k).at _ (Reaches-IsTyped r h)
Reaches-IsTyped (assigns id assignee actor_id r) h =
    (assign_ticket-KeepsTyped id assignee actor_id).at _ (Reaches-IsTyped r h)
Reaches-IsTyped (resolves id actor_id remark code r) h =
    (resolve_ticket-KeepsTyped id actor_id remark code).at _ (Reaches-IsTyped r h)
Reaches-IsTyped (escalates id actor_id reason p r) h =
    (escalate_ticket-KeepsTyped id actor_id reason p).at _ (Reaches-IsTyped r h)
Reaches-IsTyped (closes id actor_id remark c r) h =
    (close_ticket-KeepsTyped id actor_id remark c).at _ (Reaches-IsTyped r h)
Reaches-IsTyped (adds_event id event_type actor_type actor_id payload r) h =
    (add_event-KeepsTyped id event_type actor_type actor_id payload).at _ (Reaches-IsTyped r h)
Reaches-IsTyped (merges_metadata id patch actor_id r) h =
    (merge_ticket_metadata-KeepsTyped id patch actor_id).at _ (Reaches-IsTyped r h)
Reaches-IsTyped (accepts c r) h = (accept_merge_suggestion-KeepsTyped c).at _ (Reaches-IsTyped r h)
Reaches-IsTyped (rejects c r) h = (reject_merge_suggestion-KeepsTyped c).at _ (Reaches-IsTyped r h)

row_to_ticket-typed : (r : Row) → IsTyped r → (t : Ticket) × (row_to_ticket r ≡ ok t)
row_to_ticket-typed r h =
    let (p, priority) = h.priority in
    let (s, status) = h.status in
    let (l, stage) = h.stage in
    (
      typed_row r p s l,
      row_to_ticket-IsReadable r p s l
          (record { priority = priority; status = status; stage = stage; times = h.times }),
    )

rows_to_tickets-typed :
    (rows : List Row) → All IsTyped rows → (ts : List Ticket) × (rows_to_tickets rows ≡ ok ts)
unfolding rows_to_tickets
rows_to_tickets-typed [] h = ([], refl)
rows_to_tickets-typed (r ∷ rows) h =
    let (t, e) = row_to_ticket-typed r h.0 in
    let (ts, f) = rows_to_tickets-typed rows h.1 in (t ∷ ts, rw (rows_to_tickets, e, f) refl)

-- Whatever calls of the ticket API were made, in any order and whether they raised or not, if their
-- priorities, statuses and stages are literals, the times that their updates give are None, moments or
-- texts that are read as a time, and the columns of the rows were so at the start: the table can be
-- read, so a listing with any filter and limit returns tickets, and changes nothing.
pub list_tickets_of_reached :
    {w v : World} (status queue assignee : Option String) (limit : ℕ)
    → Reaches w v
    → All IsTyped w.tickets
    → (ts : List Ticket) × (list_tickets status queue assignee limit v ≡ (ok ts, v))
unfolding list_tickets Repository.list_tickets select_rows
list_tickets_of_reached {v = v} status queue assignee limit reached h =
    let rows =
      sort_desc (λ (r : Row). r.updated_at)
        (select
          (λ r. admits status r.status && admits queue r.queue && admits_null assignee r.assignee)
          v.tickets) in
    let typed = All-take IsTyped limit (drop 0 rows) (
      All-drop IsTyped 0 rows
        (All-sort_in _ IsTyped _ (All-select IsTyped _ v.tickets (Reaches-IsTyped reached h)))) in
    let (ts, e) = rows_to_tickets-typed (take limit (drop 0 rows)) typed in (ts, rw e refl)
