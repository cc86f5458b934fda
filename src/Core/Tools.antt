-- ===== src/Core/Tools.antt =====
-- tools/: what the tools call in the ticket API, and the dicts that they return.
use support_agent_platform.Shared.{
  String, ◌<>◌, Bool, Option, none, some, List, if◌then◌else◌, Value, Dict, text, obj, end, entry,
  get, truthy, Result, ok, err, key_error, value_error, type_error, Exec, pure, gets, lift, ◌>>=◌,
}
use support_agent_platform.Shared.Str.{str, of_option}
use support_agent_platform.Storage.Models.{Priority, status_text, priority_text, parse_priority}
use support_agent_platform.Storage.World.{World}
use support_agent_platform.Storage.Columns.{Update}
use support_agent_platform.Core.TicketApi.{update_ticket}
use support_agent_platform.Core.TicketActions.{
  NewTicket, create_ticket, assign_ticket, escalate_ticket, close_ticket,
}

-- `_normalize_priority`, and the same test of `escalate_case`.
unfoldable pub normalize_priority : String → Result Priority
unfolding parse_priority
normalize_priority value = elim (parse_priority value) [
  | none ↦ err (value_error ("Invalid priority: " <> value))
  | some p ↦ ok p
]

-- `str(args.get(key, default))`.
abbrev pub str_at : String → String → Dict → String
str_at key default args = elim (get key args) [ none ↦ default | some v ↦ str v ]

-- `str(args[key])`, of a key that the router has checked.
unfoldable pub required_at : String → Dict → Result String
unfolding str
required_at key args = elim (get key args) [ none ↦ err (key_error key) | some v ↦ ok (str v) ]

-- `str(args.get(key)) if args.get(key) else None`.
unfoldable pub nonempty_at : String → Dict → Option String
unfolding str truthy
nonempty_at key args = elim (get key args) [
  | none ↦ none
  | some v ↦ if truthy v then some (str v) else none
]

-- `dict(args.get("metadata") or {})`; the pairs that `dict` reads from a list are not modelled.
unfoldable pub metadata_at : Dict → Result Dict
unfolding truthy
metadata_at args = elim (get "metadata" args) [
  | none ↦ ok end
  | some (obj d) ↦ ok d
  | some v ↦ if truthy v then err (type_error "object is not iterable") else ok end
]

-- The arguments of the ticket API's method; it takes its own defaults for the risk and the inbox.
unfoldable pub new_ticket_of : Dict → Priority → Exec World NewTicket
unfolding required_at nonempty_at metadata_at str priority_text
new_ticket_of args p = do
  channel ← lift (required_at "channel" args)
  session_id ← lift (required_at "session_id" args)
  thread_id ← lift (required_at "thread_id" args)
  title ← lift (required_at "title" args)
  latest_message ← lift (required_at "latest_message" args)
  intent ← lift (required_at "intent" args)
  metadata ← lift (metadata_at args)
  pure (record {
    channel = channel;
    session_id = session_id;
    thread_id = thread_id;
    title = title;
    latest_message = latest_message;
    intent = intent;
    priority = priority_text p;
    queue = str_at "queue" "support" args;
    customer_id = nonempty_at "customer_id" args;
    assignee = nonempty_at "assignee" args;
    risk_level = "medium";
    inbox = none;
    metadata = metadata;
  })

unfoldable pub create_ticket_tool : Bool → Dict → Exec World Value
unfolding new_ticket_of normalize_priority str
create_ticket_tool mapped args = do
  p ← lift (normalize_priority (str_at "priority" "P3" args))
  draft ← new_ticket_of args p
  t ← create_ticket mapped draft
  pure (
      obj (
        entry "ticket_id" (text t.ticket_id) (
          entry "status" (text (status_text t.status))
            (entry "priority" (text (priority_text t.priority)) end))))

unfoldable pub update_ticket_tool : String → List Update → String → Exec World Value
unfolding status_text
update_ticket_tool id updates actor_id = do
  t ← update_ticket id updates actor_id
  iso ← gets (λ (w : World). w.isoformat)
  pure (
      obj (
        entry "ticket_id" (text t.ticket_id) (
          entry "status" (text (status_text t.status))
            (entry "updated_at" (text (iso t.updated_at)) end))))

unfoldable pub assign_ticket_tool : String → String → String → Exec World Value
unfolding status_text
assign_ticket_tool id assignee actor_id = do
  t ← assign_ticket id assignee actor_id
  pure (
      obj (
        entry "ticket_id" (text t.ticket_id) (
          entry "assignee" (of_option t.assignee)
            (entry "status" (text (status_text t.status)) end))))

unfoldable pub close_case : String → String → String → Exec World Value
unfolding status_text
close_case id actor_id resolution_note = do
  t ← close_ticket id actor_id resolution_note (record {
    close_reason = none;
    resolution_code = none;
    handoff_state = none;
    metadata = none;
  })
  pure (
      obj (entry "ticket_id" (text t.ticket_id) (entry "status" (text (status_text t.status)) end)))

unfoldable pub escalate_case : String → String → String → String → Exec World Value
unfolding normalize_priority status_text priority_text
escalate_case id actor_id reason new_priority = do
  p ← lift (normalize_priority new_priority)
  t ← escalate_ticket id actor_id reason p
  pure (
      obj (
        entry "ticket_id" (text t.ticket_id) (
          entry "status" (text (status_text t.status))
            (entry "priority" (text (priority_text t.priority)) end))))
