-- ===== src/Workflows/CollabPush.antt =====
-- workflows/case_collab_workflow.py: `push_new_ticket`, the message that tells agents of a ticket.
use support_agent_platform.Shared.{
  ℕ, ◌+◌, ◌-◌, ◌/◌, String, ◌<>◌, Bool, true, false, ◌||◌, Option, none, some, List, [], ◌∷◌, ◌++◌,
  map, ◌==◌, leb, if◌then◌else◌, take, take_last, contains, ℤ, pos, Value, Dict, text, arr, obj,
  end, entry, get, put, of_items, to_items, Result, ok, err, Exec, pure, gets, lift, ◌>>=◌, ◌>>◌,
}
use support_agent_platform.Shared.Text.{prefix}
use support_agent_platform.Shared.Str.{str, nonblank_texts}
use support_agent_platform.Shared.Number.{str_ℤ}
use support_agent_platform.Shared.Int.{negated}
use support_agent_platform.Storage.Models.{
  Ticket, TicketEvent, escalated, p1, Priority, status_text, priority_text, stage_text,
}
use support_agent_platform.Storage.World.{World, now}
use support_agent_platform.Storage.Columns.{Update}
use support_agent_platform.Openclaw.SessionMapper.{iterate}
use support_agent_platform.Core.TicketApi.{require_ticket, update_ticket, same_status}
use support_agent_platform.Core.TicketActions.{add_event, list_events}

-- `[str(item.get("doc_id", "")) for item in cards if isinstance(item, dict)]`.
unfoldable pub doc_ids : List Value → List Value
unfolding str
doc_ids [] = []
doc_ids (obj d ∷ cards) =
    text (elim (get "doc_id" d) [ none ↦ "" | some v ↦ str v ]) ∷ doc_ids cards
doc_ids (_ ∷ cards) = doc_ids cards

-- The similar cases that a card shows: those of the cards, or the identifiers that are kept.
unfoldable pub similar_cases : List Value → Dict → Result (List Value)
unfolding doc_ids iterate
similar_cases [] metadata = elim (iterate (get "similar_case_ids" metadata)) [
  | err e ↦ err e
  | ok ids ↦ ok (take 3 ids)
]
similar_cases (card ∷ cards) metadata = ok (doc_ids (card ∷ cards))

abbrev listed : Option Value → List Value
listed (some (arr items)) = of_items items
listed _ = []

-- A flag, if the test holds.
abbrev flag : Bool → String → List String
flag true s = s ∷ []
flag false s = []

-- Each text where it comes first.
unfoldable pub deduped : List String → List String → List String
deduped kept [] = kept
deduped kept (s ∷ texts) = deduped (if contains kept s then kept else kept ++ s ∷ []) texts

abbrev is_p1 : Priority → Bool
is_p1 p1 = true
is_p1 _ = false

unfoldable pub risk_flags : Ticket → List String
unfolding deduped str same_status
risk_flags t = deduped [] (
    map str (take 5 (listed (get "risk_flags" t.metadata)))
    ++ (flag ((t.risk_level == "high") || (t.risk_level == "medium")) ("risk=" <> t.risk_level)
        ++ (flag (same_status t.status escalated) "status=escalated"
            ++ flag (t.intent == "complaint") "complaint")))

abbrev default_steps : List String
default_steps = "先 /claim 认领" ∷ "确认上下文后 /resolve 或 /escalate" ∷ []

-- The steps that the metadata names, if it has any.
abbrev steps_of : List Value → List String
steps_of [] = default_steps
steps_of (v ∷ values) = take 4 (nonblank_texts (v ∷ values))

unfoldable pub recommended_steps : Ticket → List String
unfolding nonblank_texts
recommended_steps t =
    flag (is_p1 t.priority) "优先升级处理" ++ steps_of (listed (get "next_steps" t.metadata))

-- `int((due - now).total_seconds() // 60)`.
unfoldable pub minutes_left : ℕ → ℕ → ℤ
minutes_left time due =
    if leb time due
    then pos ((due - time) / 60000000)
    else negated ((time - due + 59999999) / 60000000)

abbrev left_text : ℕ → Option ℕ → String
left_text time none = "-"
left_text time (some due) = str_ℤ (minutes_left time due) <> "m"

-- `_sla_remaining`.
unfoldable pub sla_remaining : Ticket → ℕ → Dict
unfolding minutes_left str_ℤ
sla_remaining t time =
    entry "first_response" (text (left_text time t.first_response_due_at))
      (entry "resolution" (text (left_text time t.resolution_due_at)) end)

abbrev texts_value : List String → Value
texts_value texts = arr (to_items (map text texts))

abbrev event_types : List TicketEvent → List String
event_types events = map (λ (e : TicketEvent). e.event_type) events

-- `_build_collab_payload`.
unfoldable pub build_collab_payload : Ticket → Exec World Dict
unfolding iterate similar_cases risk_flags recommended_steps sla_remaining prefix
build_collab_payload t = do
  events ← list_events t.ticket_id
  cards ← lift (iterate (get "similar_cases" t.metadata))
  similar ← lift (similar_cases (take 3 cards) t.metadata)
  time ← now
  pure (
      entry "summary" (text (t.title <> " | latest=" <> prefix 80 t.latest_message)) (
        entry "similar_cases" (arr (to_items similar)) (
          entry "similar_case_cards" (arr (to_items (take 3 cards))) (
            entry "recommended_steps" (texts_value (recommended_steps t)) (
              entry "risk_flags" (texts_value (risk_flags t)) (
                entry "sla_remaining" (obj (sla_remaining t time))
                  (entry "recent_events" (texts_value (take_last 5 (event_types events))) end)))))))

abbrev shown : String → Dict → String
shown key payload = elim (get key payload) [ none ↦ "" | some v ↦ str v ]

abbrev time_text : (ℕ → String) → Option ℕ → String
time_text iso none = "-"
time_text iso (some time) = iso time

-- `_render_push_message`.
unfoldable pub render_push_message : (ℕ → String) → Ticket → Dict → String
unfolding str priority_text status_text stage_text
render_push_message iso t payload =
    "[new-ticket] "
    <> t.ticket_id
    <> " | inbox="
    <> t.inbox
    <> " | queue="
    <> t.queue
    <> " | intent="
    <> t.intent
    <> " | priority="
    <> priority_text t.priority
    <> " | status="
    <> status_text t.status
    <> "/"
    <> stage_text t.lifecycle_stage
    <> "/"
    <> t.handoff_state
    <> " | sla(first="
    <> time_text iso t.first_response_due_at
    <> ", resolution="
    <> time_text iso t.resolution_due_at
    <> ") | sla_remaining="
    <> shown "sla_remaining" payload
    <> " | summary="
    <> shown "summary" payload
    <> " | risk="
    <> shown "risk_flags" payload
    <> " | similar="
    <> shown "similar_cases" payload
    <> " | next="
    <> shown "recommended_steps" payload
    <> " | commands: /claim /reassign <user> /escalate <reason> /resolve <note> /close <note> /state <state>"

-- A ticket that nobody has been told of waits for a claim.
unfoldable pub await_claim : Ticket → Exec World Ticket
await_claim t w =
    let written =
      update_ticket t.ticket_id
        (Update.handoff_state "pending_claim" ∷ Update.last_agent_action (some "collab_push") ∷ [])
        "case-collab" w in
    if t.handoff_state == "none" then written else (ok t, w)

-- `push_new_ticket`: the ticket's identifier and the message.
unfoldable pub push_new_ticket : String → Exec World (String × String)
unfolding render_push_message
push_new_ticket id = do
  found ← require_ticket id
  t ← await_claim found
  payload ← build_collab_payload t
  iso ← gets (λ (w : World). w.isoformat)
  add_event t.ticket_id "collab_push" "system" "case-collab"
      (put "message" (text (render_push_message iso t payload)) payload)
  pure (t.ticket_id, render_push_message iso t payload)
