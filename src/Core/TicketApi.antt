-- ===== src/Core/TicketApi.antt =====
-- core/ticket_api.py: `TicketAPI`, whose methods act on the world and may raise: its guards, the
-- transitions of the lifecycle, and `update_ticket`.
use support_agent_platform.Shared.{
  String, ◌<>◌, Bool, true, false, ◌||◌, Option, none, some, List, [], ◌∷◌, ◌++◌, ◌==◌,
  if◌then◌else◌, Dict, text, obj, end, entry, merge, Result, ok, err, key_error, value_error,
  runtime_error, Exec, pure, raise, gets, lift, ◌>>=◌, ◌>>◌,
}
use support_agent_platform.Shared.Text.{strip, lower}
use support_agent_platform.Storage.Models.{
  Ticket, Status, Stage, opened, pending, escalated, handoff, status_text, stage_text, parse_status,
  classified, awaiting_human,
}
use support_agent_platform.Storage.World.{World}
use support_agent_platform.Storage.Columns.{Update, status_update, without_status, has_stage}
use support_agent_platform.Storage.Repository
use support_agent_platform.Storage.Repository.{get_ticket, Draft}
use support_agent_platform.Storage.EventLog.{append_event}
use support_agent_platform.Core.TicketJson.{updates_json}

-- `_ALLOWED_STATUS_TRANSITIONS`: whether the second status is in the set of the first.
unfoldable pub allowed : Status → Status → Bool
allowed opened opened = false
allowed opened _ = true
allowed pending pending = false
allowed pending _ = true
allowed escalated opened = false
allowed escalated escalated = false
allowed escalated _ = true
allowed handoff opened = false
allowed handoff handoff = false
allowed handoff _ = true
allowed Status.resolved opened = true
allowed Status.resolved pending = true
allowed Status.resolved Status.closed = true
allowed Status.resolved _ = false
allowed Status.closed _ = false

unfoldable pub same_status : Status → Status → Bool
unfolding status_text
same_status s t = status_text s == status_text t

-- `_stage_for_status`.
unfoldable pub stage_for_status : Status → Stage → Stage
stage_for_status opened fallback = fallback
stage_for_status pending fallback = classified
stage_for_status escalated fallback = awaiting_human
stage_for_status handoff fallback = awaiting_human
stage_for_status Status.resolved fallback = Stage.resolved
stage_for_status Status.closed fallback = Stage.closed

-- `_normalize_status`.
unfoldable pub normalize_status : String → Result Status
unfolding strip lower parse_status
normalize_status value = elim (parse_status (lower (strip value))) [
  | none ↦ err (value_error ("Unsupported status: " <> value))
  | some s ↦ ok s
]

-- `_ensure_not_closed`.
unfoldable pub ensure_not_closed : Ticket → Exec World Unit
unfolding same_status
ensure_not_closed t w =
    if same_status t.status Status.closed
    then (err (runtime_error ("Ticket " <> t.ticket_id <> " is already closed")), w)
    else (ok tt, w)

-- `_assert_transition_allowed`, behind the test of the caller that the status changes.
unfoldable pub assert_transition_allowed : Status → Status → String → Exec World Unit
unfolding same_status allowed status_text
assert_transition_allowed current target id w =
    if same_status target current || allowed current target then (ok tt, w) else (
      err (
          runtime_error (
            "Invalid lifecycle transition for "
            <> id
            <> ": "
            <> status_text current
            <> " -> "
            <> status_text target)),
      w,
    )

unfoldable pub require_ticket : String → Exec World Ticket
unfolding get_ticket
require_ticket id = do
  found ← get_ticket id
  elim found [ none ↦ raise (key_error ("Ticket not found: " <> id)) | some t ↦ pure t ]

-- The updates that `_transition_status` writes: the new status, and its stage unless one is given.
unfoldable pub transition_updates : Status → Stage → List Update → List Update
unfolding status_text stage_for_status stage_text has_stage
transition_updates status stage extra =
    let with_status = extra ++ Update.status (status_text status) ∷ [] in
    if has_stage with_status
    then with_status
    else with_status ++ Update.lifecycle_stage (stage_text (stage_for_status status stage)) ∷ []

-- The payload of a lifecycle event.
unfoldable pub transition_payload : Status → Status → Dict → Dict
unfolding status_text merge
transition_payload current status payload =
    merge
      (entry "from_status" (text (status_text current)) (
        entry "to_status" (text (status_text status))
          (entry "policy" (text "ticket_lifecycle_v1") end)))
      payload

-- `_transition_status`.
unfoldable pub transition_status :
    String → String → String → String → List Update → Dict → Exec World Ticket
transition_status id new_status actor_id event_type extra payload = do
  current ← require_ticket id
  status ← lift (normalize_status new_status)
  assert_transition_allowed current.status status id
  updated ← Repository.update_ticket id (transition_updates status current.lifecycle_stage extra)
  append_event id event_type "agent" actor_id (transition_payload current.status status payload)
  pure updated

-- A metadata update is merged into the ticket's metadata.
unfoldable pub merge_metadata : Dict → List Update → List Update
unfolding merge
merge_metadata current [] = []
merge_metadata current (Update.metadata d ∷ updates) =
    Update.metadata (merge current d) ∷ merge_metadata current updates
merge_metadata current (u ∷ updates) = u ∷ merge_metadata current updates

-- The rest of `update_ticket` when the status does not change.
unfoldable pub plain_update : String → List Update → String → Exec World Ticket
plain_update id updates actor_id = do
  updated ← Repository.update_ticket id updates
  iso ← gets (λ (w : World). w.isoformat)
  append_event id "ticket_updated" "agent" actor_id
      (entry "updates" (obj (updates_json iso updates)) end)
  pure updated

-- The branches of `update_ticket` on the status that is asked for, if any.
unfoldable pub route_update :
    Option String → Ticket → String → List Update → String → Exec World Ticket
route_update none current id merged actor_id = plain_update id merged actor_id
route_update (some requested) current id merged actor_id =
    let others = without_status merged in
    if requested == status_text current.status
    then plain_update id others actor_id
    else transition_status id requested actor_id "ticket_status_changed" others
        (entry "requested_via" (text "update_ticket") end)

unfoldable pub update_ticket : String → List Update → String → Exec World Ticket
update_ticket id updates actor_id = do
  current ← require_ticket id
  ensure_not_closed current
  let merged = merge_metadata current.metadata updates
  route_update (status_update merged) current id merged actor_id
