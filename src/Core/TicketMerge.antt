-- ===== src/Core/TicketMerge.antt =====
-- core/ticket_api.py: the decisions on merge suggestions, and the reads of a ticket's metadata.
use support_agent_platform.Shared.{
  String, ◌<>◌, Option, none, some, List, [], ◌∷◌, ◌++◌, map, ◌==◌, if◌then◌else◌, take_last,
  contains, Value, Dict, text, arr, obj, end, entry, get, put, of_items, to_items, ok, err,
  value_error, Exec, pure, gets, ◌>>=◌, ◌>>◌,
}
use support_agent_platform.Shared.Str.{of_option, nonblank_texts, dicts}
use support_agent_platform.Storage.Models.{Ticket}
use support_agent_platform.Storage.World.{World, now}
use support_agent_platform.Storage.Columns.{Update}
use support_agent_platform.Core.TicketApi.{require_ticket, ensure_not_closed, update_ticket}
use support_agent_platform.Core.TicketActions.{close_ticket, add_event}

-- The arguments of a decision.
pub record MergeCall : Type 0 where
  pub ticket_id : String
  pub target_ticket_id : String
  pub actor_id : String
  pub trace_id : Option String
  pub note : Option String

-- `merge_record`; the time is its ISO text.
unfoldable pub merge_record : String → String → String → MergeCall → String → Dict
merge_record state source target c decided_at = entry "state" (text state) (
    entry "source_ticket_id" (text source) (
      entry "target_ticket_id" (text target) (
        entry "actor_id" (text c.actor_id) (
          entry "trace_id" (of_option c.trace_id)
            (entry "note" (of_option c.note) (entry "decided_at" (text decided_at) end))))))

-- The elements of a value that is a list, and none of any other.
unfoldable pub list_of : Option Value → List Value
list_of (some (arr items)) = of_items items
list_of _ = []

-- `_append_merge_history`: the last twenty records.
unfoldable pub append_merge_history : Dict → Dict → List Value
append_merge_history metadata record' =
    take_last 20 (dicts (list_of (get "merge_history" metadata)) ++ obj record' ∷ [])

-- A record put at the end of the history, and as the last one.
unfoldable pub recorded : Dict → Dict → Dict
recorded metadata record' =
    put "merge_history" (arr (to_items (append_merge_history metadata record')))
      (put "merge_last_record" (obj record') metadata)

-- The list of merged tickets, with the source in it.
unfoldable pub merged_ids : Dict → String → List String
merged_ids metadata source =
    let known = nonblank_texts (list_of (get "merged_ticket_ids" metadata)) in
    if contains known source then known else known ++ source ∷ []

-- `recorded` reads the history of its argument, which the entries written before it leave.
unfoldable pub accepted_source : Dict → String → Dict → Dict
accepted_source metadata target record' =
    recorded
      (put "merge_state" (text "accepted") (put "merged_into_ticket_id" (text target) metadata))
      record'

unfoldable pub accepted_target : Dict → String → Dict → Dict
accepted_target metadata source record' =
    recorded
      (put "merged_ticket_ids" (arr (to_items (map text (merged_ids metadata source)))) metadata)
      record'

unfoldable pub reject_same : String → String → Exec World Unit
reject_same source target w =
    if source == target
    then (err (value_error "target_ticket_id must be different from ticket_id"), w)
    else (ok tt, w)

unfoldable pub timestamp : Exec World String
timestamp = do time ← now; gets (λ (w : World). w.isoformat time)

-- The writes of an accepted suggestion, behind its checks.
unfoldable pub merge_into : Ticket → Ticket → MergeCall → Exec World Ticket
merge_into source target c = do
  decided_at ← timestamp
  let record' = merge_record "accepted" source.ticket_id target.ticket_id c decided_at
  merged_source ←
      close_ticket source.ticket_id c.actor_id ("Merged into " <> target.ticket_id) (record {
        close_reason = some "duplicate_merge";
        resolution_code = some "duplicate_merge";
        handoff_state = none;
        metadata = some (accepted_source source.metadata target.ticket_id record');
      })
  add_event source.ticket_id "merge_suggestion_accepted" "agent" c.actor_id record'
  update_ticket target.ticket_id
      (Update.metadata (accepted_target target.metadata source.ticket_id record') ∷ []) c.actor_id
  add_event target.ticket_id "duplicate_merged_in" "agent" c.actor_id record'
  pure merged_source

unfoldable pub accept_merge_suggestion : MergeCall → Exec World Ticket
unfolding reject_same
accept_merge_suggestion c = do
  source ← require_ticket c.ticket_id
  target ← require_ticket c.target_ticket_id
  reject_same source.ticket_id target.ticket_id
  ensure_not_closed source
  ensure_not_closed target
  merge_into source target c

unfoldable pub rejected_source : Dict → Dict → Dict
rejected_source metadata record' = recorded (put "merge_state" (text "rejected") metadata) record'

-- The writes of a rejected suggestion, behind its checks.
unfoldable pub keep_apart : Ticket → MergeCall → Exec World Ticket
keep_apart source c = do
  decided_at ← timestamp
  let record' = merge_record "rejected" source.ticket_id c.target_ticket_id c decided_at
  updated ←
      update_ticket source.ticket_id
        (Update.metadata (rejected_source source.metadata record') ∷ []) c.actor_id
  add_event source.ticket_id "merge_suggestion_rejected" "agent" c.actor_id record'
  pure updated

unfoldable pub reject_merge_suggestion : MergeCall → Exec World Ticket
unfolding reject_same
reject_merge_suggestion c = do
  source ← require_ticket c.ticket_id
  reject_same source.ticket_id c.target_ticket_id
  ensure_not_closed source
  keep_apart source c

-- `pending_actions`.
unfoldable pub pending_actions : String → Exec World (List Value)
pending_actions id = do
  ticket ← require_ticket id
  pure (dicts (list_of (get "pending_actions" ticket.metadata)))
