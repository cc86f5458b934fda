-- ===== src/Core/TicketJson.antt =====
-- core/ticket_api.py: the JSON that the ticket API writes into its event payloads.
use support_agent_platform.Shared.{
  ℕ, String, Option, none, some, List, [], ◌∷◌, Value, Dict, null, bool, text, obj, end, entry,
}
use support_agent_platform.Shared.Str.{of_option}
use support_agent_platform.Storage.Models.{
  StoredTime, moment, written, Ticket, priority_text, status_text, stage_text,
}
use support_agent_platform.Storage.Columns.{Update}

-- A time that may be None, by its ISO text.
abbrev pub time_json : (ℕ → String) → Option ℕ → Value
time_json iso none = null
time_json iso (some t) = text (iso t)

-- A time of an update, as a moment or as the caller's text.
abbrev pub stored_time_json : (ℕ → String) → Option StoredTime → Value
stored_time_json iso none = null
stored_time_json iso (some (moment t)) = text (iso t)
stored_time_json iso (some (written s read)) = text s

-- `asdict(ticket)`, as `json.dumps` writes it.
unfoldable pub ticket_json : (ℕ → String) → Ticket → Dict
unfolding priority_text status_text stage_text
ticket_json iso t = entry "ticket_id" (text t.ticket_id) (
    entry "channel" (text t.channel) (
      entry "session_id" (text t.session_id) (
        entry "thread_id" (text t.thread_id) (
          entry "customer_id" (of_option t.customer_id) (
            entry "title" (text t.title) (
              entry "latest_message" (text t.latest_message) (
                entry "intent" (text t.intent) (
                  entry "priority" (text (priority_text t.priority)) (
                    entry "status" (text (status_text t.status)) (
                      entry "queue" (text t.queue) (
                        entry "assignee" (of_option t.assignee) (
                          entry "needs_handoff" (bool t.needs_handoff) (
                            entry "inbox" (text t.inbox) (
                              entry "lifecycle_stage" (text (stage_text t.lifecycle_stage)) (
                                entry "first_response_due_at"
                                  (time_json iso t.first_response_due_at)
                                  (entry "resolution_due_at" (time_json iso t.resolution_due_at) (
                                    entry "escalated_at" (time_json iso t.escalated_at) (
                                      entry "resolved_at" (time_json iso t.resolved_at) (
                                        entry "closed_at" (time_json iso t.closed_at) (
                                          entry "resolution_note" (of_option t.resolution_note) (
                                            entry "resolution_code" (of_option t.resolution_code) (
                                              entry "close_reason" (of_option t.close_reason) (
                                                entry "source_channel" (text t.source_channel) (
                                                  entry "handoff_state" (text t.handoff_state) (
                                                    entry "last_agent_action"
                                                      (of_option t.last_agent_action)
                                                      (entry "risk_level" (text t.risk_level) (
                                                        entry "metadata" (obj t.metadata) (
                                                          entry "created_at"
                                                            (text (iso t.created_at))
                                                            (entry "updated_at"
                                                            (text (iso t.updated_at))
                                                            end)))))))))))))))))))))))))))))

update_json : (ℕ → String) → Update → Dict → Dict
update_json iso (Update.title v) d = entry "title" (text v) d
update_json iso (Update.latest_message v) d = entry "latest_message" (text v) d
update_json iso (Update.intent v) d = entry "intent" (text v) d
update_json iso (Update.priority v) d = entry "priority" (text v) d
update_json iso (Update.status v) d = entry "status" (text v) d
update_json iso (Update.queue v) d = entry "queue" (text v) d
update_json iso (Update.inbox v) d = entry "inbox" (text v) d
update_json iso (Update.lifecycle_stage v) d = entry "lifecycle_stage" (text v) d
update_json iso (Update.source_channel v) d = entry "source_channel" (text v) d
update_json iso (Update.handoff_state v) d = entry "handoff_state" (text v) d
update_json iso (Update.risk_level v) d = entry "risk_level" (text v) d
update_json iso (Update.assignee v) d = entry "assignee" (of_option v) d
update_json iso (Update.resolution_note v) d = entry "resolution_note" (of_option v) d
update_json iso (Update.resolution_code v) d = entry "resolution_code" (of_option v) d
update_json iso (Update.close_reason v) d = entry "close_reason" (of_option v) d
update_json iso (Update.last_agent_action v) d = entry "last_agent_action" (of_option v) d
update_json iso (Update.first_response_due_at v) d =
    entry "first_response_due_at" (stored_time_json iso v) d
update_json iso (Update.resolution_due_at v) d =
    entry "resolution_due_at" (stored_time_json iso v) d
update_json iso (Update.escalated_at v) d = entry "escalated_at" (stored_time_json iso v) d
update_json iso (Update.resolved_at v) d = entry "resolved_at" (stored_time_json iso v) d
update_json iso (Update.closed_at v) d = entry "closed_at" (stored_time_json iso v) d
update_json iso (Update.needs_handoff v) d = entry "needs_handoff" (bool v) d
update_json iso (Update.metadata v) d = entry "metadata" (obj v) d
update_json iso (Update.other key) d = entry key null d

-- The dict of updates in the payload of `ticket_updated`.
unfoldable pub updates_json : (ℕ → String) → List Update → Dict
unfolding update_json
updates_json iso [] = end
updates_json iso (u ∷ updates) = update_json iso u (updates_json iso updates)
