-- ===== src/Core/Hitl/HandoffContext.antt =====
-- core/hitl/handoff_context.py: the context that a handoff or an approval carries.
use support_agent_platform.Shared.{
  String, Option, none, some, List, [], ◌∷◌, map, if◌then◌else◌, take, Value, Dict, text, arr, obj,
  end, entry, get, merge, truthy, to_items, Exec, pure, gets, ◌>>=◌,
}
use support_agent_platform.Shared.Text.{prefix}
use support_agent_platform.Shared.Str.{str, of_option}
use support_agent_platform.Storage.Models.{Ticket, priority_text, status_text}
use support_agent_platform.Storage.World.{World, now}
use support_agent_platform.Core.Hitl.PendingActions.{dict_of}

-- `item.get(key) or item.get(other)`, where it counts as true.
unfoldable pub if_truthy : Option Value → Option Value
unfolding truthy
if_truthy none = none
if_truthy (some v) = if truthy v then some v else none

unfoldable pub either : Option Value → Option Value → Option Value
unfolding if_truthy
either a b = elim (if_truthy a) [ none ↦ if_truthy b | some v ↦ some v ]

-- The texts of these, item by item.
unfoldable pub named : String → String → List Dict → List String
unfolding str either
named key other [] = []
named key other (d ∷ items) =
    let rest = named key other items in
    elim (either (get key d) (get other d)) [ none ↦ rest | some v ↦ str v ∷ rest ]

abbrev texts : List String → Value
texts xs = arr (to_items (map text xs))

unfoldable pub build_handoff_context :
    Ticket → String → List Dict → List Dict → List String → Dict → Exec World Dict
unfolding named prefix priority_text status_text
build_handoff_context t summary recommended_actions grounding_sources trace_events llm_trace = do
  time ← now
  iso ← gets (λ (w : World). w.isoformat)
  pure (
      entry "ticket_id" (text t.ticket_id) (
        entry "captured_at" (text (iso time)) (
          entry "intent" (text t.intent) (
            entry "queue" (text t.queue) (
              entry "priority" (text (priority_text t.priority)) (
                entry "risk_level" (text t.risk_level) (
                  entry "status" (text (status_text t.status)) (
                    entry "summary" (text (prefix 300 summary)) (
                      entry "recommended_actions"
                        (texts (take 5 (named "title" "action" recommended_actions)))
                        (entry "grounding_source_ids"
                          (texts (take 5 (named "source_id" "doc_id" grounding_sources)))
                          (entry "trace_events" (texts (take 10 trace_events))
                            (entry "llm_trace" (obj llm_trace) end))))))))))))

unfoldable pub extract_handoff_context : Ticket → Dict
extract_handoff_context t = dict_of (get "handoff_context" t.metadata)

unfoldable pub build_approval_context : Ticket → String → Option String → Dict → Dict
unfolding extract_handoff_context merge
build_approval_context t action_type command_line payload = merge (extract_handoff_context t) (
    entry "requested_action" (text action_type) (
      entry "resume_handoff_state" (text t.handoff_state) (
        entry "command_line" (of_option command_line) (entry "payload_preview" (obj payload) end))))
