-- ===== src/Core/KeepsRules.antt =====
-- Rules by which a program of calls of core/ticket_api.py keeps to the lifecycle.
use support_agent_platform.Shared.{String, refl}
use support_agent_platform.Storage.EventLog
use support_agent_platform.Core.TicketActions.{list_events}
use support_agent_platform.Core.Lifecycle.{Keeps}
use support_agent_platform.Core.Lifecycle.Actions.{
  Keeps-frame, update_ticket-Keeps, assign_ticket-Keeps, resolve_ticket-Keeps,
  escalate_ticket-Keeps, close_ticket-Keeps,
}
use support_agent_platform.Core.Lifecycle.Creation.{create_ticket-Keeps, bind_session_ticket-Keeps}
use support_agent_platform.Core.Lifecycle.Merging.{add_event-Keeps, require_ticket-Keeps}
use support_agent_platform.Core.Lifecycle.Programs.{
  pure-Keeps, Keeps-then, Keeps-if, Keeps-result, Keeps-fails, Keeps-get, Keeps-now, program_rules,
}

pub list_events-Keeps : (id : String) → Keeps (list_events id)
unfolding list_events EventLog.list_events
list_events-Keeps id = Keeps-frame (list_events id) (λ w. refl)

pub ruleset keeps_rules = (
  program_rules, assign_ticket-Keeps, resolve_ticket-Keeps, escalate_ticket-Keeps,
  close_ticket-Keeps, add_event-Keeps, require_ticket-Keeps, list_events-Keeps, create_ticket-Keeps,
  bind_session_ticket-Keeps,
)
