-- ===== src/Core/Lifecycle/Merging.antt =====
-- The merge decisions of core/ticket_api.py keep to the lifecycle.
use support_agent_platform.Shared.{String, refl, arith, Dict}
use support_agent_platform.Storage.Models.{Ticket}
use support_agent_platform.Storage.Repository.{get_ticket}
use support_agent_platform.Core.TicketApi.{require_ticket, ensure_not_closed}
use support_agent_platform.Core.TicketActions.{add_event}
use support_agent_platform.Core.TicketMerge.{
  MergeCall, merge_into, keep_apart, timestamp, reject_same, accept_merge_suggestion,
  reject_merge_suggestion,
}
use support_agent_platform.Core.Lifecycle.{Keeps}
use support_agent_platform.Core.Lifecycle.Actions.{
  Keeps-frame, append_event-Keeps, close_ticket-Keeps,
}
use support_agent_platform.Core.Lifecycle.Programs.{program_rules}

pub require_ticket-Keeps : (id : String) → Keeps (require_ticket id)
unfolding require_ticket get_ticket
require_ticket-Keeps id = Keeps-frame (require_ticket id) (λ w. ground arith)

ensure_not_closed-Keeps : (t : Ticket) → Keeps (ensure_not_closed t)
unfolding ensure_not_closed
ensure_not_closed-Keeps t = Keeps-frame (ensure_not_closed t) (λ w. ground arith)

reject_same-Keeps : (a b : String) → Keeps (reject_same a b)
unfolding reject_same
reject_same-Keeps a b = Keeps-frame (reject_same a b) (λ w. ground arith)

timestamp-Keeps : Keeps timestamp
unfolding timestamp
timestamp-Keeps = Keeps-frame timestamp (λ w. refl)

pub add_event-Keeps :
    (id event_type actor_type actor_id : String) (payload : Dict)
    → Keeps (add_event id event_type actor_type actor_id payload)
unfolding add_event
add_event-Keeps = append_event-Keeps

merge_into-Keeps : (source target : Ticket) (c : MergeCall) → Keeps (merge_into source target c)
unfolding merge_into
merge_into-Keeps source target c =
    search (program_rules, timestamp-Keeps, close_ticket-Keeps, add_event-Keeps) depth 14

pub accept_merge_suggestion-Keeps : (c : MergeCall) → Keeps (accept_merge_suggestion c)
unfolding accept_merge_suggestion
accept_merge_suggestion-Keeps c =
    search
      (
        program_rules, require_ticket-Keeps, reject_same-Keeps, ensure_not_closed-Keeps,
        merge_into-Keeps,
      )
      depth 12

keep_apart-Keeps : (source : Ticket) (c : MergeCall) → Keeps (keep_apart source c)
unfolding keep_apart
keep_apart-Keeps source c = search (program_rules, timestamp-Keeps, add_event-Keeps) depth 10

pub reject_merge_suggestion-Keeps : (c : MergeCall) → Keeps (reject_merge_suggestion c)
unfolding reject_merge_suggestion
reject_merge_suggestion-Keeps c =
    search
      (
        program_rules, require_ticket-Keeps, reject_same-Keeps, ensure_not_closed-Keeps,
        keep_apart-Keeps,
      )
      depth 12
