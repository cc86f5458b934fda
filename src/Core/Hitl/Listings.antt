-- ===== src/Core/Hitl/Listings.antt =====
-- core/hitl/approval_runtime.py: the listings of approvals keep to the lifecycle of tickets.
use support_agent_platform.Shared.{
  String, refl, Option, none, some, List, [], ◌∷◌, arith, ◌==◌, Exec, pure, raise,
}
use support_agent_platform.Storage.Models.{Ticket}
use support_agent_platform.Storage.World.{World}
use support_agent_platform.Storage.Repository
use support_agent_platform.Core.TicketApi.{require_ticket}
use support_agent_platform.Core.Lifecycle.{Keeps, Keeps-bind}
use support_agent_platform.Core.Lifecycle.Actions.{Keeps-frame}
use support_agent_platform.Core.Lifecycle.Merging.{require_ticket-Keeps}
use support_agent_platform.Core.Hitl.PendingActions.{PendingAction, find_action}
use support_agent_platform.Core.Hitl.Timeouts.{
  scan_tickets, refresh_actions, collect_pending, tickets_of, list_pending_actions,
  list_ticket_actions, search_action, get_pending_action,
}
use support_agent_platform.Core.Hitl.ApprovalRuntime.{reject_decided}
use support_agent_platform.Core.Hitl.Keeping.{
  load_pending_actions-Keeps, apply_timeouts-Keeps, refresh_actions-Keeps,
}
use support_agent_platform.Core.Lifecycle.Programs.{pure-Keeps, Keeps-if, program_rules}

scan_tickets-Keeps : Keeps scan_tickets
unfolding scan_tickets Repository.list_tickets
scan_tickets-Keeps = Keeps-frame scan_tickets (λ w. refl)

collect_pending-Keeps : (tickets : List Ticket) → Keeps (collect_pending tickets)
unfolding collect_pending
collect_pending-Keeps [] = pure-Keeps []
collect_pending-Keeps (t ∷ tickets) =
    Keeps-bind (refresh_actions t) _ (refresh_actions-Keeps t) λ r.
      Keeps-bind (collect_pending tickets) _ (collect_pending-Keeps tickets) λ rest. pure-Keeps _

tickets_of-Keeps : (id : Option String) → Keeps (tickets_of id)
unfolding tickets_of
tickets_of-Keeps none = scan_tickets-Keeps
tickets_of-Keeps (some id) =
    Keeps-if (id == "") _ _ scan_tickets-Keeps
      (Keeps-bind (require_ticket id) _ (require_ticket-Keeps id) λ t. pure-Keeps _)

pub list_pending_actions-Keeps : (id : Option String) → Keeps (list_pending_actions id)
unfolding list_pending_actions
list_pending_actions-Keeps id = search (program_rules, tickets_of-Keeps, collect_pending-Keeps)

search_action-Keeps : (id : String) (tickets : List Ticket) → Keeps (search_action id tickets)
unfolding search_action
search_action-Keeps id [] = Keeps-frame (raise _) (λ w. refl)
search_action-Keeps id (t ∷ tickets) =
    Keeps-bind (refresh_actions t) next (refresh_actions-Keeps t)
      (λ r. go (search_action-Keeps id tickets) r (find_action r.1 id))
  where
    next : Ticket × List PendingAction → Exec World (Ticket × PendingAction)
    next r = elim (find_action r.1 id) [ none ↦ search_action id tickets | some a ↦ pure (r.0, a) ]

    go :
        Keeps (search_action id tickets)
        → (r : Ticket × List PendingAction) (o : Option PendingAction)
        → Keeps (elim o as (λ _. Exec World (Ticket × PendingAction)) [
          | none ↦ search_action id tickets
          | some a ↦ pure (r.0, a)
        ])
    go h r none = h
    go h r (some a) = pure-Keeps (r.0, a)

pub get_pending_action-Keeps : (id : String) → Keeps (get_pending_action id)
unfolding get_pending_action
get_pending_action-Keeps id = search (program_rules, scan_tickets-Keeps, search_action-Keeps)

pub reject_decided-Keeps : (a : PendingAction) (id : String) → Keeps (reject_decided a id)
unfolding reject_decided
reject_decided-Keeps a id = Keeps-frame (reject_decided a id) (λ w. ground arith)

pub list_ticket_actions-Keeps : (id : String) → Keeps (list_ticket_actions id)
unfolding list_ticket_actions
list_ticket_actions-Keeps id =
    search (program_rules, require_ticket-Keeps, apply_timeouts-Keeps, load_pending_actions-Keeps)
      depth 8
