-- ===== src/Core/Hitl/Keeping.antt =====
-- The operations of core/hitl/approval_runtime.py keep to the lifecycle of tickets.
use support_agent_platform.Shared.{
  ℕ, String, Option, none, some, List, [], ◌∷◌, arith, Value, Dict, obj, get, Result, ok, pure,
}
use support_agent_platform.Storage.Models.{Ticket}
use support_agent_platform.Storage.World.{World, now}
use support_agent_platform.Core.Lifecycle.{Evolves, Keeps, Keeps-bind}
use support_agent_platform.Core.Lifecycle.Actions.{Keeps-frame}
use support_agent_platform.Core.Lifecycle.Merging.{require_ticket-Keeps, add_event-Keeps}
use support_agent_platform.Core.Hitl.PendingActions.{
  PendingAction, time_or_now, parse_pending_action, parse_actions, load_pending_actions, elements,
}
use support_agent_platform.Core.Hitl.Timeouts.{
  expire, last_expired, write_timeouts, time_out, time_out_loaded, apply_timeouts, refresh_actions,
}
use support_agent_platform.Core.Lifecycle.Programs.{pure-Keeps, Keeps-if, Keeps-now, program_rules}

time_or_now-Keeps : (v : Option Value) → Keeps (time_or_now v)
unfolding time_or_now
time_or_now-Keeps v = Keeps-frame (time_or_now v) (λ w. ground arith)

parse_pending_action-Keeps : (raw : Dict) (id : String) → Keeps (parse_pending_action raw id)
unfolding parse_pending_action
parse_pending_action-Keeps raw id = Keeps-if _ (pure none) _ (pure-Keeps none) (
    Keeps-bind (time_or_now (get "requested_at" raw)) _ (time_or_now-Keeps _) λ requested_at.
      Keeps-bind (time_or_now (get "timeout_at" raw)) _ (time_or_now-Keeps _)
        λ timeout_at. pure-Keeps _)

parse_actions-Keeps : (values : List Value) (id : String) → Keeps (parse_actions values id)
unfolding parse_actions
parse_actions-Keeps [] id = pure-Keeps []
parse_actions-Keeps (obj raw ∷ values) id =
    Keeps-bind (parse_pending_action raw id) _ (parse_pending_action-Keeps raw id) λ parsed.
      Keeps-bind (parse_actions values id) _ (parse_actions-Keeps values id) λ rest. pure-Keeps _
parse_actions-Keeps (v ∷ values) id = parse_actions-Keeps values id

pub load_pending_actions-Keeps : (t : Ticket) → Keeps (load_pending_actions t)
unfolding load_pending_actions
load_pending_actions-Keeps t =
    parse_actions-Keeps (elements (get "pending_actions" t.metadata)) t.ticket_id

write_timeouts-Keeps :
    (t : Ticket) (actions : List PendingAction) (latest : PendingAction)
    → Keeps (write_timeouts t actions latest)
unfolding write_timeouts
write_timeouts-Keeps t actions latest = search (program_rules, add_event-Keeps) depth 8

time_out-Keeps :
    (t : Ticket) (actions : List PendingAction) (time : ℕ) → Keeps (time_out t actions time)
unfolding time_out
time_out-Keeps t actions time = record { at = λ w. go w (last_expired w time actions) }
  where
    go :
        (w : World) (o : Option PendingAction)
        → Evolves w
            (elim o as (λ _. Result {0} Unit × World) [
              | none ↦ (ok tt, w)
              | some latest ↦ write_timeouts t (expire w time actions) latest w
            ]).1
    go w none = (pure-Keeps tt).at w
    go w (some latest) = (write_timeouts-Keeps t (expire w time actions) latest).at w

time_out_loaded-Keeps :
    (t : Ticket) (actions : List PendingAction) → Keeps (time_out_loaded t actions)
unfolding time_out_loaded
time_out_loaded-Keeps t [] = pure-Keeps tt
time_out_loaded-Keeps t (a ∷ actions) = Keeps-bind now _ Keeps-now (time_out-Keeps t (a ∷ actions))

pub apply_timeouts-Keeps : (t : Ticket) → Keeps (apply_timeouts t)
unfolding apply_timeouts
apply_timeouts-Keeps t = search (program_rules, load_pending_actions-Keeps, time_out_loaded-Keeps)

pub refresh_actions-Keeps : (t : Ticket) → Keeps (refresh_actions t)
unfolding refresh_actions
refresh_actions-Keeps t =
    search (program_rules, apply_timeouts-Keeps, require_ticket-Keeps, load_pending_actions-Keeps)
      depth 8
