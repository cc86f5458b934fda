-- ===== src/Core/Typed/Operations.antt =====
-- core/ticket_api.py: transitions and updates write literals only, where their arguments are.
use support_agent_platform.Shared.{
  String, refl, inl, inr, Option, none, some, List, [], ◌∷◌, ◌++◌, arith, ◌==◌, Bool-cases, Dict,
  Result, pure, gets, lift,
}
use support_agent_platform.Shared.Elements.{All, All-append}
use support_agent_platform.Storage.Models.{
  Ticket, Priority, Status, Stage, status_text, stage_text, priority_text,
}
use support_agent_platform.Storage.World.{World}
use support_agent_platform.Storage.Columns.{Update, without_status, has_stage}
use support_agent_platform.Storage.Repository.{get_ticket}
use support_agent_platform.Storage.EventLog.{append_event}
use support_agent_platform.Storage.Literals.{
  parse_status-status_text, parse_stage-stage_text, parse_priority-priority_text,
}
use support_agent_platform.Core.TicketApi.{
  require_ticket, ensure_not_closed, assert_transition_allowed, stage_for_status,
  transition_updates, transition_status, merge_metadata, plain_update, route_update, update_ticket,
}
use support_agent_platform.Core.Lifecycle.Transition.{tickets-append_event}
use support_agent_platform.Core.Typed.{
  IsTyped, IsLiteral, KeepsTyped, KeepsTyped-bind, KeepsTyped-then, KeepsTyped-frame,
  now-KeepsTyped, update_ticket-literal, create_ticket-typed,
}

pub pure-KeepsTyped : {A : Type 0} (a : A) → KeepsTyped (pure a)
pure-KeepsTyped a = KeepsTyped-frame (pure a) (λ w. refl)

pub gets-KeepsTyped : {A : Type 0} (f : World → A) → KeepsTyped (gets f)
gets-KeepsTyped f = KeepsTyped-frame (gets f) (λ w. refl)

pub lift-KeepsTyped : {A : Type 0} (r : Result A) → KeepsTyped (lift r)
lift-KeepsTyped r = KeepsTyped-frame (lift r) (λ w. refl)

pub append_event-KeepsTyped :
    (id event_type actor_type actor_id : String) (payload : Dict)
    → KeepsTyped (append_event id event_type actor_type actor_id payload)
append_event-KeepsTyped id event_type actor_type actor_id payload =
    KeepsTyped-frame _ (tickets-append_event id event_type actor_type actor_id payload)

pub require_ticket-KeepsTyped : (id : String) → KeepsTyped (require_ticket id)
unfolding require_ticket get_ticket
require_ticket-KeepsTyped id = KeepsTyped-frame (require_ticket id) (λ w. ground arith)

pub ensure_not_closed-KeepsTyped : (t : Ticket) → KeepsTyped (ensure_not_closed t)
unfolding ensure_not_closed
ensure_not_closed-KeepsTyped t = KeepsTyped-frame (ensure_not_closed t) (λ w. ground arith)

pub assert_transition_allowed-KeepsTyped :
    (s t : Status) (id : String) → KeepsTyped (assert_transition_allowed s t id)
unfolding assert_transition_allowed
assert_transition_allowed-KeepsTyped s t id =
    KeepsTyped-frame (assert_transition_allowed s t id) (λ w. ground arith)

pub transition_updates-IsLiteral :
    (s : Status) (l : Stage) (extra : List Update)
    → All IsLiteral extra
    → All IsLiteral (transition_updates s l extra)
unfolding transition_updates
transition_updates-IsLiteral s l extra h =
    let k =
      All-append IsLiteral extra (Update.status (status_text s) ∷ []) h
        ((s, parse_status-status_text s), tt) in
    elim (Bool-cases (has_stage (extra ++ Update.status (status_text s) ∷ []))) [
      | inl e ↦ rw e k
      | inr e ↦ rw e (
          All-append IsLiteral _ (Update.lifecycle_stage (stage_text (stage_for_status s l)) ∷ []) k
            ((stage_for_status s l, parse_stage-stage_text (stage_for_status s l)), tt))
    ]

pub ruleset typed_rules = (
  KeepsTyped-bind, KeepsTyped-then, pure-KeepsTyped, gets-KeepsTyped, lift-KeepsTyped,
  append_event-KeepsTyped, require_ticket-KeepsTyped, ensure_not_closed-KeepsTyped,
  assert_transition_allowed-KeepsTyped, now-KeepsTyped, update_ticket-literal,
  transition_updates-IsLiteral,
)

pub transition_status-KeepsTyped :
    (id new_status actor_id event_type : String) (extra : List Update) (payload : Dict)
    → All IsLiteral extra
    → KeepsTyped (transition_status id new_status actor_id event_type extra payload)
unfolding transition_status
transition_status-KeepsTyped id new_status actor_id event_type extra payload h =
    search typed_rules depth 14

merge_metadata-IsLiteral :
    (d : Dict) (us : List Update) → All IsLiteral us → All IsLiteral (merge_metadata d us)
unfolding merge_metadata
merge_metadata-IsLiteral d [] h = tt
merge_metadata-IsLiteral d (Update.priority v ∷ us) h = (h.0, merge_metadata-IsLiteral d us h.1)
merge_metadata-IsLiteral d (Update.status v ∷ us) h = (h.0, merge_metadata-IsLiteral d us h.1)
merge_metadata-IsLiteral d (Update.lifecycle_stage v ∷ us) h =
    (h.0, merge_metadata-IsLiteral d us h.1)
merge_metadata-IsLiteral d (Update.first_response_due_at v ∷ us) h =
    (h.0, merge_metadata-IsLiteral d us h.1)
merge_metadata-IsLiteral d (Update.resolution_due_at v ∷ us) h =
    (h.0, merge_metadata-IsLiteral d us h.1)
merge_metadata-IsLiteral d (Update.escalated_at v ∷ us) h = (h.0, merge_metadata-IsLiteral d us h.1)
merge_metadata-IsLiteral d (Update.resolved_at v ∷ us) h = (h.0, merge_metadata-IsLiteral d us h.1)
merge_metadata-IsLiteral d (Update.closed_at v ∷ us) h = (h.0, merge_metadata-IsLiteral d us h.1)
merge_metadata-IsLiteral d (_ ∷ us) h = (tt, merge_metadata-IsLiteral d us h.1)

without_status-IsLiteral : (us : List Update) → All IsLiteral us → All IsLiteral (without_status us)
unfolding without_status
without_status-IsLiteral [] h = tt
without_status-IsLiteral (Update.priority v ∷ us) h = (h.0, without_status-IsLiteral us h.1)
without_status-IsLiteral (Update.status v ∷ us) h = without_status-IsLiteral us h.1
without_status-IsLiteral (Update.lifecycle_stage v ∷ us) h = (h.0, without_status-IsLiteral us h.1)
without_status-IsLiteral (Update.first_response_due_at v ∷ us) h =
    (h.0, without_status-IsLiteral us h.1)
without_status-IsLiteral (Update.resolution_due_at v ∷ us) h =
    (h.0, without_status-IsLiteral us h.1)
without_status-IsLiteral (Update.escalated_at v ∷ us) h = (h.0, without_status-IsLiteral us h.1)
without_status-IsLiteral (Update.resolved_at v ∷ us) h = (h.0, without_status-IsLiteral us h.1)
without_status-IsLiteral (Update.closed_at v ∷ us) h = (h.0, without_status-IsLiteral us h.1)
without_status-IsLiteral (_ ∷ us) h = (tt, without_status-IsLiteral us h.1)

plain_update-KeepsTyped :
    (id : String) (us : List Update) (actor_id : String)
    → All IsLiteral us
    → KeepsTyped (plain_update id us actor_id)
unfolding plain_update
plain_update-KeepsTyped id us actor_id h = search typed_rules depth 14

route_update-KeepsTyped :
    (requested : Option String) (t : Ticket) (id : String) (us : List Update) (actor_id : String)
    → All IsLiteral us
    → KeepsTyped (route_update requested t id us actor_id)
unfolding route_update
route_update-KeepsTyped none t id us actor_id h = plain_update-KeepsTyped id us actor_id h
route_update-KeepsTyped (some requested) t id us actor_id h =
    let k = without_status-IsLiteral us h in
    elim (Bool-cases (requested == status_text t.status)) [
      | inl e ↦ rw e (plain_update-KeepsTyped id (without_status us) actor_id k)
      | inr e ↦ rw e (transition_status-KeepsTyped id requested actor_id _ (without_status us) _ k)
    ]

pub priority_text-IsLiteral : (p : Priority) → IsLiteral (Update.priority (priority_text p))
priority_text-IsLiteral p = (p, parse_priority-priority_text p)

pub stage_text-IsLiteral : (l : Stage) → IsLiteral (Update.lifecycle_stage (stage_text l))
stage_text-IsLiteral l = (l, parse_stage-stage_text l)

pub update_ticket-KeepsTyped :
    (id : String) (us : List Update) (actor_id : String)
    → All IsLiteral us
    → KeepsTyped (update_ticket id us actor_id)
unfolding update_ticket
update_ticket-KeepsTyped id us actor_id h =
    search (typed_rules, route_update-KeepsTyped, merge_metadata-IsLiteral) depth 12
