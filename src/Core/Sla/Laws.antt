-- ===== src/Core/Sla/Laws.antt =====
-- core/sla_engine.py: what an evaluation and a policy promise.
use support_agent_platform.Shared.{
  ℕ, ◌+◌, ◌*◌, ◌≤◌, ◌<◌, String, ◌≡◌, refl, sym, ◌≢◌, ◌↔◌, inl, inr, Bool, true, false, not, ◌&&◌,
  false≢true, List, [], ◌∷◌, ◌++◌, arith, ◌==◌, eq_iff, ltb, if◌then◌else◌, Bool-cases, ne_of_test,
  test_of_ne, ==_refl, some_of, contains,
}
use support_agent_platform.Storage.Models.{Ticket, TicketEvent, Status}
use support_agent_platform.Shared.Elements.{All}
use support_agent_platform.Core.Sla.Rules.{SlaRule}
use support_agent_platform.Core.Sla.Engine.{
  SlaEngine, SlaCheckResult, select_from, first_due, resolution_due, first_response_done,
  is_resolved, breaches, add_targets, escalation_targets, evaluate,
}
use support_agent_platform.Core.Sla.Choice.{Chosen, select_from-Chosen}

-- Whether some breach is one that escalates.
abbrev pub escalates : SlaRule → List String → Bool
escalates rule items = some_of (contains rule.escalate_on_breaches) items

add_targets-there :
    (rule : SlaRule) (items : List String)
    → add_targets rule (rule.escalation_target ∷ []) items ≡ rule.escalation_target ∷ []
unfolding add_targets
add_targets-there rule [] = refl
add_targets-there rule (b ∷ items) = elim (Bool-cases (contains rule.escalate_on_breaches b)) [
  | inl e ↦ rw (e, ==_refl) (add_targets-there rule items)
  | inr e ↦ rw e (add_targets-there rule items)
]

add_targets-none :
    (rule : SlaRule) (items : List String)
    → add_targets rule [] items ≡ (if escalates rule items then rule.escalation_target ∷ [] else [])
unfolding add_targets
add_targets-none rule [] = refl
add_targets-none rule (b ∷ items) = elim (Bool-cases (contains rule.escalate_on_breaches b)) [
  | inl e ↦ rw e (add_targets-there rule items)
  | inr e ↦ rw e (add_targets-none rule items)
]

-- No event is a first response.
abbrev pub Unanswered : List TicketEvent → Type 0
Unanswered events =
    All
      (λ (e : TicketEvent).
        (e.event_type ≢ "assigned")
        × ((e.event_type ≢ "reassigned")
            × ((e.event_type ≢ "agent_reply") × (e.event_type ≢ "ticket_assigned"))))
      events

-- The result is that of a rule: its identifier; the ticket's creation and the rule's minutes, as both
-- due times; the first response as overdue exactly if there was none and its time is over; the
-- resolution exactly if the ticket is neither resolved nor closed and its time is over; and the rule's
-- target alone, exactly if it is not empty and some breach escalates.
pub record Follows (rule : SlaRule) (t : Ticket) (events : List TicketEvent) (time : ℕ)
    (result : SlaCheckResult) : Type 0 where
  pub rule_id : result.matched_rule_id ≡ rule.rule_id
  pub first_response :
      result.first_response_due_at ≡ t.created_at + rule.first_response_minutes * 60000000
  pub resolution : result.resolution_due_at ≡ t.created_at + rule.resolution_minutes * 60000000
  pub first_late : Bool
  pub resolution_late : Bool
  pub breached :
      result.breached_items
      ≡ (if first_late then "first_response_overdue" ∷ [] else [])
        ++ (if resolution_late then "resolution_overdue" ∷ [] else [])
  pub first_rule :
      (first_late ≡ true)
      ↔ (Unanswered events × (t.created_at + rule.first_response_minutes * 60000000 < time))
  pub resolution_rule : (resolution_late ≡ true) ↔ (
      (t.status ≢ Status.resolved)
      × ((t.status ≢ Status.closed) × (t.created_at + rule.resolution_minutes * 60000000 < time)))
  pub targets : result.escalation_targets ≡ (
      if not (rule.escalation_target == "") && escalates rule result.breached_items
      then rule.escalation_target ∷ []
      else [])

no_response : (events : List TicketEvent) → first_response_done events ≡ false → Unanswered events
no_response [] h = tt
no_response (e ∷ events) h = (
  (
    ne_of_test e.event_type "assigned"
        (ground (arith, eq_iff "assigned" e.event_type, eq_iff e.event_type "assigned")),
    (
      ne_of_test e.event_type "reassigned"
          (ground (arith, eq_iff "reassigned" e.event_type, eq_iff e.event_type "reassigned")),
      (
        ne_of_test e.event_type "agent_reply"
            (ground (arith, eq_iff "agent_reply" e.event_type, eq_iff e.event_type "agent_reply")),
        ne_of_test e.event_type "ticket_assigned" (
            ground (
              arith,
              eq_iff "ticket_assigned" e.event_type,
              eq_iff e.event_type "ticket_assigned",
            )),
      ),
    ),
  ),
  no_response events (ground arith),
)

response_test : (events : List TicketEvent) → Unanswered events → first_response_done events ≡ false
response_test [] u = refl
response_test (e ∷ events) u =
    let rest = response_test events u.1 in
    rw
      (
        test_of_ne "assigned" e.event_type (λ p. u.0.0 (sym p)),
        test_of_ne "reassigned" e.event_type (λ p. u.0.1.0 (sym p)),
        test_of_ne "agent_reply" e.event_type (λ p. u.0.1.1.0 (sym p)),
        test_of_ne "ticket_assigned" e.event_type (λ p. u.0.1.1.1 (sym p)),
      )
      rest

Unanswered-test :
    (events : List TicketEvent) → (first_response_done events ≡ false) ↔ Unanswered events
Unanswered-test events = (no_response events, response_test events)

targets_of :
    (rule : SlaRule) (items : List String)
    → escalation_targets rule items ≡ (
        if not (rule.escalation_target == "") && escalates rule items
        then rule.escalation_target ∷ []
        else [])
unfolding escalation_targets
targets_of rule items = elim (Bool-cases (rule.escalation_target == "")) [
  | inl e ↦ rw e refl
  | inr e ↦ rw e (add_targets-none rule items)
]

first_rule_of :
    (rule : SlaRule) (t : Ticket) (events : List TicketEvent) (time : ℕ)
    → ((not (first_response_done events) && ltb (first_due rule t) time) ≡ true)
      ↔ (Unanswered events × (t.created_at + rule.first_response_minutes * 60000000 < time))
first_rule_of rule t events time = (
  λ h. ((Unanswered-test events).0 (ground arith), ground arith),
  λ h. let e = (Unanswered-test events).1 h.0 in let late = h.1 in ground arith,
)

unresolved : (s : Status) → (is_resolved s ≡ false) ↔ ((s ≢ Status.resolved) × (s ≢ Status.closed))
unresolved Status.resolved = (λ h. absurd (false≢true (sym h)), λ h. absurd (h.0 refl))
unresolved Status.closed = (λ h. absurd (false≢true (sym h)), λ h. absurd (h.1 refl))
unresolved _ = (λ h. (λ e. cc, λ e. cc), λ h. refl)

resolution_rule_of :
    (rule : SlaRule) (t : Ticket) (time : ℕ)
    → ((not (is_resolved t.status) && ltb (resolution_due rule t) time) ≡ true) ↔ (
        (t.status ≢ Status.resolved)
        × ((t.status ≢ Status.closed) × (t.created_at + rule.resolution_minutes * 60000000 < time)))
resolution_rule_of rule t time = (
  λ h. let open_ = (unresolved t.status).0 (ground arith) in (open_.0, (open_.1, ground arith)),
  λ h. let e = (unresolved t.status).1 (h.0, h.1.0) in let late = h.1.1 in ground arith,
)

-- An evaluation follows the first override whose scope takes the ticket, or the fallback rule where
-- none does: the identifier is that rule's, and both due times are its minutes after the creation. The
-- first response is reported exactly where none of the four events of a response is there and its
-- time is over, and the resolution exactly where the ticket is neither resolved nor closed and its
-- time is over, in this order. The only target is the rule's, there exactly where it is not empty and
-- some breach escalates.
pub evaluate-Follows :
    (engine : SlaEngine) (t : Ticket) (events : List TicketEvent) (time : ℕ)
    → (rule : SlaRule) × (Chosen t engine.fallback_rule engine.override_rules rule
        × Follows rule t events time (evaluate engine t events time))
unfolding evaluate breaches
evaluate-Follows engine t events time =
    let rule = (select_from 0 engine.override_rules engine.fallback_rule t).0 in
    (
      rule,
      (
        select_from-Chosen 0 engine.override_rules engine.fallback_rule t,
        record {
          rule_id = refl;
          first_response = refl;
          resolution = refl;
          first_late = not (first_response_done events) && ltb (first_due rule t) time;
          resolution_late = not (is_resolved t.status) && ltb (resolution_due rule t) time;
          breached = refl;
          first_rule = first_rule_of rule t events time;
          resolution_rule = resolution_rule_of rule t time;
          targets = targets_of rule (breaches rule t events time);
        },
      ),
    )

overdue-later :
    (done : Bool) (due v w : ℕ)
    → v ≤ w
    → (not done && ltb due v) ≡ true
    → (not done && ltb due w) ≡ true
overdue-later done due v w h c = ground arith

contains-two :
    (a b c d : Bool) (x y s : String)
    → (a ≡ true → c ≡ true)
    → (b ≡ true → d ≡ true)
    → contains ((if a then x ∷ [] else []) ++ (if b then y ∷ [] else [])) s ≡ true
    → contains ((if c then x ∷ [] else []) ++ (if d then y ∷ [] else [])) s ≡ true
contains-two true true c d x y s h k e = rw (h refl, k refl) e
contains-two true false c d x y s h k e = rw (h refl) (ground arith)
contains-two false true c d x y s h k e = rw (k refl) (ground arith)
contains-two false false c d x y s h k e = absurd (ground arith)

breaches-later :
    (rule : SlaRule) (t : Ticket) (events : List TicketEvent) (v w : ℕ) (b : String)
    → v ≤ w
    → contains (breaches rule t events v) b ≡ true
    → contains (breaches rule t events w) b ≡ true
unfolding breaches
breaches-later rule t events v w b h =
    contains-two _ _ _ _ "first_response_overdue" "resolution_overdue" b
      (overdue-later (first_response_done events) (first_due rule t) v w h)
      (overdue-later (is_resolved t.status) (resolution_due rule t) v w h)

-- A breach stays: what an evaluation reports at one time, an evaluation of the same ticket and events
-- reports at every later time.
pub evaluate-later :
    (engine : SlaEngine) (t : Ticket) (events : List TicketEvent) (v w : ℕ) (b : String)
    → v ≤ w
    → contains (evaluate engine t events v).breached_items b ≡ true
    → contains (evaluate engine t events w).breached_items b ≡ true
unfolding evaluate
evaluate-later engine t events v w b h =
    breaches-later (select_from 0 engine.override_rules engine.fallback_rule t).0 t events v w b h
