-- ===== src/Core/Recommendations/Founded.antt =====
-- core/recommended_actions_engine.py: every action names evidence, and is of some confidence.
use support_agent_platform.Shared.{
  suc, ◌-◌, ◌<◌, String, ◌<>◌, ◌≡◌, refl, ap, inl, inr, true, ◌||◌, false≢true, Option, none, some,
  List, [], ◌∷◌, map, arith, ◌==◌, ltb, Bool-cases, length, select, some_of, length-append,
}
use support_agent_platform.Shared.Elements.{All}
use support_agent_platform.Shared.Ratio.{
  Ratio, one, nought, hundredths, at_most, AtMost, larger, smaller, smaller-AtMost,
}
use support_agent_platform.Storage.Models.{
  Ticket, Priority, p1, p2, p3, p4, priority_text, KbDocument,
}
use support_agent_platform.Core.IntentRouter.{IntentDecision}
use support_agent_platform.Core.Retrieval.Attribution.{SourceAttribution}
use support_agent_platform.Core.Recommendations.{
  RecommendedAction, evidence_of, sla_evidence, bounded_confidence, questions, is_p1, is_overdue,
  urgency_evidence, escalations, takeovers, references, has_evidence,
}

-- An action is founded: it names some evidence, and its confidence is at most 1.
abbrev pub IsFounded : RecommendedAction → Type 0
IsFounded a = (0 < length a.evidence) × AtMost a.confidence one

larger-AtMost : (r : Ratio) → AtMost r one → AtMost (larger nought r) one
unfolding larger at_most
larger-AtMost r h = ground arith

bounded_confidence-AtMost : (r : Ratio) → AtMost (bounded_confidence r) one
unfolding bounded_confidence
bounded_confidence-AtMost r = larger-AtMost (smaller one r) (smaller-AtMost one r)

pub questions-IsFounded : (intent : IntentDecision) → All IsFounded (questions intent)
unfolding questions
questions-IsFounded intent = elim (Bool-cases intent.is_low_confidence) [
  | inl e ↦ rw e (
    (
      omega arith,
      bounded_confidence-AtMost (larger (hundredths 30) (hundredths (100 - intent.confidence))),
    ),
    tt,
  )
  | inr e ↦ rw e tt
]

some_breach : (breaches : List String) → some_of is_overdue breaches ≡ true → 0 < length breaches
some_breach [] h = absurd (false≢true h)
some_breach (b ∷ breaches) h = omega arith

pub length-map : {A B : Type 0} (f : A → B) (xs : List A) → length (map f xs) ≡ length xs
length-map f [] = refl
length-map f (x ∷ xs) = ap suc (length-map f xs)

urgency_evidence-some :
    (p : Priority) (breaches : List String)
    → (is_p1 p || some_of is_overdue breaches) ≡ true
    → 0 < length (urgency_evidence p breaches)
unfolding urgency_evidence priority_text
urgency_evidence-some p1 breaches h = omega (
  arith,
  length-append (map sla_evidence breaches) (evidence_of ("priority:" <> "P1") "ticket_field" ∷ []),
)
urgency_evidence-some p2 breaches h = omega (
  arith,
  length-append (map sla_evidence breaches) [],
  length-map sla_evidence breaches,
  some_breach breaches h,
)
urgency_evidence-some p3 breaches h = omega (
  arith,
  length-append (map sla_evidence breaches) [],
  length-map sla_evidence breaches,
  some_breach breaches h,
)
urgency_evidence-some p4 breaches h = omega (
  arith,
  length-append (map sla_evidence breaches) [],
  length-map sla_evidence breaches,
  some_breach breaches h,
)

pub escalations-IsFounded :
    (p : Priority) (breaches : List String) → All IsFounded (escalations p breaches)
unfolding escalations
escalations-IsFounded p breaches = elim (Bool-cases (is_p1 p || some_of is_overdue breaches)) [
  | inl e ↦ rw e ((urgency_evidence-some p breaches e, ground arith), tt)
  | inr e ↦ rw e tt
]

pub takeovers-IsFounded : (t : Ticket) (d : Option KbDocument) → All IsFounded (takeovers t d)
unfolding takeovers
takeovers-IsFounded t d = elim (Bool-cases (t.intent == "complaint")) [
  | inl e ↦ rw e ((omega arith, omega arith), tt)
  | inr e ↦ rw e tt
]

pub references-IsFounded :
    (attributions : List SourceAttribution) (d : Option KbDocument)
    → All IsFounded (references attributions d)
unfolding references
references-IsFounded attributions none = tt
references-IsFounded attributions (some d) = ((omega arith, bounded_confidence-AtMost d.score), tt)

-- The filter keeps what is founded.
pub select-IsFounded :
    (actions : List RecommendedAction)
    → All IsFounded actions
    → select has_evidence actions ≡ actions
select-IsFounded [] h = refl
select-IsFounded (a ∷ actions) h =
    rw (ltb_of_lt (h.0.0)) (ap (λ rest. a ∷ rest) (select-IsFounded actions h.1))
  where
    ltb_of_lt : 0 < length a.evidence → ltb 0 (length a.evidence) ≡ true
    ltb_of_lt h = ground arith
