-- ===== src/Core/Recommendations/Sources.antt =====
-- core/recommended_actions_engine.py: which actions are recommended.
use support_agent_platform.Shared.{
  ◌≤◌, String, ◌<>◌, ◌≡◌, refl, sym, ap, subst, ◌∙◌, inl, inr, Bool, true, false, ◌||◌, Option,
  none, some, List, [], ◌∷◌, ◌++◌, map, arith, ◌==◌, if◌then◌else◌, Bool-cases, length, take,
  some_of, length-append,
}
use support_agent_platform.Shared.Elements.{All, All-append}
use support_agent_platform.Shared.Top.{take_all}
use support_agent_platform.Storage.Models.{Ticket, Priority, KbDocument}
use support_agent_platform.Core.IntentRouter.{IntentDecision}
use support_agent_platform.Core.Retrieval.Attribution.{SourceAttribution, build_source_attributions}
use support_agent_platform.Core.Recommendations.{
  RecommendedAction, pick_primary_doc, questions, is_p1, is_overdue, escalations, takeovers,
  references, candidates_from, recommend,
}
use support_agent_platform.Core.Recommendations.Founded.{
  IsFounded, length-map, questions-IsFounded, escalations-IsFounded, takeovers-IsFounded,
  references-IsFounded, select-IsFounded,
}

abbrev source_of : RecommendedAction → String
source_of a = a.source

map-append : {A B : Type 0} (f : A → B) (xs ys : List A) → map f (xs ++ ys) ≡ map f xs ++ map f ys
map-append f [] ys = refl
map-append f (x ∷ xs) ys = ap (λ rest. f x ∷ rest) (map-append f xs ys)

abbrev when : Bool → String → List String
when b s = if b then s ∷ [] else []

abbrev pub doc_source : Option KbDocument → List String
doc_source none = []
doc_source (some d) = (d.source_type <> ":" <> d.doc_id) ∷ []

abbrev pub takes_over : Ticket → Bool
takes_over t = t.intent == "complaint"

-- Who recommends something, in their order.
abbrev pub recommenders : Ticket → IntentDecision → List KbDocument → List String → List String
recommenders t intent docs breaches =
    when intent.is_low_confidence "intent_router"
    ++ (when (is_p1 t.priority || some_of is_overdue breaches) "sla_engine"
        ++ (when (takes_over t) "handoff_policy" ++ doc_source (pick_primary_doc docs)))

questions-source :
    (intent : IntentDecision)
    → map source_of (questions intent) ≡ when intent.is_low_confidence "intent_router"
unfolding questions
questions-source intent = ground arith

escalations-source :
    (p : Priority) (breaches : List String)
    → map source_of (escalations p breaches)
      ≡ when (is_p1 p || some_of is_overdue breaches) "sla_engine"
unfolding escalations
escalations-source p breaches = elim (Bool-cases (is_p1 p || some_of is_overdue breaches)) [
  | inl e ↦ rw e refl
  | inr e ↦ rw e refl
]

takeovers-source :
    (t : Ticket) (d : Option KbDocument)
    → map source_of (takeovers t d) ≡ when (takes_over t) "handoff_policy"
unfolding takeovers
takeovers-source t d = elim (Bool-cases (takes_over t)) [ inl e ↦ rw e refl | inr e ↦ rw e refl ]

references-source :
    (attributions : List SourceAttribution) (d : Option KbDocument)
    → map source_of (references attributions d) ≡ doc_source d
unfolding references
references-source attributions none = refl
references-source attributions (some d) = refl

length-when : (b : Bool) (s : String) → length (when b s) ≤ 1
length-when true s = omega arith
length-when false s = omega arith

length-doc_source : (d : Option KbDocument) → length (doc_source d) ≤ 1
length-doc_source none = omega arith
length-doc_source (some d) = omega arith

module _ (t : Ticket) (intent : IntentDecision) (docs : List KbDocument)
    (breaches : List String) where
  abbrev primary : Option KbDocument
  primary = pick_primary_doc docs

  abbrev attributed : List SourceAttribution
  attributed = build_source_attributions t.latest_message (candidates_from 1 docs) (some 5)

  abbrev actions : List RecommendedAction
  actions =
      questions intent
      ++ (escalations t.priority breaches ++ (takeovers t primary ++ references attributed primary))

  actions-source : map source_of actions ≡ recommenders t intent docs breaches
  actions-source =
      rw
        (
          map-append source_of (questions intent) (
              escalations t.priority breaches
              ++ (takeovers t primary ++ references attributed primary)),
          map-append source_of (escalations t.priority breaches)
              (takeovers t primary ++ references attributed primary),
          map-append source_of (takeovers t primary) (references attributed primary),
          questions-source intent,
          escalations-source t.priority breaches,
          takeovers-source t primary,
          references-source attributed primary,
        )
        refl

  actions-IsFounded : All IsFounded actions
  actions-IsFounded = All-append IsFounded (questions intent) _ (questions-IsFounded intent) (
      All-append IsFounded (escalations t.priority breaches) _
        (escalations-IsFounded t.priority breaches)
        (All-append IsFounded (takeovers t primary) (references attributed primary)
          (takeovers-IsFounded t primary) (references-IsFounded attributed primary)))

  few_actions : length actions ≤ 4
  few_actions =
      let low = when intent.is_low_confidence "intent_router" in
      let urgent = when (is_p1 t.priority || some_of is_overdue breaches) "sla_engine" in
      let over = when (takes_over t) "handoff_policy" in
      omega (
        arith,
        length-map source_of actions,
        ap length actions-source,
        length-append low (urgent ++ (over ++ doc_source primary)),
        length-append urgent (over ++ doc_source primary),
        length-append over (doc_source primary),
        length-when intent.is_low_confidence "intent_router",
        length-when (is_p1 t.priority || some_of is_overdue breaches) "sla_engine",
        length-when (takes_over t) "handoff_policy",
        length-doc_source primary,
      )

  recommend-actions : recommend t intent docs breaches ≡ actions
  unfolding recommend
  recommend-actions =
      ap (λ xs. take 4 xs) (select-IsFounded actions actions-IsFounded)
      ∙ take_all 4 actions few_actions

  -- What is recommended: a question exactly where the intent is of low confidence, an escalation
  -- exactly where the priority is P1 or a time of the SLA is overdue, a takeover exactly where the
  -- intent is a complaint, and the primary document exactly where there is one, in this order; each
  -- names some evidence and has a confidence of at most 1. Neither the filter on the evidence nor the
  -- limit of four drops any of them.
  pub recommend-recommenders :
      (map (λ (a : RecommendedAction). a.source) (recommend t intent docs breaches)
        ≡ recommenders t intent docs breaches)
      × All IsFounded (recommend t intent docs breaches)
  recommend-recommenders = (
    rw recommend-actions actions-source,
    subst (λ xs. All IsFounded xs) (sym recommend-actions) actions-IsFounded,
  )
