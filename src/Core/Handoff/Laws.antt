-- ===== src/Core/Handoff/Laws.antt =====
-- core/handoff_manager.py: what a decision says, and what handing over leaves.
use support_agent_platform.Shared.{
  ℕ, suc, String, ◌<>◌, ◌≡◌, refl, sym, ◌∙◌, ◌↔◌, inl, inr, true, not, false≢true, Option, List, [],
  ◌∷◌, ◌++◌, Bool-cases, some_of, pos, Dict,
}
use support_agent_platform.Storage.Models.{Ticket, TicketEvent}
use support_agent_platform.Core.IntentRouter.{IntentDecision}
use support_agent_platform.Core.Lifecycle.{Keeps}
use support_agent_platform.Core.Lifecycle.Merging.{add_event-Keeps}
use support_agent_platform.Core.Lifecycle.Programs.{program_rules}
use support_agent_platform.Core.Handoff.Rules.{HandoffRule}
use support_agent_platform.Core.Sla.Rules.{distinct}
use support_agent_platform.Shared.Elements.{Occurs}
use support_agent_platform.Shared.Number.{str_ℤ}
use support_agent_platform.Core.Handoff.Manager.{
  HandoffManager, HandoffDecision, applies, matched_paths, reasons_of, is_nil, evaluate,
  mark_handoff, resume,
}
use support_agent_platform.Core.Handoff.Triggers.{
  Applies, applies-Applies, some_of-Occurs, Occurs-some_of,
}

pub mark_handoff-Keeps :
    (id : String) (decision : HandoffDecision) → Keeps (mark_handoff id decision)
unfolding mark_handoff
mark_handoff-Keeps id decision = search (program_rules, add_event-Keeps)

pub resume-Keeps :
    (id actor_id remark : String) (approval_id : Option String) (context : Dict)
    → Keeps (resume id actor_id remark approval_id context)
unfolding resume
resume-Keeps id actor_id remark approval_id context = search (program_rules, add_event-Keeps)

-- The paths of a section: one for each rule that applies, in order, with the rule's place in the
-- section and its identifier.
pub data Paths (t : Ticket) (intent : IntentDecision) (breaches : List String) (section : String)
    : ℕ → List HandoffRule → List String → Type 0 where
  done : {n : ℕ} → Paths t intent breaches section n [] []
  named :
      {n : ℕ} {rule : HandoffRule} {rules : List HandoffRule} {paths : List String}
      → Applies rule t intent breaches
      → Paths t intent breaches section (suc n) rules paths
      → Paths t intent breaches section n
          (rule ∷ rules)
          (("handoff." <> section <> "[" <> str_ℤ (pos n) <> "]::" <> rule.rule_id) ∷ paths)
  left_out :
      {n : ℕ} {rule : HandoffRule} {rules : List HandoffRule} {paths : List String}
      → ¬ Applies rule t intent breaches
      → Paths t intent breaches section (suc n) rules paths
      → Paths t intent breaches section n (rule ∷ rules) paths

module _ (t : Ticket) (intent : IntentDecision) (breaches : List String) where
  -- A reason is left after repetitions are taken out exactly where some rule applies.
  is_nil-reasons :
      (rules : List HandoffRule)
      → not (is_nil (distinct [] (reasons_of t intent breaches rules)))
        ≡ some_of (applies t intent breaches) rules
  unfolding distinct
  is_nil-reasons [] = refl
  is_nil-reasons (rule ∷ rules) = elim (Bool-cases (applies t intent breaches rule)) [
    | inl e ↦ rw e refl
    | inr e ↦ rw e (is_nil-reasons rules)
  ]

  matched_paths-Paths :
      (section : String) (n : ℕ) (rules : List HandoffRule)
      → Paths t intent breaches section n rules (matched_paths section n t intent breaches rules)
  unfolding matched_paths
  matched_paths-Paths section n [] = done
  matched_paths-Paths section n (rule ∷ rules) =
      elim (Bool-cases (applies t intent breaches rule)) [
        | inl e ↦ rw e (
            named ((applies-Applies rule t intent breaches).0 e)
              (matched_paths-Paths section (suc n) rules))
        | inr e ↦ rw e (
            left_out (λ a. false≢true (sym e ∙ (applies-Applies rule t intent breaches).1 a))
              (matched_paths-Paths section (suc n) rules))
      ]

  -- A ticket is handed off exactly where some rule applies, an override or a fallback: its scope takes
  -- the ticket, and its trigger is there. The decision names one path for every rule that applies and
  -- for no other, the overrides first, each with the rule's section, place and identifier.
  pub evaluate-Applies :
      (manager : HandoffManager) (summary : String) (recommendations : List String)
      (events : List TicketEvent)
      → let decision = evaluate manager t intent summary recommendations events breaches in
        ((decision.should_handoff ≡ true) ↔ (
          (rule : HandoffRule) × (Occurs rule (manager.override_rules ++ manager.fallback_rules)
            × Applies rule t intent breaches)))
        × ((first_paths : List String) × ((other_paths : List String)
              × ((decision.matched_rule_paths ≡ first_paths ++ other_paths)
                  × (Paths t intent breaches "overrides" 0 manager.override_rules first_paths
                      × Paths t intent breaches "fallback_rules" 0 manager.fallback_rules
                          other_paths))))
  unfolding evaluate
  evaluate-Applies manager summary recommendations events =
      let rules = manager.override_rules ++ manager.fallback_rules in
      let test = is_nil-reasons rules in
      (
        (
          λ h.
              let (rule, (o, e)) =
                some_of-Occurs (applies t intent breaches) rules (sym test ∙ h) in
              (rule, (o, (applies-Applies rule t intent breaches).0 e)),
          λ h.
              let (rule, (o, a)) = h in
              test
              ∙ Occurs-some_of (applies t intent breaches) rule rules o
                  ((applies-Applies rule t intent breaches).1 a),
        ),
        (
          matched_paths "overrides" 0 t intent breaches manager.override_rules,
          (
            matched_paths "fallback_rules" 0 t intent breaches manager.fallback_rules,
            (
              refl,
              (
                matched_paths-Paths "overrides" 0 manager.override_rules,
                matched_paths-Paths "fallback_rules" 0 manager.fallback_rules,
              ),
            ),
          ),
        ),
      )
