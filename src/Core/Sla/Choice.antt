-- ===== src/Core/Sla/Choice.antt =====
-- core/sla_engine.py: which rule an evaluation follows.
use support_agent_platform.Shared.{
  ℕ, suc, String, ◌≡◌, refl, sym, ◌∙◌, ◌↔◌, ◌⊎◌, inl, inr, true, false≢true, List, [], ◌∷◌, arith,
  ◌==◌, eq_iff, Bool-cases, ==_refl, contains,
}
use support_agent_platform.Storage.Models.{Ticket, priority_text}
use support_agent_platform.Shared.Text.{lower, upper}
use support_agent_platform.Shared.Elements.{Occurs}
use support_agent_platform.Core.Sla.Rules.{matches, selects, MatchScope, SlaRule}
use support_agent_platform.Core.Sla.Engine.{select_from}

-- A selector admits a value if it is empty, has a star in it, or has the value.
abbrev pub Admits : List String → String → Type 0
Admits selector value = (selector ≡ []) ⊎ (Occurs "*" selector ⊎ Occurs value selector)

-- A scope takes a ticket if its four selectors admit the ticket's intent, queue and channel in lower
-- case, and its priority in upper case.
pub record Takes (scope : MatchScope) (t : Ticket) : Type 0 where
  pub intent : Admits scope.intents (lower t.intent)
  pub priority : Admits scope.priorities (upper (priority_text t.priority))
  pub queue : Admits scope.queues (lower t.queue)
  pub channel : Admits scope.channels (lower t.channel)

-- The first rule whose scope takes the ticket, or else the fallback.
pub data Chosen (t : Ticket) (fallback : SlaRule) : List SlaRule → SlaRule → Type 0 where
  by_fallback : Chosen t fallback [] fallback
  by_scope :
      {rule : SlaRule} {rules : List SlaRule}
      → Takes rule.scope t
      → Chosen t fallback (rule ∷ rules) rule
  passed_over :
      {rule chosen : SlaRule} {rules : List SlaRule}
      → ¬ Takes rule.scope t
      → Chosen t fallback rules chosen
      → Chosen t fallback (rule ∷ rules) chosen

pub Occurs-contains : (s : String) (xs : List String) → contains xs s ≡ true → Occurs s xs
Occurs-contains s [] h = absurd (false≢true h)
Occurs-contains s (x ∷ xs) h = elim (Bool-cases (x == s)) [
  | inl e ↦ inl (sym ((eq_iff x s).0 e))
  | inr e ↦ inr (Occurs-contains s xs (ground arith))
]

pub contains-Occurs : (s : String) (xs : List String) → Occurs s xs → contains xs s ≡ true
contains-Occurs s [] o = elim o [ ]
contains-Occurs s (x ∷ xs) (inl e) = rw (sym e, ==_refl) refl
contains-Occurs s (x ∷ xs) (inr o) = let rest = contains-Occurs s xs o in ground arith

pub selects-Admits : (xs : List String) (s : String) → (selects xs s ≡ true) ↔ Admits xs s
unfolding selects
selects-Admits [] s = (λ h. inl refl, λ a. refl)
selects-Admits (x ∷ xs) s = (to_admits, of_admits)
  where
    to_admits : selects (x ∷ xs) s ≡ true → Admits (x ∷ xs) s
    to_admits h = elim (Bool-cases (contains (x ∷ xs) "*")) [
      | inl e ↦ inr (inl (Occurs-contains "*" (x ∷ xs) e))
      | inr e ↦ inr (inr (Occurs-contains s (x ∷ xs) (ground arith)))
    ]

    of_admits : Admits (x ∷ xs) s → selects (x ∷ xs) s ≡ true
    of_admits (inl e) = cc
    of_admits (inr (inl o)) = let e = contains-Occurs "*" (x ∷ xs) o in ground arith
    of_admits (inr (inr o)) = let e = contains-Occurs s (x ∷ xs) o in ground arith

pub matches-Takes : (scope : MatchScope) (t : Ticket) → matches scope t ≡ true → Takes scope t
unfolding matches
matches-Takes scope t h = record {
  intent = (selects-Admits _ _).0 (ground arith);
  priority = (selects-Admits _ _).0 (ground arith);
  queue = (selects-Admits _ _).0 (ground arith);
  channel = (selects-Admits _ _).0 (ground arith);
}

pub Takes-matches : (scope : MatchScope) (t : Ticket) → Takes scope t → matches scope t ≡ true
unfolding matches
Takes-matches scope t h =
    let a = (selects-Admits _ _).1 h.intent in
    let b = (selects-Admits _ _).1 h.priority in
    let c = (selects-Admits _ _).1 h.queue in
    let d = (selects-Admits _ _).1 h.channel in ground arith

pub select_from-Chosen :
    (n : ℕ) (rules : List SlaRule) (fallback : SlaRule) (t : Ticket)
    → Chosen t fallback rules (select_from n rules fallback t).0
unfolding select_from
select_from-Chosen n [] fallback t = by_fallback
select_from-Chosen n (rule ∷ rules) fallback t = elim (Bool-cases (matches rule.scope t)) [
  | inl e ↦ rw e (by_scope (matches-Takes rule.scope t e))
  | inr e ↦ rw e (
      passed_over (λ k. false≢true (sym e ∙ Takes-matches rule.scope t k))
        (select_from-Chosen (suc n) rules fallback t))
]
