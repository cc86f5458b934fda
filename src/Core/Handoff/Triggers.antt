-- ===== src/Core/Handoff/Triggers.antt =====
-- core/handoff_manager.py: when a rule applies to a ticket.
use support_agent_platform.Shared.{
  ℕ, ◌*◌, ◌^◌, ◌<◌, String, ◌≡◌, refl, sym, ap, ◌∙◌, ◌↔◌, ◌⊎◌, inl, inr, Bool, true, false, ◌||◌,
  false≢true, Option, none, some, List, [], ◌∷◌, arith, ◌==◌, eq_iff, Bool-cases, some_of, contains,
  ℤ, pos, negsuc,
}
use support_agent_platform.Storage.Models.{Ticket, priority_text}
use support_agent_platform.Core.IntentRouter.{IntentDecision}
use support_agent_platform.Core.Handoff.Rules.{
  HandoffRule, RuleScope, rule_matches, selector_matches,
}
use support_agent_platform.Core.Sla.Rules.{selects}
use support_agent_platform.Core.Sla.Choice.{
  Admits, selects-Admits, Occurs-contains, contains-Occurs,
}
use support_agent_platform.Shared.Elements.{Occurs}
use support_agent_platform.Shared.Text.{lower, upper, occurs_in}
use support_agent_platform.Core.Handoff.Manager.{
  keywords_of, is_below, threshold_of, takes_breaches, rule_triggered, applies,
}

-- A scope takes a ticket if its four selectors admit the ticket's intent, queue and channel in lower
-- case, and its priority in upper case.
pub record TakesTicket (scope : RuleScope) (t : Ticket) : Type 0 where
  pub intent_admitted : Admits scope.intents (lower t.intent)
  pub priority_admitted : Admits scope.priorities (upper (priority_text t.priority))
  pub queue_admitted : Admits scope.queues (lower t.queue)
  pub channel_admitted : Admits scope.channels (lower t.channel)

-- A confidence in hundredths is below m / 10 ^ k; the threshold is 0.45 where there is none.
abbrev pub Below : ℕ → Option (ℤ × ℕ) → Type 0
Below c none = c * 10 ^ 2 < 45 * 100
Below c (some (pos m, k)) = c * 10 ^ k < m * 100
Below c (some (negsuc m, k)) = ⊥

-- The four triggers of a rule.
pub data Triggers (rule : HandoffRule) (t : Ticket) (intent : IntentDecision)
    (breaches : List String) : Type 0 where
  always : rule.trigger ≡ "always" → Triggers rule t intent breaches
  unsure :
      rule.trigger ≡ "low_confidence"
      → (intent.is_low_confidence ≡ true) ⊎ Below intent.confidence rule.low_confidence_threshold
      → Triggers rule t intent breaches
  asked :
      (keyword : String)
      → rule.trigger ≡ "customer_request_human"
      → Occurs keyword (keywords_of rule.keywords)
      → occurs_in keyword (lower t.latest_message) ≡ true
      → Triggers rule t intent breaches
  breached :
      (breach : String)
      → rule.trigger ≡ "sla_breach"
      → Occurs breach breaches
      → (rule.sla_breaches ≡ []) ⊎ Occurs breach rule.sla_breaches
      → Triggers rule t intent breaches

pub selector-Admits : (xs : List String) (s : String) → (selector_matches xs s ≡ true) ↔ Admits xs s
unfolding selector_matches selects
selector-Admits [] s = selects-Admits [] s
selector-Admits (x ∷ xs) s = selects-Admits (x ∷ xs) s

pub rule_matches-TakesTicket :
    (scope : RuleScope) (t : Ticket) → (rule_matches scope t ≡ true) ↔ TakesTicket scope t
unfolding rule_matches
rule_matches-TakesTicket scope t = (
  λ h. record {
    intent_admitted = (selector-Admits _ _).0 (ground arith);
    priority_admitted = (selector-Admits _ _).0 (ground arith);
    queue_admitted = (selector-Admits _ _).0 (ground arith);
    channel_admitted = (selector-Admits _ _).0 (ground arith);
  },
  λ h.
      let a = (selector-Admits _ _).1 h.intent_admitted in
      let b = (selector-Admits _ _).1 h.priority_admitted in
      let c = (selector-Admits _ _).1 h.queue_admitted in
      let d = (selector-Admits _ _).1 h.channel_admitted in ground arith,
)

pub is_below-Below : (c : ℕ) (o : Option (ℤ × ℕ)) → (is_below c (threshold_of o) ≡ true) ↔ Below c o
is_below-Below c none = (λ h. ground arith, λ h. ground arith)
is_below-Below c (some (pos m, k)) = (λ h. ground arith, λ h. ground arith)
is_below-Below c (some (negsuc m, k)) = (λ h. absurd (false≢true h), λ h. absurd h)

pub some_of-Occurs :
    {A : Type 0} (f : A → Bool) (xs : List A)
    → some_of f xs ≡ true
    → (x : A) × (Occurs x xs × (f x ≡ true))
some_of-Occurs f [] h = absurd (false≢true h)
some_of-Occurs f (x ∷ xs) h = elim (Bool-cases (f x)) [
  | inl e ↦ (x, (inl refl, e))
  | inr e ↦ let (y, (o, k)) = some_of-Occurs f xs (ground arith) in (y, (inr o, k))
]

pub Occurs-some_of :
    {A : Type 0} (f : A → Bool) (x : A) (xs : List A)
    → Occurs x xs
    → f x ≡ true
    → some_of f xs ≡ true
Occurs-some_of f x [] o h = elim o [ ]
Occurs-some_of f x (y ∷ xs) (inl e) h = let k : f y ≡ true = ap f (sym e) ∙ h in ground arith
Occurs-some_of f x (y ∷ xs) (inr o) h = let k = Occurs-some_of f x xs o h in ground arith

pub takes_breaches-Occurs :
    (wanted breaches : List String)
    → takes_breaches wanted breaches ≡ true
    → (breach : String) × (Occurs breach breaches × ((wanted ≡ []) ⊎ Occurs breach wanted))
takes_breaches-Occurs wanted [] h = absurd (false≢true h)
takes_breaches-Occurs [] (b ∷ breaches) h = (b, (inl refl, inl refl))
takes_breaches-Occurs (s ∷ wanted) (b ∷ breaches) h =
    let (x, (o, k)) = some_of-Occurs (contains (b ∷ breaches)) (s ∷ wanted) h in
    (x, (Occurs-contains x (b ∷ breaches) k, inr o))

pub Occurs-takes_breaches :
    (breach : String) (wanted breaches : List String)
    → Occurs breach breaches
    → (wanted ≡ []) ⊎ Occurs breach wanted
    → takes_breaches wanted breaches ≡ true
Occurs-takes_breaches breach wanted [] o h = elim o [ ]
Occurs-takes_breaches breach [] (b ∷ breaches) o h = refl
Occurs-takes_breaches breach (s ∷ wanted) (b ∷ breaches) o (inl e) = cc
Occurs-takes_breaches breach (s ∷ wanted) (b ∷ breaches) o (inr k) =
    Occurs-some_of (contains (b ∷ breaches)) breach (s ∷ wanted) k
      (contains-Occurs breach (b ∷ breaches) o)

module _ (rule : HandoffRule) (t : Ticket) (intent : IntentDecision) (breaches : List String) where
  to_Triggers : rule_triggered rule t intent breaches ≡ true → Triggers rule t intent breaches
  unfolding rule_triggered
  to_Triggers h = elim (Bool-cases (rule.trigger == "always")) [
    | inl e ↦ always ((eq_iff rule.trigger "always").0 e)
    | inr n1 ↦ elim (Bool-cases (rule.trigger == "low_confidence")) [
      | inl e ↦
          unsure ((eq_iff rule.trigger "low_confidence").0 e)
            (elim (Bool-cases intent.is_low_confidence) [
              | inl low ↦ inl low
              | inr low ↦ inr (
                  (is_below-Below intent.confidence rule.low_confidence_threshold).0 (ground arith))
            ])
      | inr n2 ↦ elim (Bool-cases (rule.trigger == "customer_request_human")) [
        | inl e ↦
            let (k, (o, f)) =
              some_of-Occurs (λ keyword. occurs_in keyword (lower t.latest_message))
                (keywords_of rule.keywords) (ground arith) in
            asked k ((eq_iff rule.trigger "customer_request_human").0 e) o f
        | inr n3 ↦
            let (b, (o, f)) = takes_breaches-Occurs rule.sla_breaches breaches (ground arith) in
            breached b ((eq_iff rule.trigger "sla_breach").0 (ground arith)) o f
      ]
    ]
  ]

  of_Triggers : Triggers rule t intent breaches → rule_triggered rule t intent breaches ≡ true
  unfolding rule_triggered
  of_Triggers (always e) = rw e refl
  of_Triggers (unsure e (inl low)) = rw (e, low) refl
  of_Triggers (unsure e (inr below)) =
      let k = (is_below-Below intent.confidence rule.low_confidence_threshold).1 below in
      rw (e, k) (or_true intent.is_low_confidence)
    where
      or_true : (b : Bool) → (b || true) ≡ true
      or_true true = refl
      or_true false = refl
  of_Triggers (asked keyword e o f) = rw e (
      Occurs-some_of (λ k. occurs_in k (lower t.latest_message)) keyword (keywords_of rule.keywords)
        o f)
  of_Triggers (breached breach e o f) =
      rw e (Occurs-takes_breaches breach rule.sla_breaches breaches o f)

  -- A rule applies if its scope takes the ticket and its trigger is there.
  abbrev pub Applies : Type 0
  Applies = TakesTicket rule.scope t × Triggers rule t intent breaches

  pub applies-Applies : (applies t intent breaches rule ≡ true) ↔ Applies
  applies-Applies = (
    λ h. ((rule_matches-TakesTicket rule.scope t).0 (ground arith), to_Triggers (ground arith)),
    λ h.
        let a = (rule_matches-TakesTicket rule.scope t).1 h.0 in
        let b = of_Triggers h.1 in ground arith,
  )
