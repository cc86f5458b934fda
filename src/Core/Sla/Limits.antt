-- ===== src/Core/Sla/Limits.antt =====
-- core/sla_engine.py: the limits of the rules that a policy's file gives.
use support_agent_platform.Shared.{
  ℕ, suc, ◌<◌, String, ◌<>◌, ◌≡◌, subst, inl, inr, Bool, Option, none, some, List, [], ◌∷◌, arith,
  Bool-cases, first, contains, pos, Value, Dict, obj, end, entry, get, Result, ok, err,
}
use support_agent_platform.Shared.Str.{str_or}
use support_agent_platform.Shared.Text.{upper}
use support_agent_platform.Shared.Number.{str_ℤ}
use support_agent_platform.Openclaw.SessionMapper.{iterate}
use support_agent_platform.Core.Sla.Rules.{
  MatchScope, any_scope, scope_of, SlaRule, default_rule, at_least_one, safe_int, parse_rule,
}
use support_agent_platform.Core.Sla.Engine.{
  SlaEngine, default_policy, parse_overrides, legacy_rules, from_legacy, from_sections, from_json,
}

-- Both limits of a rule are at least a minute.
pub record IsPositive (rule : SlaRule) : Type 0 where
  pub first_response : 0 < rule.first_response_minutes
  pub resolution : 0 < rule.resolution_minutes

abbrev pub AllPositive : List SlaRule → Type 0
AllPositive [] = Unit
AllPositive (rule ∷ rules) = IsPositive rule × AllPositive rules

safe_int_positive : (raw : Option Value) (default : ℕ) → 0 < default → 0 < safe_int raw default
unfolding safe_int at_least_one
safe_int_positive none default h = h
safe_int_positive (some v) default h = ground arith

IsPositive-default_rule : (id : String) (scope : MatchScope) → IsPositive (default_rule id scope)
unfolding default_rule
IsPositive-default_rule id scope = record { first_response = omega arith; resolution = omega arith }

IsPositive-parse_rule :
    (id : String) (raw : Option Value) (scope : MatchScope) → IsPositive (parse_rule id raw scope)
unfolding parse_rule
IsPositive-parse_rule id none scope = IsPositive-default_rule id scope
IsPositive-parse_rule id (some (obj d)) scope = record {
  first_response = safe_int_positive (get "first_response_minutes" d) 60 (omega arith);
  resolution = safe_int_positive (get "resolution_minutes" d) 480 (omega arith);
}
IsPositive-parse_rule id (some v) scope = IsPositive-default_rule id scope

AllPositive-parse_overrides : (n : ℕ) (values : List Value) → AllPositive (parse_overrides n values)
unfolding parse_overrides
AllPositive-parse_overrides n [] = tt
AllPositive-parse_overrides n (obj item ∷ values) = (
  IsPositive-parse_rule (str_or (get "id" item) ("override-" <> str_ℤ (pos n))) (some (obj item))
      (scope_of (get "when" item)),
  AllPositive-parse_overrides (suc n) values,
)
AllPositive-parse_overrides n (v ∷ values) = AllPositive-parse_overrides (suc n) values

AllPositive-legacy_rules : (d : Dict) → AllPositive (legacy_rules d)
unfolding legacy_rules
AllPositive-legacy_rules end = tt
AllPositive-legacy_rules (entry k (obj item) d) = (
  IsPositive-parse_rule ("legacy-" <> upper k) (some (obj item))
      (record { intents = []; priorities = upper k ∷ []; queues = []; channels = [] }),
  AllPositive-legacy_rules d,
)
AllPositive-legacy_rules (entry k v d) = AllPositive-legacy_rules d

IsPositive-first :
    (f : SlaRule → Bool) (rules : List SlaRule) (fallback : SlaRule)
    → AllPositive rules
    → IsPositive fallback
    → IsPositive (elim (first f rules) [ none ↦ fallback | some r ↦ r ])
IsPositive-first f [] fallback h k = k
IsPositive-first f (rule ∷ rules) fallback h k = elim (Bool-cases (f rule)) [
  | inl e ↦ rw e h.0
  | inr e ↦ rw e (IsPositive-first f rules fallback h.1 k)
]

-- The rules of an engine.
abbrev pub all_rules : SlaEngine → List SlaRule
all_rules engine = engine.fallback_rule ∷ engine.override_rules

AllPositive-from_legacy :
    (payload rules : Dict) → AllPositive (all_rules (from_legacy payload rules))
unfolding from_legacy
AllPositive-from_legacy payload rules = (
  IsPositive-first (λ (r : SlaRule). contains r.scope.priorities "P3") (legacy_rules rules)
      (default_rule "fallback" any_scope) (AllPositive-legacy_rules rules)
      (IsPositive-default_rule "fallback" any_scope),
  AllPositive-legacy_rules rules,
)

-- Of an engine that was built.
abbrev AllPositiveIn : Result SlaEngine → Type 0
AllPositiveIn (err e) = Unit
AllPositiveIn (ok engine) = AllPositive (all_rules engine)

AllPositive-from_sections : (payload : Dict) → AllPositiveIn (from_sections payload)
unfolding from_sections
AllPositive-from_sections payload = go (iterate (get "overrides" payload))
  where
    go :
        (items : Result (List Value))
        → AllPositiveIn (elim items [
          | err e ↦ err e
          | ok values ↦ ok (record {
            policy_version = str_or (get "version" payload) "sla-policy-v1";
            fallback_rule = parse_rule "fallback" (get "fallback" payload) any_scope;
            override_rules = parse_overrides 0 values;
          })
        ])
    go (err e) = tt
    go (ok values) = (
      IsPositive-parse_rule "fallback" (get "fallback" payload) any_scope,
      AllPositive-parse_overrides 0 values,
    )

positive_of_form :
    (payload : Dict) (rules overrides : Option Value)
    → AllPositiveIn (elim rules [
      | some (obj d) ↦ elim overrides [
        | none ↦ ok (from_legacy payload d)
        | some _ ↦ from_sections payload
      ]
      | _ ↦ from_sections payload
    ])
positive_of_form payload (some (obj d)) none = AllPositive-from_legacy payload d
positive_of_form payload (some (obj d)) (some v) = AllPositive-from_sections payload
positive_of_form payload (some v) overrides = AllPositive-from_sections payload
positive_of_form payload none overrides = AllPositive-from_sections payload

positive_of_json : (v : Value) → AllPositiveIn (from_json v)
unfolding from_json default_policy
positive_of_json (obj payload) =
    positive_of_form payload (get "rules" payload) (get "overrides" payload)
positive_of_json v = (IsPositive-default_rule "fallback" any_scope, tt)

-- Whatever JSON a policy is read from, both limits of every rule of the engine are at least a minute,
-- the fallback's too: a limit that is missing, no number, zero or negative is replaced.
pub from_json-AllPositive :
    (v : Value) (engine : SlaEngine) → from_json v ≡ ok engine → AllPositive (all_rules engine)
from_json-AllPositive v engine h = subst AllPositiveIn h (positive_of_json v)
