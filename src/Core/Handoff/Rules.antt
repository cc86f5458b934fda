-- ===== src/Core/Handoff/Rules.antt =====
-- core/handoff_manager.py: the rules, and how they are read from JSON.
use support_agent_platform.Shared.{
  ℕ, suc, String, ◌<>◌, Bool, true, false, ◌&&◌, ◌||◌, Option, none, some, List, [], ◌∷◌, map,
  contains, ℤ, pos, Value, Dict, bool, int, float, text, arr, obj, get, of_items,
}
use support_agent_platform.Shared.Text.{strip, lower, upper}
use support_agent_platform.Shared.Str.{str_or}
use support_agent_platform.Shared.Number.{str_ℤ}
use support_agent_platform.Storage.Models.{Ticket, priority_text}
use support_agent_platform.Core.Sla.Rules.{values_of, stripped_texts, same_text}

pub record RuleScope : Type 0 where
  pub intents : List String
  pub priorities : List String
  pub queues : List String
  pub channels : List String

abbrev pub any_rule_scope : RuleScope
any_rule_scope = record { intents = []; priorities = []; queues = []; channels = [] }

-- `_parse_text_list`.
unfoldable pub parse_text_list : Option Value → List String
unfolding stripped_texts
parse_text_list raw = stripped_texts same_text (values_of raw)

-- `RuleScope.from_payload`.
unfoldable pub rule_scope_of : Option Value → RuleScope
unfolding parse_text_list lower upper
rule_scope_of (some (obj d)) = record {
  intents = map lower (parse_text_list (get "intent" d));
  priorities = map upper (parse_text_list (get "priority" d));
  queues = map lower (parse_text_list (get "queue" d));
  channels = map lower (parse_text_list (get "channel" d));
}
rule_scope_of _ = any_rule_scope

-- `_selector_matches`.
unfoldable pub selector_matches : List String → String → Bool
selector_matches [] value = true
selector_matches (s ∷ selector) value = contains (s ∷ selector) "*" || contains (s ∷ selector) value

unfoldable pub rule_matches : RuleScope → Ticket → Bool
unfolding selector_matches lower upper priority_text
rule_matches scope t =
    selector_matches scope.intents (lower t.intent)
    && (selector_matches scope.priorities (upper (priority_text t.priority))
        && (selector_matches scope.queues (lower t.queue)
            && selector_matches scope.channels (lower t.channel)))

-- A float is m / 10 ^ k.
pub record HandoffRule : Type 0 where
  pub rule_id : String
  pub reason : String
  pub trigger : String
  pub scope : RuleScope
  pub low_confidence_threshold : Option (ℤ × ℕ)
  pub keywords : List String
  pub sla_breaches : List String

-- `_safe_float`; Python's `float` of a text is an argument.
unfoldable pub safe_float : (String → Option (ℤ × ℕ)) → Option Value → Option (ℤ × ℕ)
safe_float parse (some (int z)) = some (z, 0)
safe_float parse (some (bool true)) = some (pos 1, 0)
safe_float parse (some (bool false)) = some (pos 0, 0)
safe_float parse (some (float m k)) = some (m, k)
safe_float parse (some (text s)) = parse s
safe_float parse _ = none

-- One rule of a list, at its place.
unfoldable pub rule_of : (String → Option (ℤ × ℕ)) → ℕ → Dict → HandoffRule
unfolding str_or str_ℤ strip lower rule_scope_of safe_float parse_text_list
rule_of parse n item =
    let rule_id = str_or (get "id" item) ("rule-" <> str_ℤ (pos n)) in
    record {
      rule_id = rule_id;
      reason = str_or (get "reason" item) rule_id;
      trigger = lower (strip (str_or (get "trigger" item) "always"));
      scope = rule_scope_of (get "when" item);
      low_confidence_threshold = safe_float parse (get "low_confidence_threshold" item);
      keywords = map lower (parse_text_list (get "keywords" item));
      sla_breaches = parse_text_list (get "sla_breaches" item);
    }

unfoldable pub rules_from : (String → Option (ℤ × ℕ)) → ℕ → List Value → List HandoffRule
unfolding rule_of
rules_from parse n [] = []
rules_from parse n (obj item ∷ values) = rule_of parse n item ∷ rules_from parse (suc n) values
rules_from parse n (_ ∷ values) = rules_from parse (suc n) values

-- `_parse_rules`: only a list has rules.
unfoldable pub parse_rules : (String → Option (ℤ × ℕ)) → Option Value → List HandoffRule
unfolding rules_from
parse_rules parse (some (arr items)) = rules_from parse 0 (of_items items)
parse_rules parse _ = []

-- `_legacy_rules`.
unfoldable pub legacy_overrides : List HandoffRule
legacy_overrides =
    record {
      rule_id = "legacy-priority-p1";
      reason = "priority-P1";
      trigger = "always";
      scope = record { intents = []; priorities = "P1" ∷ []; queues = []; channels = [] };
      low_confidence_threshold = none;
      keywords = [];
      sla_breaches = [];
    }
    ∷ record {
      rule_id = "legacy-complaint-intent";
      reason = "complaint-intent";
      trigger = "always";
      scope = record { intents = "complaint" ∷ []; priorities = []; queues = []; channels = [] };
      low_confidence_threshold = none;
      keywords = [];
      sla_breaches = [];
    }
    ∷ []

abbrev pub human_keywords : List String
human_keywords = "人工" ∷ "客服" ∷ "human" ∷ "agent" ∷ []

unfoldable pub legacy_fallbacks : List HandoffRule
legacy_fallbacks =
    record {
      rule_id = "legacy-low-confidence";
      reason = "low-confidence";
      trigger = "low_confidence";
      scope = any_rule_scope;
      low_confidence_threshold = some (pos 45, 2);
      keywords = [];
      sla_breaches = [];
    }
    ∷ record {
      rule_id = "legacy-customer-asks-human";
      reason = "customer-asks-human";
      trigger = "customer_request_human";
      scope = any_rule_scope;
      low_confidence_threshold = none;
      keywords = human_keywords;
      sla_breaches = [];
    }
    ∷ []
