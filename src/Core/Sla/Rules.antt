-- ===== src/Core/Sla/Rules.antt =====
-- core/sla_engine.py: the scopes and the rules, and how they are read from JSON.
use support_agent_platform.Shared.{
  ℕ, String, Bool, true, ◌&&◌, ◌||◌, Option, none, some, List, [], ◌∷◌, ◌==◌, eqb, if◌then◌else◌,
  contains, ℤ, Value, null, text, arr, obj, get, of_items, ok, err,
}
use support_agent_platform.Shared.Text.{strip, lower, upper}
use support_agent_platform.Shared.Str.{str, str_or, int_of}
use support_agent_platform.Shared.Int.{at_least_zero}
use support_agent_platform.Storage.Models.{Ticket, priority_text}

-- A frozenset is a list, of which only the membership is read.
pub record MatchScope : Type 0 where
  pub intents : List String
  pub priorities : List String
  pub queues : List String
  pub channels : List String

abbrev pub any_scope : MatchScope
any_scope = record { intents = []; priorities = []; queues = []; channels = [] }

-- `{transform(item.strip()) for item in values if item and item.strip()}`.
unfoldable pub stripped_texts : (String → String) → List Value → List String
unfolding strip str
stripped_texts transform [] = []
stripped_texts transform (v ∷ values) =
    let rest = stripped_texts transform values in
    if strip (str v) == "" then rest else transform (strip (str v)) ∷ rest

-- The values of a selector: none, one, or those of a list.
abbrev pub values_of : Option Value → List Value
values_of none = []
values_of (some null) = []
values_of (some (arr items)) = of_items items
values_of (some v) = v ∷ []

-- `_normalize_collection`.
unfoldable pub normalize_collection : (String → String) → Option Value → List String
unfolding stripped_texts
normalize_collection transform raw = stripped_texts transform (values_of raw)

-- `MatchScope.from_payload`.
unfoldable pub scope_of : Option Value → MatchScope
unfolding normalize_collection lower upper
scope_of (some (obj d)) = record {
  intents = normalize_collection lower (get "intent" d);
  priorities = normalize_collection upper (get "priority" d);
  queues = normalize_collection lower (get "queue" d);
  channels = normalize_collection lower (get "channel" d);
}
scope_of _ = any_scope

-- `_matches`: an empty selector, or one with a star, takes every value.
unfoldable pub selects : List String → String → Bool
selects [] value = true
selects (s ∷ selector) value = contains (s ∷ selector) "*" || contains (s ∷ selector) value

unfoldable pub matches : MatchScope → Ticket → Bool
unfolding selects lower upper priority_text
matches scope t =
    selects scope.intents (lower t.intent)
    && (selects scope.priorities (upper (priority_text t.priority))
        && (selects scope.queues (lower t.queue) && selects scope.channels (lower t.channel)))

pub record SlaRule : Type 0 where
  pub rule_id : String
  pub first_response_minutes : ℕ
  pub resolution_minutes : ℕ
  pub escalation_target : String
  pub escalate_on_breaches : List String
  pub scope : MatchScope

abbrev pub default_breaches : List String
default_breaches = "first_response_overdue" ∷ "resolution_overdue" ∷ []

unfoldable pub default_rule : String → MatchScope → SlaRule
default_rule rule_id scope = record {
  rule_id = rule_id;
  first_response_minutes = 60;
  resolution_minutes = 480;
  escalation_target = "queue";
  escalate_on_breaches = default_breaches;
  scope = scope;
}

-- `max(1, z)`.
unfoldable pub at_least_one : ℤ → ℕ
at_least_one z = let n = at_least_zero z in if eqb n 0 then 1 else n

-- `_safe_int`.
unfoldable pub safe_int : Option Value → ℕ → ℕ
unfolding int_of at_least_one
safe_int none default = default
safe_int (some v) default = elim (int_of v) [ ok z ↦ at_least_one z | err e ↦ default ]

-- The texts that are not blank, stripped, each where it comes first.
unfoldable pub distinct : List String → List String → List String
distinct seen [] = []
distinct seen (s ∷ texts) =
    let kept = s ∷ distinct (s ∷ seen) texts in
    let left_out = distinct seen texts in if contains seen s then left_out else kept

abbrev pub same_text : String → String
same_text s = s

-- `_parse_breach_targets`.
unfoldable pub parse_breach_targets : Option Value → List String
unfolding distinct stripped_texts
parse_breach_targets (some (text s)) = distinct [] (stripped_texts same_text (text s ∷ []))
parse_breach_targets (some (arr items)) = distinct [] (stripped_texts same_text (of_items items))
parse_breach_targets _ = default_breaches

-- `_parse_rule`.
unfoldable pub parse_rule : String → Option Value → MatchScope → SlaRule
unfolding safe_int str_or parse_breach_targets default_rule
parse_rule rule_id (some (obj raw)) scope = record {
  rule_id = rule_id;
  first_response_minutes = safe_int (get "first_response_minutes" raw) 60;
  resolution_minutes = safe_int (get "resolution_minutes" raw) 480;
  escalation_target = str_or (get "escalation_target" raw) (str_or (get "escalation" raw) "queue");
  escalate_on_breaches = parse_breach_targets (get "escalate_on_breaches" raw);
  scope = scope;
}
parse_rule rule_id _ scope = default_rule rule_id scope
