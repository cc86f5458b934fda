-- ===== src/Core/Handoff/Manager.antt =====
-- core/handoff_manager.py: `HandoffManager`. The JSON of the policy's file is an argument.
use support_agent_platform.Shared.{
  ℕ, suc, ◌*◌, ◌^◌, String, ◌<>◌, Bool, true, false, not, ◌&&◌, ◌||◌, Option, none, some, List, [],
  ◌∷◌, ◌++◌, map, ◌==◌, ltb, if◌then◌else◌, take_last, select, some_of, contains, ℤ, pos, negsuc,
  Value, Dict, text, arr, obj, end, entry, get, to_items, Exec, pure, ◌>>=◌, ◌>>◌,
}
use support_agent_platform.Shared.Sort.{sort_in, sort_texts}
use support_agent_platform.Shared.Text.{strip, lower, occurs_in}
use support_agent_platform.Shared.Str.{str_or, of_option}
use support_agent_platform.Shared.Number.{str_ℤ}
use support_agent_platform.Shared.Words.{join}
use support_agent_platform.Storage.Models.{Ticket, TicketEvent}
use support_agent_platform.Storage.World.{World}
use support_agent_platform.Storage.Columns.{Update}
use support_agent_platform.Core.TicketApi.{update_ticket}
use support_agent_platform.Core.TicketActions.{add_event}
use support_agent_platform.Core.IntentRouter.{IntentDecision}
use support_agent_platform.Core.Sla.Rules.{distinct}
use support_agent_platform.Core.Handoff.Rules.{
  HandoffRule, rule_matches, parse_rules, human_keywords, legacy_overrides, legacy_fallbacks,
}

pub record HandoffManager : Type 0 where
  pub policy_version : String
  pub override_rules : List HandoffRule
  pub fallback_rules : List HandoffRule

-- `cls(policy_version=...)`, which has the legacy rules.
unfoldable pub legacy_manager : String → HandoffManager
unfolding legacy_overrides legacy_fallbacks
legacy_manager policy_version = record {
  policy_version =
      if policy_version == "handoff-policy-default" then "legacy-handoff-v1" else policy_version;
  override_rules = legacy_overrides;
  fallback_rules = legacy_fallbacks;
}

-- The fallback rules of a section, which may stand one level deeper.
unfoldable pub fallbacks_of : (String → Option (ℤ × ℕ)) → Dict → List HandoffRule
unfolding parse_rules
fallbacks_of parse section = elim (parse_rules parse (get "fallback_rules" section)) [
  | rule ∷ rules ↦ rule ∷ rules
  | [] ↦ elim (get "fallback" section) [ some (obj d) ↦ parse_rules parse (get "rules" d) | _ ↦ [] ]
]

abbrev pub has_none : List HandoffRule → Bool
has_none [] = true
has_none (r ∷ rules) = false

-- The manager of a section.
unfoldable pub from_section : (String → Option (ℤ × ℕ)) → Dict → Dict → HandoffManager
unfolding fallbacks_of parse_rules str_or legacy_manager
from_section parse payload section =
    let fallbacks = fallbacks_of parse section in
    let overrides = parse_rules parse (get "overrides" section) in
    if has_none fallbacks && has_none overrides
    then legacy_manager (str_or (get "version" section) (str_or (get "version" payload) "v1"))
    else record {
      policy_version =
          str_or (get "version" section) (str_or (get "version" payload) "handoff-policy-v1");
      override_rules = overrides;
      fallback_rules = fallbacks;
    }

-- `from_file`, after `json.loads`.
unfoldable pub manager_of_json : (String → Option (ℤ × ℕ)) → Value → HandoffManager
unfolding from_section str_or legacy_manager
manager_of_json parse (obj payload) = elim (get "handoff" payload) [
  | some (obj section) ↦ from_section parse payload section
  | _ ↦ legacy_manager (str_or (get "version" payload) "legacy-handoff-v1")
]
manager_of_json parse _ = legacy_manager "handoff-policy-default"

-- `confidence < threshold`, of hundredths and m / 10 ^ k.
abbrev pub is_below : ℕ → ℤ × ℕ → Bool
is_below c (pos m, k) = ltb (c * 10 ^ k) (m * 100)
is_below c (negsuc m, k) = false

abbrev pub threshold_of : Option (ℤ × ℕ) → ℤ × ℕ
threshold_of none = (pos 45, 2)
threshold_of (some x) = x

abbrev pub keywords_of : List String → List String
keywords_of [] = human_keywords
keywords_of (k ∷ keywords) = k ∷ keywords

-- Whether a rule on breaches takes those there are.
abbrev pub takes_breaches : List String → List String → Bool
takes_breaches wanted [] = false
takes_breaches [] (b ∷ breaches) = true
takes_breaches (s ∷ wanted) (b ∷ breaches) = some_of (contains (b ∷ breaches)) (s ∷ wanted)

-- `_rule_triggered`.
unfoldable pub rule_triggered : HandoffRule → Ticket → IntentDecision → List String → Bool
unfolding lower occurs_in
rule_triggered rule t intent breaches =
    if rule.trigger == "always"
    then true
    else if rule.trigger == "low_confidence"
    then intent.is_low_confidence
      || is_below intent.confidence (threshold_of rule.low_confidence_threshold)
    else if rule.trigger == "customer_request_human"
    then some_of (λ keyword. occurs_in keyword (lower t.latest_message)) (keywords_of rule.keywords)
    else (rule.trigger == "sla_breach") && takes_breaches rule.sla_breaches breaches

pub record HandoffDecision : Type 0 where
  pub should_handoff : Bool
  pub reason : String
  pub payload : Dict
  pub policy_version : String
  pub matched_rule_paths : List String

abbrev pub applies : Ticket → IntentDecision → List String → HandoffRule → Bool
applies t intent breaches rule = rule_matches rule.scope t && rule_triggered rule t intent breaches

-- The paths of the rules that apply, by their places.
unfoldable pub matched_paths :
    String → ℕ → Ticket → IntentDecision → List String → List HandoffRule → List String
unfolding str_ℤ
matched_paths section n t intent breaches [] = []
matched_paths section n t intent breaches (rule ∷ rules) =
    let rest = matched_paths section (suc n) t intent breaches rules in
    if applies t intent breaches rule
    then ("handoff." <> section <> "[" <> str_ℤ (pos n) <> "]::" <> rule.rule_id) ∷ rest
    else rest

abbrev pub reasons_of : Ticket → IntentDecision → List String → List HandoffRule → List String
reasons_of t intent breaches rules =
    map (λ (r : HandoffRule). r.reason) (select (applies t intent breaches) rules)

abbrev texts_json : List String → Value
texts_json texts = arr (to_items (map text texts))

abbrev pub is_nil : List String → Bool
is_nil [] = true
is_nil (s ∷ texts) = false

-- `recommendations` are the actions' names; a set of breaches is a list without repetitions.
unfoldable pub evaluate :
    HandoffManager
    → Ticket
    → IntentDecision
    → String
    → List String
    → List TicketEvent
    → List String
    → HandoffDecision
unfolding matched_paths distinct join sort_in
evaluate manager t intent case_summary recommendations recent_events breaches =
    let rules = manager.override_rules ++ manager.fallback_rules in
    let reasons = distinct [] (reasons_of t intent breaches rules) in
    let paths =
      matched_paths "overrides" 0 t intent breaches manager.override_rules
      ++ matched_paths "fallback_rules" 0 t intent breaches manager.fallback_rules in
    let should_handoff = not (is_nil reasons) in
    record {
      should_handoff = should_handoff;
      reason = if should_handoff then join ";" reasons else "no-trigger";
      payload = entry "ticket_id" (text t.ticket_id) (
          entry "summary" (text case_summary) (
            entry "evidence_events"
              (texts_json (map (λ (e : TicketEvent). e.event_type) (take_last 5 recent_events)))
              (entry "recommended_actions" (texts_json recommendations) (
                entry "policy_version" (text manager.policy_version) (
                  entry "matched_rule_paths" (texts_json paths) (
                    entry "sla_breaches" (texts_json (sort_texts (distinct [] breaches))) end))))));
      policy_version = manager.policy_version;
      matched_rule_paths = paths;
    }

unfoldable pub mark_handoff : String → HandoffDecision → Exec World Ticket
mark_handoff id decision = do
  ticket ←
      update_ticket id
        (Update.status "handoff" ∷ Update.needs_handoff true ∷ Update.queue "human-handoff" ∷ [])
        "handoff-manager"
  add_event id "handoff_triggered" "system" "handoff-manager"
      (entry "reason" (text decision.reason) (entry "payload" (obj decision.payload) end))
  pure ticket

-- `resume_state or "accepted"`.
abbrev pub accepted_or : String → String
accepted_or s = if s == "" then "accepted" else s

unfoldable pub resume : String → String → String → Option String → Dict → Exec World Ticket
unfolding strip str_or
resume id actor_id remark approval_id context = do
  ticket ←
      update_ticket id
        (Update.status "pending"
          ∷ Update.needs_handoff false
          ∷ Update.latest_message remark
          ∷ Update.handoff_state
              (accepted_or (strip (str_or (get "resume_handoff_state" context) "")))
          ∷ [])
        actor_id
  add_event id "handoff_resumed" "agent" actor_id (
      entry "note" (text remark)
        (entry "approval_id" (of_option approval_id) (entry "context" (obj context) end)))
  pure ticket
