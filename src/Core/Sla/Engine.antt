-- ===== src/Core/Sla/Engine.antt =====
-- core/sla_engine.py: `SlaEngine`. The JSON of the policy's file, and the time, are arguments.
use support_agent_platform.Shared.{
  ℕ, suc, ◌+◌, ◌*◌, String, ◌<>◌, Bool, true, false, not, ◌&&◌, none, some, List, [], ◌∷◌, ◌++◌,
  ◌==◌, ltb, if◌then◌else◌, some_of, first, contains, pos, Value, Dict, obj, end, entry, get,
  Result, ok, err,
}
use support_agent_platform.Shared.Text.{upper}
use support_agent_platform.Shared.Str.{str_or}
use support_agent_platform.Shared.Number.{str_ℤ}
use support_agent_platform.Storage.Models.{Ticket, TicketEvent, Status}
use support_agent_platform.Openclaw.SessionMapper.{iterate}
use support_agent_platform.Core.Sla.Rules.{
  any_scope, scope_of, matches, SlaRule, default_rule, parse_rule,
}

pub record SlaEngine : Type 0 where
  pub policy_version : String
  pub fallback_rule : SlaRule
  pub override_rules : List SlaRule

unfoldable pub default_policy : SlaEngine
unfolding default_rule
default_policy = record {
  policy_version = "sla-policy-default";
  fallback_rule = default_rule "fallback" any_scope;
  override_rules = [];
}

-- The rules of a list of overrides; what is no dict is left out, and counted.
unfoldable pub parse_overrides : ℕ → List Value → List SlaRule
unfolding str_or str_ℤ parse_rule scope_of
parse_overrides n [] = []
parse_overrides n (obj item ∷ values) =
    parse_rule (str_or (get "id" item) ("override-" <> str_ℤ (pos n))) (some (obj item))
      (scope_of (get "when" item))
    ∷ parse_overrides (suc n) values
parse_overrides n (_ ∷ values) = parse_overrides (suc n) values

-- The rules of a dict by priority.
unfoldable pub legacy_rules : Dict → List SlaRule
unfolding parse_rule upper
legacy_rules end = []
legacy_rules (entry priority (obj item) rules) =
    parse_rule ("legacy-" <> upper priority) (some (obj item))
      (record { intents = []; priorities = upper priority ∷ []; queues = []; channels = [] })
    ∷ legacy_rules rules
legacy_rules (entry _ _ rules) = legacy_rules rules

-- `_from_legacy_payload`.
unfoldable pub from_legacy : Dict → Dict → SlaEngine
unfolding str_or legacy_rules default_rule
from_legacy payload rules =
    let overrides = legacy_rules rules in
    record {
      policy_version = str_or (get "version" payload) "legacy-sla-v1";
      fallback_rule = elim (first (λ (r : SlaRule). contains r.scope.priorities "P3") overrides) [
        | none ↦ default_rule "fallback" any_scope
        | some r ↦ r
      ];
      override_rules = overrides;
    }

-- The policy of a payload that is not of the old form.
unfoldable pub from_sections : Dict → Result SlaEngine
unfolding str_or parse_rule parse_overrides iterate
from_sections payload = elim (iterate (get "overrides" payload)) [
  | err e ↦ err e
  | ok items ↦ ok (record {
    policy_version = str_or (get "version" payload) "sla-policy-v1";
    fallback_rule = parse_rule "fallback" (get "fallback" payload) any_scope;
    override_rules = parse_overrides 0 items;
  })
]

-- `from_file`, after `json.loads`.
unfoldable pub from_json : Value → Result SlaEngine
unfolding default_policy from_legacy from_sections
from_json (obj payload) = elim (get "rules" payload) [
  | some (obj rules) ↦ elim (get "overrides" payload) [
    | none ↦ ok (from_legacy payload rules)
    | some _ ↦ from_sections payload
  ]
  | _ ↦ from_sections payload
]
from_json _ = ok default_policy

pub record SlaCheckResult : Type 0 where
  pub first_response_due_at : ℕ
  pub resolution_due_at : ℕ
  pub breached_items : List String
  pub escalation_targets : List String
  pub policy_version : String
  pub matched_rule_id : String
  pub matched_rule_path : String
  pub used_fallback : Bool

-- The loop of `_select_rule`, from an index on.
unfoldable pub select_from : ℕ → List SlaRule → SlaRule → Ticket → SlaRule × (String × Bool)
unfolding matches str_ℤ
select_from n [] fallback t = (fallback, ("sla.fallback::" <> fallback.rule_id, true))
select_from n (rule ∷ rules) fallback t =
    let rest = select_from (suc n) rules fallback t in
    if matches rule.scope t
    then (rule, ("sla.overrides[" <> str_ℤ (pos n) <> "]::" <> rule.rule_id, false))
    else rest

abbrev pub first_response_event_types : List String
first_response_event_types = "assigned" ∷ "reassigned" ∷ "agent_reply" ∷ "ticket_assigned" ∷ []

abbrev pub is_resolved : Status → Bool
is_resolved Status.resolved = true
is_resolved Status.closed = true
is_resolved _ = false

-- The due times of a rule; a minute is 60 000 000 microseconds.
abbrev pub first_due : SlaRule → Ticket → ℕ
first_due rule t = t.created_at + rule.first_response_minutes * 60000000

abbrev pub resolution_due : SlaRule → Ticket → ℕ
resolution_due rule t = t.created_at + rule.resolution_minutes * 60000000

abbrev pub first_response_done : List TicketEvent → Bool
first_response_done events =
    some_of (λ (e : TicketEvent). contains first_response_event_types e.event_type) events

unfoldable pub breaches : SlaRule → Ticket → List TicketEvent → ℕ → List String
breaches rule t events time =
    (if not (first_response_done events) && ltb (first_due rule t) time
      then "first_response_overdue" ∷ []
      else [])
    ++ (if not (is_resolved t.status) && ltb (resolution_due rule t) time
        then "resolution_overdue" ∷ []
        else [])

-- The loop over the breaches, with the targets so far.
unfoldable pub add_targets : SlaRule → List String → List String → List String
add_targets rule targets [] = targets
add_targets rule targets (breach ∷ items) =
    add_targets rule
      (if contains rule.escalate_on_breaches breach && not (contains targets rule.escalation_target)
        then targets ++ rule.escalation_target ∷ []
        else targets)
      items

unfoldable pub escalation_targets : SlaRule → List String → List String
unfolding add_targets
escalation_targets rule items =
    if rule.escalation_target == "" then [] else add_targets rule [] items

unfoldable pub evaluate : SlaEngine → Ticket → List TicketEvent → ℕ → SlaCheckResult
unfolding select_from breaches escalation_targets
evaluate engine t events time =
    let (rule, path) = select_from 0 engine.override_rules engine.fallback_rule t in
    let items = breaches rule t events time in
    record {
      first_response_due_at = first_due rule t;
      resolution_due_at = resolution_due rule t;
      breached_items = items;
      escalation_targets = escalation_targets rule items;
      policy_version = engine.policy_version;
      matched_rule_id = rule.rule_id;
      matched_rule_path = path.0;
      used_fallback = path.1;
    }
