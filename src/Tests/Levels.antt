-- ===== src/Tests/Levels.antt =====
-- Service levels of one ticket.
use support_agent_platform.Shared.{
  ◌≡◌, refl, true, [], arith, contains, pos, Value, int, obj, end, entry, get, ok,
}
use support_agent_platform.Storage.Models.{Ticket, opened, intake, p3}
use support_agent_platform.Storage.Repository.{typed_row}
use support_agent_platform.Core.Sla.Rules.{SlaRule, any_scope, default_rule}
use support_agent_platform.Core.Sla.Engine.{SlaEngine, default_policy, evaluate, from_json}
use support_agent_platform.Core.Sla.Choice.{Chosen}
use support_agent_platform.Core.Sla.Laws.{Follows, evaluate-Follows, evaluate-later}
use support_agent_platform.Core.Sla.Limits.{AllPositive, all_rules, from_json-AllPositive}
use support_agent_platform.Tests.Stores.{open_row}

abbrev ticket : Ticket
ticket = typed_row open_row p3 opened intake

evaluate-Follows_example :
    (rule : SlaRule) × (Chosen ticket default_policy.fallback_rule default_policy.override_rules
        rule
      × Follows rule ticket [] 3600000011 (evaluate default_policy ticket [] 3600000011))
evaluate-Follows_example = evaluate-Follows default_policy ticket [] 3600000011

late :
    contains (evaluate default_policy ticket [] 3600000011).breached_items "first_response_overdue"
    ≡ true
unfolding evaluate default_policy typed_row
late = refl

evaluate-later_example :
    contains (evaluate default_policy ticket [] 4000000000).breached_items "first_response_overdue"
    ≡ true
evaluate-later_example =
    evaluate-later default_policy ticket [] 3600000011 4000000000 "first_response_overdue"
      (omega arith) late

-- A policy whose fallback asks for an answer in no time.
abbrev policy : Value
policy = obj (entry "fallback" (obj (entry "first_response_minutes" (int (pos 0)) end)) end)

abbrev built : SlaEngine
built = record {
  policy_version = "sla-policy-v1";
  fallback_rule = record (default_rule "fallback" any_scope) { first_response_minutes = 1 };
  override_rules = [];
}

policy_reads : from_json policy ≡ ok built
unfolding from_json default_rule get
policy_reads = refl

from_json-AllPositive_example : AllPositive (all_rules built)
from_json-AllPositive_example = from_json-AllPositive policy built policy_reads
