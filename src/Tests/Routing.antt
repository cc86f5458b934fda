-- ===== src/Tests/Routing.antt =====
-- The intent of a message, and the handoff that it may lead to.
use support_agent_platform.Shared.{String, ◌≡◌, refl, ◌↔◌, true, false, List, [], ◌++◌, ◌==◌}
use support_agent_platform.Shared.Text.{strip, lower}
use support_agent_platform.Storage.Models.{Ticket, opened, intake, p3}
use support_agent_platform.Storage.Repository.{typed_row}
use support_agent_platform.Core.IntentRouter.{
  IntentDecision, default_router, intent_keywords, scored, route,
}
use support_agent_platform.Core.IntentRouter.Best.{IsBest, route-IsBest}
use support_agent_platform.Core.Handoff.Manager.{HandoffManager, legacy_manager, evaluate}
use support_agent_platform.Core.Handoff.Laws.{Paths, evaluate-Applies}
use support_agent_platform.Tests.Stores.{open_row}
use support_agent_platform.Core.Handoff.Triggers.{Applies}
use support_agent_platform.Core.Handoff.Rules.{HandoffRule}
use support_agent_platform.Shared.Elements.{Occurs}

abbrev message : String
message = "空调坏了，要报修"

there : (strip (lower message) == "") ≡ false
unfolding strip lower
there = refl

route-IsBest_example :
    IsBest default_router
      (scored (strip (lower message)) intent_keywords)
      (route default_router message)
route-IsBest_example = route-IsBest default_router message there

abbrev decision : IntentDecision
decision = record {
  intent = "repair";
  confidence = 30;
  is_low_confidence = false;
  reason = "keyword-match";
}

abbrev ticket : Ticket
ticket = typed_row open_row p3 opened intake

abbrev manager : HandoffManager
manager = legacy_manager "v1"

evaluate-Applies_example :
    let result = evaluate manager ticket decision "summary" [] [] [] in
    ((result.should_handoff ≡ true) ↔ (
      (rule : HandoffRule) × (Occurs rule (manager.override_rules ++ manager.fallback_rules)
        × Applies rule ticket decision [])))
    × ((first_paths : List String) × ((other_paths : List String) × ((result.matched_rule_paths
              ≡ first_paths ++ other_paths)
            × (Paths ticket decision [] "overrides" 0 manager.override_rules first_paths
                × Paths ticket decision [] "fallback_rules" 0 manager.fallback_rules other_paths))))
evaluate-Applies_example = evaluate-Applies ticket decision [] manager "summary" [] []
