-- ===== src/Tests/Tools.antt =====
-- Calls of the tools of core/tool_router.py.
use support_agent_platform.Shared.{
  ◌≡◌, refl, true, none, [], contains, Value, text, arr, nil, end, entry, get, err, value_error,
  Exec, pure,
}
use support_agent_platform.Shared.Str.{str}
use support_agent_platform.Shared.Text.{strip, is_space}
use support_agent_platform.Storage.Models.{parse_priority}
use support_agent_platform.Storage.World.{World}
use support_agent_platform.Core.Tools.{str_at}
use support_agent_platform.Core.ToolRouter.{SearchCall, ToolArgs, checked_str, execute, require_str}
use support_agent_platform.Core.ToolRouter.Checks.{Refuses}
use support_agent_platform.Core.ToolRouter.Refusals.{required_fields, missing_field_refuses}
use support_agent_platform.Core.ToolRouter.Priorities.{Leaves, bad_priority-Leaves}
use support_agent_platform.Tests.Stores.{with_open}

-- A search that finds nothing.
abbrev no_results : SearchCall → Exec World Value
no_results c = pure (arr nil)

-- An escalation with a blank reason, and a priority that is none.
abbrev hasty : ToolArgs
hasty = record {
  fields = entry "ticket_id" (text "TCK-1") (
      entry "actor_id" (text "bob") (
        entry "reason" (text "   ")
          (entry "new_priority" (text "urgent") (entry "priority" (text "P9") end))));
  updates = [];
}

blank_reason :
    require_str "reason" hasty.fields ≡ err (value_error "Field 'reason' cannot be empty")
unfolding require_str checked_str get str strip is_space
blank_reason = refl

among_required : contains (required_fields "escalate_case") "reason" ≡ true
unfolding required_fields
among_required = refl

missing_field_refuses_example :
    Refuses
      (required_fields "escalate_case")
      hasty.fields
      (execute no_results true "escalate_case" hasty)
      with_open
missing_field_refuses_example =
    missing_field_refuses no_results true hasty with_open "reason"
      (value_error "Field 'reason' cannot be empty") blank_reason "escalate_case" among_required

no_priority : parse_priority (str_at "priority" "P3" hasty.fields) ≡ none
unfolding parse_priority str get
no_priority = refl

no_new_priority : parse_priority (str_at "new_priority" "P1" hasty.fields) ≡ none
unfolding parse_priority str get
no_new_priority = refl

bad_priority-Leaves_example :
    Leaves (execute no_results true "create_ticket" hasty) with_open
    × Leaves (execute no_results true "escalate_case" hasty) with_open
bad_priority-Leaves_example =
    bad_priority-Leaves no_results true hasty hasty with_open no_priority no_new_priority
