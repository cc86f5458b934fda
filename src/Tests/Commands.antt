-- ===== src/Tests/Commands.antt =====
-- Commands of agents.
use support_agent_platform.Shared.{◌<>◌, ◌≡◌, refl, [], ◌∷◌, ok}
use support_agent_platform.Shared.Text.{lower, is_space}
use support_agent_platform.Shared.Words.{split, join_words}
use support_agent_platform.Shared.Yields.{OnOk}
use support_agent_platform.Core.Lifecycle.Settling.{SameStatuses}
use support_agent_platform.Core.Hitl.ApprovalPolicy.{default_policy}
use support_agent_platform.Workflows.Commands.{parse_command, parse_command-join_words}
use support_agent_platform.Workflows.CaseCollab.{handle_command}
use support_agent_platform.Workflows.CaseCollab.Approvals.{Waits, escalation_deferred}
use support_agent_platform.Tests.Stores.{with_open}

parse_command-join_words_example :
    parse_command ("/" <> join_words ("Reassign" ∷ "ann" ∷ [])) ≡ ok (lower "Reassign", "ann" ∷ [])
unfolding is_space
parse_command-join_words_example =
    parse_command-join_words "Reassign" ("ann" ∷ []) (refl, (refl, tt))

escalation_read : parse_command "/escalate too slow" ≡ ok ("escalate", "too" ∷ "slow" ∷ [])
unfolding parse_command is_space split
escalation_read = refl

escalation_deferred_example :
    SameStatuses with_open
      (handle_command "TCK-1" "bob" "/escalate too slow" default_policy with_open).1
    × OnOk Waits (handle_command "TCK-1" "bob" "/escalate too slow" default_policy with_open).0
escalation_deferred_example =
    escalation_deferred "TCK-1" "bob" "/escalate too slow" default_policy ("too" ∷ "slow" ∷ [])
      with_open escalation_read
