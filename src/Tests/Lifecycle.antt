-- ===== src/Tests/Lifecycle.antt =====
-- Histories of calls of the ticket API.
use support_agent_platform.Shared.{◌≡◌, refl, ◌↔◌, true, none, some, List, [], ◌∷◌, end}
use support_agent_platform.Storage.Models.{Status, pending}
use support_agent_platform.Core.TicketApi.{allowed}
use support_agent_platform.Core.TicketActions.{Closing}
use support_agent_platform.Core.Lifecycle.{Edge, allowed-Edge}
use support_agent_platform.Core.Hitl.ApprovalRuntime.{ApprovalRequest}
use support_agent_platform.Core.Lifecycle.History.{
  Call, assigns, closes, run, run-Survives, Survives,
}
use support_agent_platform.Storage.Repository.{find_row}
use support_agent_platform.Tests.Stores.{with_open, open_row}

abbrev closing : Closing
closing = record {
  close_reason = none;
  resolution_code = none;
  handoff_state = none;
  metadata = none;
}

abbrev escalation : ApprovalRequest
escalation = record {
  ticket_id = "TCK-1";
  action_type = "escalate";
  actor_id = "bob";
  payload = end;
  context = end;
  timeout_minutes = none;
}

-- The ticket is assigned, an approval is asked for, it is closed, and then called on again.
abbrev history : List Call
history =
    assigns "TCK-1" "ann" "bob"
    ∷ closes "TCK-1" "bob" "done" closing
    ∷ assigns "TCK-1" "eve" "bob"
    ∷ []

found : find_row "TCK-1" with_open.tickets ≡ some open_row
unfolding find_row
found = refl

run-Survives_example : Survives open_row (find_row "TCK-1" (run history with_open).tickets)
run-Survives_example = run-Survives history with_open "TCK-1" open_row found

-- A ticket that is resolved can be worked on again.
allowed-Edge_example : (allowed Status.resolved pending ≡ true) ↔ Edge Status.resolved pending
allowed-Edge_example = allowed-Edge Status.resolved pending
