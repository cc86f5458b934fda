-- ===== src/Tests/Approvals.antt =====
-- Pending approvals of one ticket.
use support_agent_platform.Shared.{◌≡◌, refl, none, some, [], ◌∷◌, end, ok}
use support_agent_platform.Shared.Text.{strip}
use support_agent_platform.Storage.Models.{Ticket, Status, intake, p3}
use support_agent_platform.Storage.World.{World, Row}
use support_agent_platform.Storage.Repository
use support_agent_platform.Storage.Repository.{typed_row}
use support_agent_platform.Core.Hitl.PendingActions.{
  PendingAction, pending_approval, load_pending_actions, save_pending_actions,
}
use support_agent_platform.Core.Hitl.RoundTrip.{IsStorable, load_pending_actions-save}
use support_agent_platform.Tests.Stores.{empty, open_row}

abbrev pub action : PendingAction
action = record {
  approval_id = "apr_1";
  ticket_id = "TCK-1";
  action_type = "escalate";
  risk_level = "high";
  status = pending_approval;
  requested_by = "bob";
  requested_at = "2026-01-01T00:00:00Z";
  timeout_at = "2026-01-01T00:30:00Z";
  reason = "escalation";
  payload = end;
  context = end;
  approved_by = none;
  rejected_by = none;
  decided_at = none;
  decision_note = none;
}

pub storable : IsStorable action
unfolding strip
storable = record {
  approval_id = record { there = refl; stripped = refl };
  action_type = record { there = refl; stripped = refl };
  ticket_id = refl;
  risk_level = refl;
  requested_by = refl;
  requested_at = refl;
  timeout_at = refl;
  reason = refl;
  approved_by = tt;
  rejected_by = tt;
  decided_at = tt;
  decision_note = tt;
}

-- A closed ticket without metadata, and with the action in it.
abbrev bare_row : Row
bare_row = record open_row { status = "closed" }

abbrev bare : Ticket
bare = typed_row bare_row p3 Status.closed intake

abbrev held_row : Row
held_row = record bare_row { metadata = save_pending_actions end (action ∷ []) }

-- Every time is read as the first.
abbrev world : World
world = record empty { tickets = held_row ∷ []; fromisoformat = λ s. some 0 }

load_pending_actions-save_example :
    load_pending_actions
      (record bare { metadata = save_pending_actions bare.metadata (action ∷ []) })
      world
    ≡ (ok (action ∷ []), world)
load_pending_actions-save_example =
    load_pending_actions-save bare (action ∷ []) world (storable, tt)
