-- ===== src/Tests/Stores.antt =====
-- Concrete worlds for the tests.
use support_agent_platform.Shared.{ℕ, zero, suc, ◌+◌, String, false, none, [], ◌∷◌, end}
use support_agent_platform.Storage.World.{World, Row}

-- An open ticket of the wecom channel.
abbrev pub open_row : Row
open_row = record {
  ticket_id = "TCK-1";
  channel = "wecom";
  session_id = "s-1";
  thread_id = "th-1";
  customer_id = none;
  title = "printer";
  latest_message = "it is broken";
  intent = "repair";
  priority = "P3";
  status = "open";
  queue = "support";
  assignee = none;
  needs_handoff = false;
  inbox = "wecom";
  lifecycle_stage = "intake";
  first_response_due_at = none;
  resolution_due_at = none;
  escalated_at = none;
  resolved_at = none;
  closed_at = none;
  resolution_note = none;
  resolution_code = none;
  close_reason = none;
  source_channel = "wecom";
  handoff_state = "none";
  last_agent_action = none;
  risk_level = "medium";
  metadata = end;
  created_at = 10;
  updated_at = 10;
}

-- The identifiers that the tests draw; two are enough for any of them to be new.
abbrev hex : ℕ → String
hex zero = "0123456789abcdef"
hex (suc zero) = "1123456789abcdef"
hex (suc (suc zero)) = "2123456789abcdef"
hex _ = "3123456789abcdef"

abbrev pub empty : World
empty = record {
  tickets = [];
  events = [];
  sessions = [];
  clock = λ n. 100 + n;
  reads = 0;
  uuid = hex;
  drawn = 0;
  uuid5 = λ s. s;
  isoformat = λ n. "t";
  fromisoformat = λ s. none;
}

-- One open ticket.
abbrev pub with_open : World
with_open = record empty { tickets = open_row ∷ [] }
