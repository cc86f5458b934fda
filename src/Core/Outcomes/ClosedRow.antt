-- ===== src/Core/Outcomes/ClosedRow.antt =====
-- core/ticket_api.py: the row and the event that a closure leaves.
use support_agent_platform.Shared.{
  ℕ, String, ◌≡◌, refl, false, Option, none, some, [], Dict, text, end, entry,
}
use support_agent_platform.Shared.Str.{of_option}
use support_agent_platform.Storage.Models.{
  moment, TicketEvent, Status, Stage, status_text, stage_text,
}
use support_agent_platform.Storage.World.{World, Row}
use support_agent_platform.Storage.Columns.{unknown_fields, set_columns, has_stage}
use support_agent_platform.Core.TicketApi.{transition_updates}
use support_agent_platform.Core.TicketActions.{
  Closing, close_updates, handoff_update, metadata_update, reason_or_default,
}
use support_agent_platform.Core.Outcomes.{next_event}

abbrev pub state_or : Option String → String → String
state_or none default = default
state_or (some s) default = s

abbrev pub metadata_or : Option Dict → Dict → Dict
metadata_or none default = default
metadata_or (some d) default = d

-- The columns that a closure writes, at two readings of the clock.
abbrev pub closed_row : String → Closing → ℕ → ℕ → Row → Row
closed_row note c closed_at updated_at r = record r {
  needs_handoff = false;
  latest_message = note;
  resolution_note = some note;
  resolution_code = c.resolution_code;
  close_reason = some (reason_or_default c.close_reason);
  closed_at = some (moment closed_at);
  lifecycle_stage = "closed";
  last_agent_action = some "close";
  handoff_state = state_or c.handoff_state r.handoff_state;
  metadata = metadata_or c.metadata r.metadata;
  status = "closed";
  updated_at = updated_at;
}

abbrev pub closure_payload : String → Closing → Dict
closure_payload note c = entry "resolution_note" (text note) (
    entry "resolution_code" (of_option c.resolution_code)
      (entry "close_reason" (text (reason_or_default c.close_reason)) end))

abbrev pub closure_event : String → String → String → Closing → World → TicketEvent
closure_event id actor_id note c w =
    next_event id "ticket_closed" "agent" actor_id
      (entry "from_status" (text "resolved") (
        entry "to_status" (text "closed")
          (entry "policy" (text "ticket_lifecycle_v1") (closure_payload note c))))
      w

pub set_columns-close :
    (note : String) (reason code handoff : Option String) (metadata : Option Dict) (time : ℕ)
    (l : Stage) (r : Row)
    → let c : Closing = record {
      close_reason = reason;
      resolution_code = code;
      handoff_state = handoff;
      metadata = metadata;
    } in
      record (set_columns (transition_updates Status.closed l (close_updates note c time)) r) {
        updated_at = r.updated_at;
      }
      ≡ closed_row note c time r.updated_at r
unfolding set_columns transition_updates close_updates handoff_update metadata_update has_stage
    stage_text status_text
set_columns-close note reason code none none time l r = refl
set_columns-close note reason code none (some d) time l r = refl
set_columns-close note reason code (some h) none time l r = refl
set_columns-close note reason code (some h) (some d) time l r = refl

pub unknown_fields-close :
    (note : String) (reason code handoff : Option String) (metadata : Option Dict) (time : ℕ)
    (l : Stage)
    → unknown_fields (
        transition_updates Status.closed l (
          close_updates note
            (record {
              close_reason = reason;
              resolution_code = code;
              handoff_state = handoff;
              metadata = metadata;
            })
            time))
      ≡ []
unfolding unknown_fields transition_updates close_updates handoff_update metadata_update has_stage
    stage_text status_text
unknown_fields-close note reason code none none time l = refl
unknown_fields-close note reason code none (some d) time l = refl
unknown_fields-close note reason code (some h) none time l = refl
unknown_fields-close note reason code (some h) (some d) time l = refl
