-- ===== src/Storage/Columns.antt =====
-- storage/ticket_repository.py: the columns that an update may write. A Python dict of updates is a
-- list of them, one for each key; `other` is a key that is no column.
use support_agent_platform.Shared.{
  String, Bool, true, false, Option, none, some, List, [], ◌∷◌, Dict,
}
use support_agent_platform.Storage.Models.{StoredTime}
use support_agent_platform.Storage.World.{Row}

pub data Update : Type 0 where
  title latest_message intent priority status queue inbox lifecycle_stage : String → Update
  source_channel handoff_state risk_level : String → Update
  assignee resolution_note resolution_code close_reason last_agent_action : Option String → Update
  first_response_due_at resolution_due_at escalated_at resolved_at closed_at :
      Option StoredTime → Update
  needs_handoff : Bool → Update
  metadata : Dict → Update
  other : String → Update

-- `set(updates) - allowed_fields`.
unfoldable pub unknown_fields : List Update → List String
unknown_fields [] = []
unknown_fields (Update.other key ∷ updates) = key ∷ unknown_fields updates
unknown_fields (_ ∷ updates) = unknown_fields updates

-- One assignment of the UPDATE statement.
unfoldable pub set_column : Update → Row → Row
set_column (Update.title v) r = record r { title = v }
set_column (Update.latest_message v) r = record r { latest_message = v }
set_column (Update.intent v) r = record r { intent = v }
set_column (Update.priority v) r = record r { priority = v }
set_column (Update.status v) r = record r { status = v }
set_column (Update.queue v) r = record r { queue = v }
set_column (Update.inbox v) r = record r { inbox = v }
set_column (Update.lifecycle_stage v) r = record r { lifecycle_stage = v }
set_column (Update.source_channel v) r = record r { source_channel = v }
set_column (Update.handoff_state v) r = record r { handoff_state = v }
set_column (Update.risk_level v) r = record r { risk_level = v }
set_column (Update.assignee v) r = record r { assignee = v }
set_column (Update.resolution_note v) r = record r { resolution_note = v }
set_column (Update.resolution_code v) r = record r { resolution_code = v }
set_column (Update.close_reason v) r = record r { close_reason = v }
set_column (Update.last_agent_action v) r = record r { last_agent_action = v }
set_column (Update.first_response_due_at v) r = record r { first_response_due_at = v }
set_column (Update.resolution_due_at v) r = record r { resolution_due_at = v }
set_column (Update.escalated_at v) r = record r { escalated_at = v }
set_column (Update.resolved_at v) r = record r { resolved_at = v }
set_column (Update.closed_at v) r = record r { closed_at = v }
set_column (Update.needs_handoff v) r = record r { needs_handoff = v }
set_column (Update.metadata v) r = record r { metadata = v }
set_column (Update.other key) r = r

unfoldable pub set_columns : List Update → Row → Row
unfolding set_column
set_columns [] r = r
set_columns (u ∷ updates) r = set_columns updates (set_column u r)

-- `updates["status"]`, if there is that key.
unfoldable pub status_update : List Update → Option String
status_update [] = none
status_update (Update.status s ∷ updates) = some s
status_update (_ ∷ updates) = status_update updates

-- `updates.pop("status")`.
unfoldable pub without_status : List Update → List Update
without_status [] = []
without_status (Update.status s ∷ updates) = without_status updates
without_status (u ∷ updates) = u ∷ without_status updates

-- `"lifecycle_stage" in updates`.
unfoldable pub has_stage : List Update → Bool
has_stage [] = false
has_stage (Update.lifecycle_stage s ∷ updates) = true
has_stage (_ ∷ updates) = has_stage updates
