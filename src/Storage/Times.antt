-- ===== src/Storage/Times.antt =====
-- storage/ticket_repository.py: the times in a row, as they are read.
use support_agent_platform.Shared.{
  ℕ, String, ◌<>◌, Bool, true, not, ◌&&◌, Option, none, some, ◌==◌, if◌then◌else◌,
}
use support_agent_platform.Storage.Models.{StoredTime, moment, written}
use support_agent_platform.Storage.World.{Row}

-- The `repr` of a text without a quote in it.
abbrev pub quoted : String → String
quoted name = "'" <> name <> "'"

-- `_parse_optional_datetime`: what is read, and whether it is; an empty text is None.
unfoldable pub time_of : Option StoredTime → Option ℕ
time_of none = none
time_of (some (moment t)) = some t
time_of (some (written s read)) = if s == "" then none else read

unfoldable pub is_read : Option StoredTime → Bool
is_read none = true
is_read (some (moment t)) = true
is_read (some (written s (some t))) = true
is_read (some (written s none)) = s == ""

abbrev pub time_text : Option StoredTime → String
time_text (some (written s read)) = s
time_text _ = ""

-- Whether all five times are read.
abbrev pub reads_times : Row → Bool
reads_times r =
    is_read r.first_response_due_at
    && (is_read r.resolution_due_at
        && (is_read r.escalated_at && (is_read r.resolved_at && is_read r.closed_at)))

-- The first text that is not read.
unfoldable pub unread_text : Row → String
unfolding is_read
unread_text r =
    if not (is_read r.first_response_due_at)
    then time_text r.first_response_due_at
    else if not (is_read r.resolution_due_at)
    then time_text r.resolution_due_at
    else if not (is_read r.escalated_at)
    then time_text r.escalated_at
    else if not (is_read r.resolved_at)
    then time_text r.resolved_at
    else time_text r.closed_at
