-- ===== src/Storage/Models.antt =====
-- storage/models.py: the literal types and the records of the domain. A time is a number of
-- microseconds; metadata and payloads are JSON dicts.
use support_agent_platform.Shared.Ratio.{Ratio}
use support_agent_platform.Shared.{
  ℕ, String, Bool, Option, none, some, List, ◌==◌, if◌then◌else◌, Dict,
}

pub data Priority : Type 0 where
  p1 p2 p3 p4 : Priority

-- `opened` is "open", a reserved word here.
pub data Status : Type 0 where
  opened pending escalated handoff resolved closed : Status

pub data Stage : Type 0 where
  intake classified retrieved drafted awaiting_human resolved closed : Stage

unfoldable pub priority_text : Priority → String
priority_text p1 = "P1"
priority_text p2 = "P2"
priority_text p3 = "P3"
priority_text p4 = "P4"

unfoldable pub status_text : Status → String
status_text opened = "open"
status_text pending = "pending"
status_text escalated = "escalated"
status_text handoff = "handoff"
status_text Status.resolved = "resolved"
status_text Status.closed = "closed"

unfoldable pub stage_text : Stage → String
stage_text intake = "intake"
stage_text classified = "classified"
stage_text retrieved = "retrieved"
stage_text drafted = "drafted"
stage_text awaiting_human = "awaiting_human"
stage_text Stage.resolved = "resolved"
stage_text Stage.closed = "closed"

-- `text in {"P1", ...}`, with the literal that it is.
unfoldable pub parse_priority : String → Option Priority
parse_priority s =
    if s == "P1"
    then some p1
    else if s == "P2"
    then some p2
    else if s == "P3"
    then some p3
    else if s == "P4"
    then some p4
    else none

unfoldable pub parse_status : String → Option Status
parse_status s =
    if s == "open"
    then some opened
    else if s == "pending"
    then some pending
    else if s == "escalated"
    then some escalated
    else if s == "handoff"
    then some handoff
    else if s == "resolved"
    then some Status.resolved
    else if s == "closed"
    then some Status.closed
    else none

unfoldable pub parse_stage : String → Option Stage
parse_stage s =
    if s == "intake"
    then some intake
    else if s == "classified"
    then some classified
    else if s == "retrieved"
    then some retrieved
    else if s == "drafted"
    then some drafted
    else if s == "awaiting_human"
    then some awaiting_human
    else if s == "resolved"
    then some Stage.resolved
    else if s == "closed"
    then some Stage.closed
    else none

-- A time as it is stored: the ISO text of a moment; or a text that a caller gave, with the moment
-- that `datetime.fromisoformat` reads from it, if it does.
pub data StoredTime : Type 0 where
  moment : ℕ → StoredTime
  written : String → Option ℕ → StoredTime

-- A ticket whose priority, status, lifecycle stage and times of service have the types given: texts
-- in a database row, literals and moments in a `Ticket`.
pub record TicketOf (P S L T : Type 0) : Type 0 where
  pub ticket_id : String
  pub channel : String
  pub session_id : String
  pub thread_id : String
  pub customer_id : Option String
  pub title : String
  pub latest_message : String
  pub intent : String
  pub priority : P
  pub status : S
  pub queue : String
  pub assignee : Option String
  pub needs_handoff : Bool
  pub inbox : String
  pub lifecycle_stage : L
  pub first_response_due_at : Option T
  pub resolution_due_at : Option T
  pub escalated_at : Option T
  pub resolved_at : Option T
  pub closed_at : Option T
  pub resolution_note : Option String
  pub resolution_code : Option String
  pub close_reason : Option String
  pub source_channel : String
  pub handoff_state : String
  pub last_agent_action : Option String
  pub risk_level : String
  pub metadata : Dict
  pub created_at : ℕ
  pub updated_at : ℕ

abbrev pub Ticket : Type 0
Ticket = TicketOf Priority Status Stage ℕ

pub record TicketEvent : Type 0 where
  pub event_id : String
  pub ticket_id : String
  pub event_type : String
  pub actor_type : String
  pub actor_id : String
  pub payload : Dict
  pub created_at : ℕ

pub record SessionBinding : Type 0 where
  pub session_id : String
  pub thread_id : String
  pub ticket_id : Option String
  pub metadata : Dict
  pub updated_at : ℕ

pub record InboundEnvelope : Type 0 where
  pub channel : String
  pub session_id : String
  pub message_text : String
  pub metadata : Dict

pub record OutboundEnvelope : Type 0 where
  pub channel : String
  pub session_id : String
  pub body : String
  pub metadata : Dict

-- A document of the knowledge base with its score.
pub record KbDocument : Type 0 where
  pub doc_id : String
  pub source_type : String
  pub title : String
  pub content : String
  pub tags : List String
  pub score : Ratio
