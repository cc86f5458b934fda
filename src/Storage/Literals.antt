-- ===== src/Storage/Literals.antt =====
-- storage/models.py and `_row_to_ticket`: the literals and their texts.
use support_agent_platform.Shared.{
  ℕ, String, ◌≡◌, refl, sym, ◌∙◌, inl, inr, true, some, arith, eq_iff, Option-cases, ok,
}
use support_agent_platform.Storage.Models.{
  moment, Ticket, Status, Priority, Stage, opened, p1, intake, status_text, stage_text,
  priority_text, parse_status, parse_stage, parse_priority,
}
use support_agent_platform.Storage.World.{Row}
use support_agent_platform.Storage.Times.{is_read, reads_times}
use support_agent_platform.Storage.Repository.{with_times, row_to_ticket, typed_row}

-- A text is read as the literal that it spells, and as no other.
pub status_text-parse_status :
    (s : String) (x : Status) → parse_status s ≡ some x → s ≡ status_text x
unfolding parse_status status_text
status_text-parse_status s x h = ground (
  arith,
  eq_iff s "open",
  eq_iff s "pending",
  eq_iff s "escalated",
  eq_iff s "handoff",
  eq_iff s "resolved",
  eq_iff s "closed",
)

pub parse_status-status_text : (x : Status) → parse_status (status_text x) ≡ some x
unfolding parse_status status_text
parse_status-status_text opened = refl
parse_status-status_text _ = refl

pub parse_priority-priority_text : (x : Priority) → parse_priority (priority_text x) ≡ some x
unfolding parse_priority priority_text
parse_priority-priority_text p1 = refl
parse_priority-priority_text _ = refl

pub parse_stage-stage_text : (x : Stage) → parse_stage (stage_text x) ≡ some x
unfolding parse_stage stage_text
parse_stage-stage_text intake = refl
parse_stage-stage_text _ = refl

-- What a row must hold to be read.
pub record IsReadable (r : Row) (p : Priority) (s : Status) (l : Stage) : Type 0 where
  pub priority : parse_priority r.priority ≡ some p
  pub status : parse_status r.status ≡ some s
  pub stage : parse_stage r.lifecycle_stage ≡ some l
  pub times : reads_times r ≡ true

-- A row whose times are read gives the ticket of its columns, and no other row gives one.
pub with_times-reads : (r : Row) (t : Ticket) → reads_times r ≡ true → with_times r t ≡ ok t
unfolding with_times
with_times-reads r t h = rw h refl

pub with_times-ok : (r : Row) (t u : Ticket) → with_times r t ≡ ok u → u ≡ t
unfolding with_times
with_times-ok r t u h = ground arith

pub status-row_to_ticket :
    (r : Row) (t : Ticket) → row_to_ticket r ≡ ok t → r.status ≡ status_text t.status
unfolding row_to_ticket typed_row
status-row_to_ticket r t h = elim (Option-cases (parse_priority r.priority)) [
  | inl a ↦ ground arith
  | inr (p, a) ↦ elim (Option-cases (parse_status r.status)) [
    | inl b ↦ ground arith
    | inr (s, b) ↦ elim (Option-cases (parse_stage r.lifecycle_stage)) [
      | inl c ↦ ground arith
      | inr (l, c) ↦
          let run : row_to_ticket r ≡ with_times r (typed_row r p s l) = ground arith in
          rw (with_times-ok r (typed_row r p s l) t (sym run ∙ h))
            (status_text-parse_status r.status s b)
    ]
  ]
]

-- A readable row gives the ticket of its columns.
pub row_to_ticket-IsReadable :
    (r : Row) (p : Priority) (s : Status) (l : Stage)
    → IsReadable r p s l
    → row_to_ticket r ≡ ok (typed_row r p s l)
unfolding row_to_ticket
row_to_ticket-IsReadable r p s l h =
    let timed = with_times-reads r (typed_row r p s l) h.times in ground arith

-- A moment in a column is read.
pub reads_times-escalated_at :
    (r : Row) (t : ℕ)
    → reads_times r ≡ true
    → reads_times (record r { escalated_at = some (moment t) }) ≡ true
unfolding is_read
reads_times-escalated_at r t h = ground arith

pub reads_times-resolved_at :
    (r : Row) (t : ℕ)
    → reads_times r ≡ true
    → reads_times (record r { resolved_at = some (moment t) }) ≡ true
unfolding is_read
reads_times-resolved_at r t h = ground arith

pub reads_times-closed_at :
    (r : Row) (t : ℕ)
    → reads_times r ≡ true
    → reads_times (record r { closed_at = some (moment t) }) ≡ true
unfolding is_read
reads_times-closed_at r t h = ground arith

pub is_read-moment : (t : ℕ) → is_read (some (moment t)) ≡ true
unfolding is_read
is_read-moment t = refl
