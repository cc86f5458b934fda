-- ===== src/Storage/World.antt =====
-- What the program's objects share and change: the SQLite tables, and what they take from Python's
-- library: the clock and the random identifiers, each as a sequence of which a prefix has been
-- read, the name-based identifiers of `uuid.uuid5`, and `datetime`'s ISO texts with their parser.
use support_agent_platform.Shared.{ℕ, suc, String, Option, List, ok, Exec}
use support_agent_platform.Storage.Models.{TicketOf, StoredTime, TicketEvent, SessionBinding}

-- A row of `tickets`; storage/migrations gives the columns no check on these texts.
abbrev pub Row : Type 0
Row = TicketOf String String String StoredTime

pub record World : Type 0 where
  pub tickets : List Row
  pub events : List TicketEvent
  pub sessions : List SessionBinding
  pub clock : ℕ → ℕ
  pub reads : ℕ
  pub uuid : ℕ → String
  pub drawn : ℕ
  pub uuid5 : String → String
  pub isoformat : ℕ → String
  pub fromisoformat : String → Option ℕ

-- `datetime.now(UTC)`.
abbrev pub now : Exec World ℕ
now w = (ok (w.clock w.reads), record w { reads = suc w.reads })

-- `uuid.uuid4().hex`.
abbrev pub new_uuid : Exec World String
new_uuid w = (ok (w.uuid w.drawn), record w { drawn = suc w.drawn })
