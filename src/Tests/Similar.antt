-- ===== src/Tests/Similar.antt =====
-- Duplicates among tickets.
use support_agent_platform.Shared.{String, ◌≡◌, refl, List, [], ◌∷◌, map, ◌==◌, if◌then◌else◌}
use support_agent_platform.Shared.Ratio.{Ratio, one, nought, hundredths}
use support_agent_platform.Storage.Models.{Ticket, Status, p3, opened, intake}
use support_agent_platform.Storage.Repository.{typed_row}
use support_agent_platform.Core.Duplicates.Detector.{DuplicateCandidate, detect}
use support_agent_platform.Core.Duplicates.Candidates.{Detects}
use support_agent_platform.Core.Duplicates.Complete.{detect-Detects}
use support_agent_platform.Tests.Stores.{open_row}

ticket : String → Status → Ticket
unfolding typed_row
ticket id status = typed_row (record open_row { ticket_id = id }) p3 status intake

-- A ratio that knows equal texts only.
abbrev equal_texts : String → String → Ratio
equal_texts left right = if left == right then one else nought

-- The ticket itself, one that is closed, and one that is open.
abbrev pool : List Ticket
pool = ticket "TCK-1" opened ∷ ticket "TCK-2" Status.closed ∷ ticket "TCK-3" opened ∷ []

detected : List DuplicateCandidate
unfolding detect
detected = detect equal_texts (hundredths 58) (λ n. "t") (ticket "TCK-1" opened) 5 pool

detect-Detects_example :
    Detects equal_texts
      (hundredths 58)
      (λ n. "t")
      (ticket "TCK-1" opened)
      5
      pool
      (detect equal_texts (hundredths 58) (λ n. "t") (ticket "TCK-1" opened) 5 pool)
detect-Detects_example =
    detect-Detects equal_texts (hundredths 58) (λ n. "t") (ticket "TCK-1" opened) 5 pool

found_ids : map (λ (c : DuplicateCandidate). c.ticket_id) detected ≡ "TCK-3" ∷ []
unfolding detected ticket
found_ids = refl
