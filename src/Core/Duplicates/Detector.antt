-- ===== src/Core/Duplicates/Detector.antt =====
-- core/duplicate_merge/detector.py: `DuplicateDetector.detect`, and core/ticket_api.py:
-- `list_duplicate_candidates`.
use support_agent_platform.Shared.{
  ℕ, ◌+◌, ◌-◌, ◌*◌, String, Bool, not, ◌&&◌, ◌||◌, none, List, [], ◌∷◌, ◌++◌, map, ◌==◌, leb,
  if◌then◌else◌, take, Value, text, arr, obj, end, entry, to_items, Exec, pure, gets, ◌>>=◌,
}
use support_agent_platform.Shared.Sort.{sort_by, sort_in}
use support_agent_platform.Shared.Ratio.{
  Ratio, nought, one, hundredths, at_most, larger, smaller, plus_hundredths, rounded,
}
use support_agent_platform.Shared.Words.{join}
use support_agent_platform.Storage.Models.{Ticket, Status, status_text}
use support_agent_platform.Storage.World.{World}
use support_agent_platform.Core.TicketApi.{same_status, require_ticket}
use support_agent_platform.Core.TicketActions.{list_tickets}
use support_agent_platform.Core.Duplicates.Tokens.{text_blob, token_jaccard}

pub record DuplicateCandidate : Type 0 where
  pub ticket_id : String
  pub score : Ratio
  pub reason : String
  pub signal_matches : List String
  pub title : String
  pub status : Status
  pub updated_at : String

unfoldable pub candidate_json : DuplicateCandidate → Value
unfolding rounded status_text
candidate_json c = obj (
    entry "ticket_id" (text c.ticket_id) (
      entry "score" (rounded c.score) (
        entry "reason" (text c.reason) (
          entry "signal_matches" (arr (to_items (map text c.signal_matches))) (
            entry "title" (text c.title) (
              entry "status" (text (status_text c.status))
                (entry "updated_at" (text c.updated_at) end)))))))

-- `abs(left - right)`, of two numbers of microseconds.
abbrev pub gap : ℕ → ℕ → ℕ
gap left right = left - right + (right - left)

-- A number of hours.
abbrev hours : ℕ → ℕ
hours n = n * 3600000000

-- A score on its way, with the signals so far.
abbrev Scored : Type 0
Scored = Ratio × List String

abbrev signal : Bool → ℕ → String → Scored → Scored
signal b points name (r, names) =
    if b then (plus_hundredths points r, names ++ name ∷ []) else (r, names)

-- A signal that adds nothing to the score.
abbrev note : Bool → String → List String → List String
note b name names = if b then names ++ name ∷ [] else names

-- What `SequenceMatcher(None, left, right).ratio()` gives.
module _ (matcher_ratio : String → String → Ratio) where
  abbrev pub ratio_of : String → String → Ratio
  ratio_of left right = if left == "" || right == "" then nought else matcher_ratio left right

  -- The larger of the two similarities, and the signals for them.
  unfoldable pub similarity : String → String → Scored
  unfolding token_jaccard larger at_most
  similarity left right =
      let ratio = ratio_of left right in
      let jaccard = token_jaccard left right in
      (
        larger ratio jaccard,
        note (at_most (hundredths 55) ratio) "message_similarity"
            (note (at_most (hundredths 35) jaccard) "token_overlap" []),
      )

  -- The points for what else the tickets share.
  unfoldable pub with_signals : Ticket → Ticket → Scored → Scored
  unfolding plus_hundredths
  with_signals left right s =
      let apart = gap left.updated_at right.updated_at in
      let shared = signal (left.channel == right.channel) 8 "same_channel" (
        signal (left.session_id == right.session_id) 12 "same_session"
          (signal (left.intent == right.intent && not (left.intent == "")) 16 "same_intent" s)) in
      signal (not (leb apart (hours 72)) && leb apart (hours 168)) 5 "same_week_activity"
        (signal (leb apart (hours 72)) 8 "recent_activity" shared)

  -- `_score`.
  unfoldable pub score_pair : Ticket → Ticket → Scored
  unfolding text_blob similarity with_signals smaller
  score_pair left right =
      let (r, names) = with_signals left right (similarity (text_blob left) (text_blob right)) in
      (smaller one r, names)

  -- `", ".join(signals[:3]) if signals else "text_similarity"`.
  abbrev pub reason_of : List String → String
  reason_of [] = "text_similarity"
  reason_of (s ∷ names) = join ", " (take 3 (s ∷ names))

  unfoldable pub candidate_of : (ℕ → String) → Ticket → Scored → DuplicateCandidate
  unfolding join
  candidate_of iso item (r, names) = record {
    ticket_id = item.ticket_id;
    score = r;
    reason = reason_of names;
    signal_matches = names;
    title = item.title;
    status = item.status;
    updated_at = iso item.updated_at;
  }

  -- The detector's threshold, the text of a time, and the ticket.
  module _ (score_threshold : Ratio) (iso : ℕ → String) (t : Ticket) where
    -- What the loop appends for one ticket of the pool.
    unfoldable pub found_in : Ticket → List DuplicateCandidate
    unfolding score_pair candidate_of same_status at_most
    found_in item =
        let scored = score_pair t item in
        if item.ticket_id == t.ticket_id
        then []
        else if same_status item.status Status.closed
        then []
        else if at_most score_threshold scored.0
        then candidate_of iso item scored ∷ []
        else []

    unfoldable pub ranked : List Ticket → List DuplicateCandidate
    unfolding found_in
    ranked [] = []
    ranked (item ∷ pool) = found_in item ++ ranked pool

    unfoldable pub detect : ℕ → List Ticket → List DuplicateCandidate
    unfolding ranked sort_in at_most
    detect max_candidates pool =
        take max_candidates (sort_by (λ (c : DuplicateCandidate). c.score) (ranked pool))

  -- `list_duplicate_candidates`, with the detector that the API builds.
  unfoldable pub list_duplicate_candidates : String → ℕ → Exec World (List Value)
  unfolding detect candidate_json
  list_duplicate_candidates id limit = do
    t ← require_ticket id
    pool ← list_tickets none none none 3000
    iso ← gets (λ (w : World). w.isoformat)
    pure (map candidate_json (take limit (detect (hundredths 58) iso t 5 pool)))
