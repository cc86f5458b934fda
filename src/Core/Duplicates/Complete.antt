-- ===== src/Core/Duplicates/Complete.antt =====
-- core/duplicate_merge/detector.py: `detect` keeps its promise.
use support_agent_platform.Shared.{ℕ, String, refl, subst, inl, inr, List, [], ◌∷◌, test_of_ne}
use support_agent_platform.Shared.Elements.{All-at, All-of, Occurs, Occurs-left, Occurs-right}
use support_agent_platform.Shared.Top.{take-IsTop}
use support_agent_platform.Shared.Ratio.{Ratio, AtMost-at_most}
use support_agent_platform.Storage.Models.{Ticket}
use support_agent_platform.Core.Outcomes.Rows.{same_status-closed}
use support_agent_platform.Core.Duplicates.Detector.{
  DuplicateCandidate, score_pair, candidate_of, found_in, ranked, detect,
}
use support_agent_platform.Core.Duplicates.Candidates.{
  Qualifies, IsCandidate, ranked-IsCandidate, Detects,
}

abbrev candidate_score : DuplicateCandidate → Ratio
candidate_score c = c.score

module _ (matcher_ratio : String → String → Ratio) (score_threshold : Ratio) (iso : ℕ → String)
    (t : Ticket) where
  found_in_qualified :
      (item : Ticket)
      → Qualifies matcher_ratio score_threshold iso t item
      → Occurs
          (candidate_of matcher_ratio iso item (score_pair matcher_ratio t item))
          (found_in matcher_ratio score_threshold iso t item)
  unfolding found_in
  found_in_qualified item q =
      rw
        (
          test_of_ne item.ticket_id t.ticket_id q.other_ticket,
          same_status-closed item.status q.not_closed,
          AtMost-at_most score_threshold (score_pair matcher_ratio t item).0 q.reaches,
        )
        (inl refl)

  ranked_qualified :
      (item : Ticket) (pool : List Ticket)
      → Occurs item pool
      → Qualifies matcher_ratio score_threshold iso t item
      → Occurs
          (candidate_of matcher_ratio iso item (score_pair matcher_ratio t item))
          (ranked matcher_ratio score_threshold iso t pool)
  unfolding ranked
  ranked_qualified item [] o q = elim o [ ]
  ranked_qualified item (other ∷ pool) (inl e) q =
      Occurs-left (candidate_of matcher_ratio iso item (score_pair matcher_ratio t item))
        (found_in matcher_ratio score_threshold iso t other)
        (ranked matcher_ratio score_threshold iso t pool)
        (subst
          (λ o.
            Occurs (candidate_of matcher_ratio iso item (score_pair matcher_ratio t item))
              (found_in matcher_ratio score_threshold iso t o))
          e (found_in_qualified item q))
  ranked_qualified item (other ∷ pool) (inr o) q =
      Occurs-right (candidate_of matcher_ratio iso item (score_pair matcher_ratio t item))
        (found_in matcher_ratio score_threshold iso t other)
        (ranked matcher_ratio score_threshold iso t pool) (ranked_qualified item pool o q)

  -- Of any pool, the detector gives at most so many candidates, their scores falling, each for
  -- another ticket of the pool that is not closed, with a score between the threshold and 1; and it
  -- finds every such ticket whose score reaches the threshold, unless there are already as many
  -- candidates as there may be.
  pub detect-Detects :
      (max_candidates : ℕ) (pool : List Ticket)
      → Detects matcher_ratio score_threshold iso t max_candidates pool
          (detect matcher_ratio score_threshold iso t max_candidates pool)
  unfolding detect
  detect-Detects max_candidates pool =
      let found = ranked matcher_ratio score_threshold iso t pool in
      let cs = detect matcher_ratio score_threshold iso t max_candidates pool in
      let top = take-IsTop candidate_score max_candidates found in
      record {
        few = top.few;
        falling = top.falling;
        genuine = All-of (IsCandidate matcher_ratio score_threshold iso t pool) cs λ c o.
            All-at (IsCandidate matcher_ratio score_threshold iso t pool) c found
              (ranked-IsCandidate matcher_ratio score_threshold iso t pool)
              (All-at (λ d. Occurs d found) c cs top.genuine o);
        complete = λ item o q.
            top.complete (candidate_of matcher_ratio iso item (score_pair matcher_ratio t item))
              (ranked_qualified item pool o q);
      }
