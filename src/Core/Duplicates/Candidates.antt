-- ===== src/Core/Duplicates/Candidates.antt =====
-- core/duplicate_merge/detector.py: what `detect` gives.
use support_agent_platform.Shared.{
  ℕ, ◌≤◌, String, ◌≡◌, refl, sym, ap, ◌∙◌, ◌≢◌, ◌⊎◌, inl, inr, false, false≢true, List, [], ◌∷◌,
  ◌==◌, Bool-cases, ne_of_test, length,
}
use support_agent_platform.Shared.Elements.{All, All-append, Occurs}
use support_agent_platform.Shared.Sort.{ScoresFall}
use support_agent_platform.Shared.Ratio.{
  Ratio, one, at_most, AtMost, at_most-AtMost, smaller-AtMost,
}
use support_agent_platform.Storage.Models.{Ticket, Status, status_text}
use support_agent_platform.Core.TicketApi.{same_status}
use support_agent_platform.Core.Duplicates.Tokens.{text_blob}
use support_agent_platform.Core.Duplicates.Detector.{
  DuplicateCandidate, similarity, with_signals, score_pair, candidate_of, found_in, ranked,
}

module _ (matcher_ratio : String → String → Ratio) (score_threshold : Ratio) (iso : ℕ → String)
    (t : Ticket) where
  -- A candidate for a ticket of the pool.
  pub record IsCandidateFor (c : DuplicateCandidate) (item : Ticket) : Type 0 where
    pub same_id : c.ticket_id ≡ item.ticket_id
    pub other_ticket : item.ticket_id ≢ t.ticket_id
    pub same_state : c.status ≡ item.status
    pub not_closed : item.status ≢ Status.closed
    pub reaches : AtMost score_threshold c.score
    pub bounded : AtMost c.score one

  -- A candidate for some ticket of the pool.
  abbrev pub IsCandidate : List Ticket → DuplicateCandidate → Type 0
  IsCandidate pool c = (item : Ticket) × (Occurs item pool × IsCandidateFor c item)

  -- A ticket of the pool that is to be found.
  pub record Qualifies (item : Ticket) : Type 0 where
    pub other_ticket : item.ticket_id ≢ t.ticket_id
    pub not_closed : item.status ≢ Status.closed
    pub reaches : AtMost score_threshold (score_pair matcher_ratio t item).0

  not_closed_of_test : (s : Status) → same_status s Status.closed ≡ false → s ≢ Status.closed
  unfolding same_status status_text
  not_closed_of_test s h e = false≢true (sym h ∙ ap (λ r. same_status r Status.closed) e)

  score_pair-AtMost : (item : Ticket) → AtMost (score_pair matcher_ratio t item).0 one
  unfolding score_pair
  score_pair-AtMost item =
      smaller-AtMost one
        (with_signals matcher_ratio t item
          (similarity matcher_ratio (text_blob t) (text_blob item))).0

  found_in-IsCandidateFor :
      (item : Ticket)
      → All (λ c. IsCandidateFor c item) (found_in matcher_ratio score_threshold iso t item)
  unfolding found_in candidate_of
  found_in-IsCandidateFor item = elim (Bool-cases (item.ticket_id == t.ticket_id)) [
    | inl e ↦ rw e tt
    | inr e ↦ rw e (elim (Bool-cases (same_status item.status Status.closed)) [
      | inl c ↦ rw c tt
      | inr c ↦
          rw c (elim (Bool-cases (at_most score_threshold (score_pair matcher_ratio t item).0)) [
            | inr r ↦ rw r tt
            | inl r ↦ rw r (
              record {
                same_id = refl;
                other_ticket = ne_of_test item.ticket_id t.ticket_id e;
                same_state = refl;
                not_closed = not_closed_of_test item.status c;
                reaches = at_most-AtMost score_threshold (score_pair matcher_ratio t item).0 r;
                bounded = score_pair-AtMost item;
              },
              tt,
            )
          ])
    ])
  ]

  -- What is true of the candidates for each ticket of the pool is true of all.
  ranked-All :
      (P : DuplicateCandidate → Type 0) (pool : List Ticket)
      → ((item : Ticket)
          → Occurs item pool
          → All P (found_in matcher_ratio score_threshold iso t item))
      → All P (ranked matcher_ratio score_threshold iso t pool)
  unfolding ranked
  ranked-All P [] h = tt
  ranked-All P (item ∷ pool) h =
      All-append P (found_in matcher_ratio score_threshold iso t item)
        (ranked matcher_ratio score_threshold iso t pool) (h item (inl refl))
        (ranked-All P pool λ other o. h other (inr o))

  for_some :
      (item : Ticket) (pool : List Ticket) (cs : List DuplicateCandidate)
      → Occurs item pool
      → All (λ c. IsCandidateFor c item) cs
      → All (IsCandidate pool) cs
  for_some item pool [] o h = tt
  for_some item pool (c ∷ cs) o h = ((item, (o, h.0)), for_some item pool cs o h.1)

  pub ranked-IsCandidate :
      (pool : List Ticket)
      → All (IsCandidate pool) (ranked matcher_ratio score_threshold iso t pool)
  ranked-IsCandidate pool = ranked-All (IsCandidate pool) pool λ item o.
      for_some item pool (found_in matcher_ratio score_threshold iso t item) o
        (found_in-IsCandidateFor item)

  -- What `detect` promises: at most so many candidates, the scores falling, each of them for a
  -- ticket of the pool that is another one and not closed, with a score between the threshold and 1.
  pub record Detects (max_candidates : ℕ) (pool : List Ticket) (cs : List DuplicateCandidate)
      : Type 0 where
    pub few : length cs ≤ max_candidates
    pub falling : ScoresFall (λ (c : DuplicateCandidate). c.score) cs
    pub genuine : All (IsCandidate pool) cs
    -- A ticket that qualifies is found, unless there are as many candidates as there may be.
    pub complete :
        (item : Ticket)
        → Occurs item pool
        → Qualifies item
        → (length cs ≡ max_candidates)
          ⊎ Occurs (candidate_of matcher_ratio iso item (score_pair matcher_ratio t item)) cs
