-- ===== src/Core/IntentRouter/Best.antt =====
-- core/intent_router.py: the intent that is chosen has the best score.
use support_agent_platform.Shared.{
  ℕ, ◌≤◌, String, ◌≡◌, refl, sym, inl, inr, false, List, [], ◌∷◌, arith, ◌==◌, ltb, if◌then◌else◌,
  Bool-cases,
}
use support_agent_platform.Shared.Text.{strip, lower}
use support_agent_platform.Shared.Elements.{All, Occurs, All-of, All-at}
use support_agent_platform.Shared.Sort.{
  sort_desc, Falls, sort_desc-Falls, Occurs-sort_in, sort_in-Occurs,
}
use support_agent_platform.Core.IntentRouter.{
  IntentDecision, IntentRouter, intent_keywords, scored, score, best, decide, route,
}

abbrev by_score : List (String × ℕ) → List (String × ℕ)
by_score = sort_desc score

below_first :
    (row : String × ℕ) (rows : List (String × ℕ))
    → Falls score (row ∷ rows)
    → All (λ r. r.1 ≤ row.1) (row ∷ rows)
below_first row [] h = (omega arith, tt)
below_first row (next ∷ rows) h = (
  omega arith,
  All-of _ (next ∷ rows) λ r o.
      omega (arith, h.0, All-at (λ r. r.1 ≤ next.1) r (next ∷ rows) (below_first next rows h.1) o),
)

-- The best of some scores: none is above it, and it is one of them.
best_of_falling :
    (fallback : String) (rows : List (String × ℕ))
    → Falls score rows
    → All (λ r. r.1 ≤ (best fallback rows).1) rows
best_of_falling fallback [] h = tt
best_of_falling fallback (row ∷ rows) h = below_first row rows h

best_below :
    (fallback : String) (rows : List (String × ℕ))
    → All (λ r. r.1 ≤ (best fallback (by_score rows)).1) rows
best_below fallback rows = All-of _ rows λ r o.
    All-at (λ r. r.1 ≤ (best fallback (by_score rows)).1) r (by_score rows)
      (best_of_falling fallback (by_score rows) (sort_desc-Falls score rows))
      (Occurs-sort_in _ r rows o)

best_occurs :
    (fallback : String) (rows : List (String × ℕ)) (r : String × ℕ)
    → Occurs r rows
    → Occurs (best fallback rows) rows
best_occurs fallback [] r o = o
best_occurs fallback (row ∷ rows) r o = inl refl

-- The decision on some scores: none is above the confidence, which is that of one of the intents; the
-- router falls back exactly below its threshold, and else chooses an intent of that score.
pub record IsBest (router : IntentRouter) (rows : List (String × ℕ)) (result : IntentDecision)
    : Type 0 where
  pub below : All (λ r. r.1 ≤ result.confidence) rows
  pub name : String
  pub reached : Occurs (name, result.confidence) rows
  pub low : result.is_low_confidence ≡ ltb result.confidence router.threshold
  pub chosen :
      result.intent ≡ (if ltb result.confidence router.threshold then router.fallback else name)

IsBest-decide :
    (router : IntentRouter) (row : String × ℕ) (rows : List (String × ℕ))
    → IsBest router
        (row ∷ rows)
        (decide router (best router.fallback (sort_desc score (row ∷ rows))))
unfolding decide
IsBest-decide router row rows =
    let chosen = best router.fallback (sort_desc score (row ∷ rows)) in
    let low = best_below router.fallback (row ∷ rows) in
    let there = sort_in-Occurs _ chosen (row ∷ rows) (
      best_occurs router.fallback (by_score (row ∷ rows)) row
        (Occurs-sort_in _ row (row ∷ rows) (inl refl))) in
    elim (Bool-cases (ltb chosen.1 router.threshold)) [
      | inl e ↦ rw e (record {
        below = low;
        name = chosen.0;
        reached = there;
        low = sym e;
        chosen = rw e refl;
      })
      | inr e ↦ rw e (record {
        below = low;
        name = chosen.0;
        reached = there;
        low = sym e;
        chosen = rw e refl;
      })
    ]

-- A message that is not blank is routed by its best score: no intent scores above the confidence,
-- which is the score of one of them; the router falls back exactly where the confidence is below its
-- threshold, and else chooses that intent.
pub route-IsBest :
    (router : IntentRouter) (message : String)
    → (strip (lower message) == "") ≡ false
    → IsBest router (scored (strip (lower message)) intent_keywords) (route router message)
unfolding route scored
route-IsBest router message there = rw there (IsBest-decide router _ _)
