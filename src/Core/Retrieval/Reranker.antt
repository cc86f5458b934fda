-- ===== src/Core/Retrieval/Reranker.antt =====
-- core/retrieval/reranker.py: `Reranker.rerank`, which reads the clock for each dated document.
pub mod Reranks
pub mod Scores
use support_agent_platform.Shared.{
  ℕ, suc, ◌+◌, ◌-◌, ◌*◌, String, Option, none, some, List, [], ◌∷◌, ◌==◌, ltb, leb, if◌then◌else◌,
  length, take, ok, Exec, pure, ◌>>=◌, ◌>>◌,
}
use support_agent_platform.Shared.Sort.{sort_by, sort_in}
use support_agent_platform.Shared.Ratio.{at_most, Ratio, nought, hundredths, plus, percent}
use support_agent_platform.Shared.Text.{lower}
use support_agent_platform.Storage.World.{World, now}
use support_agent_platform.Core.Hitl.PendingActions.{with_offset}
use support_agent_platform.Core.Retrieval.Terms.{terms_of, hits_in}
use support_agent_platform.Core.Retrieval.Retriever.{RetrievalDetail}
use support_agent_platform.Core.Retrieval.Attribution.{at_least_one}

-- A candidate with its new score, and the reason and rank that are added.
pub record Reranked : Type 0 where
  pub detail : RetrievalDetail
  pub rerank_score : Ratio
  pub rerank_reason : String
  pub rank : ℕ

-- A number of days, in microseconds.
abbrev pub days : ℕ → ℕ
days n = n * 86400000000

-- `_freshness_bonus`, at a time.
unfoldable pub bonus_of_age : ℕ → Ratio
bonus_of_age age =
    if leb age (days 30) then hundredths 6 else if leb age (days 180) then hundredths 3 else nought

-- The bonus of a time, if the text is one.
unfoldable pub dated_bonus : Option ℕ → Exec World Ratio
unfolding bonus_of_age
dated_bonus none = pure nought
dated_bonus (some time) = do current ← now; pure (bonus_of_age (current - time))

unfoldable pub freshness_bonus : String → Exec World Ratio
unfolding with_offset dated_bonus
freshness_bonus updated_at w =
    if updated_at == ""
    then (ok nought, w)
    else dated_bonus (w.fromisoformat (with_offset updated_at)) w

-- `_score`.
unfoldable pub rerank_score_of : List String → RetrievalDetail → Exec World Ratio
unfolding freshness_bonus hits_in lower plus percent
rerank_score_of [] d = pure d.score
rerank_score_of (term ∷ terms) d = do
  let count = length (term ∷ terms)
  let title_hits = hits_in (term ∷ terms) (lower d.doc.title)
  let content_hits = hits_in (term ∷ terms) (lower d.doc.content)
  let coverage : Ratio = record { num = title_hits + content_hits; den = count * 2 }
  let titled : Ratio = record { num = title_hits; den = count }
  fresh ← freshness_bonus d.updated_at
  pure (plus (plus (plus d.score (percent 20 coverage)) (percent 15 titled)) fresh)

-- `_reason`.
unfoldable pub rerank_reason_of : List String → RetrievalDetail → String
unfolding hits_in lower
rerank_reason_of [] d = "rerank:base_score"
rerank_reason_of (term ∷ terms) d =
    if ltb 0 (hits_in (term ∷ terms) (lower d.doc.title))
    then "rerank:title_match"
    else "rerank:content_match"

-- The loop over the candidates; the rank comes after the order.
unfoldable pub rescored : List String → List RetrievalDetail → Exec World (List Reranked)
unfolding rerank_score_of rerank_reason_of
rescored terms [] = pure []
rescored terms (d ∷ candidates) = do
  score ← rerank_score_of terms d
  rest ← rescored terms candidates
  pure (
      record {
        detail = record d { score = score };
        rerank_score = score;
        rerank_reason = rerank_reason_of terms d;
        rank = 0;
      }
      ∷ rest)

-- `for index, item in enumerate(rescored, start=...): item["rank"] = index`.
unfoldable pub with_ranks : ℕ → List Reranked → List Reranked
with_ranks index [] = []
with_ranks index (r ∷ rest) = record r { rank = index } ∷ with_ranks (suc index) rest

abbrev pub by_rerank : Reranked → Ratio
by_rerank r = r.rerank_score

abbrev pub cut : Option ℕ → List Reranked → List Reranked
cut none rest = rest
cut (some top_k) rest = take (at_least_one top_k) rest

unfoldable pub rerank : String → List RetrievalDetail → Option ℕ → Exec World (List Reranked)
unfolding terms_of rescored with_ranks sort_in at_most
rerank query candidates top_k = do
  scored ← rescored (terms_of query) candidates
  pure (with_ranks 1 (cut top_k (sort_by by_rerank scored)))
