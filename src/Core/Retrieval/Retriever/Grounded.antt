-- ===== src/Core/Retrieval/Retriever/Grounded.antt =====
-- core/retriever.py: the grounded search, over all sources.
use support_agent_platform.Shared.{
  ℕ, ◌*◌, String, Option, List, [], ◌∷◌, ◌++◌, map, ◌==◌, leb, if◌then◌else◌, length, take,
}
use support_agent_platform.Shared.Sort.{sort_by, sort_in}
use support_agent_platform.Shared.Ratio.{at_most, Ratio, hundredths, plus, percent, plus_hundredths}
use support_agent_platform.Shared.Text.{lower}
use support_agent_platform.Storage.Models.{KbDocument}
use support_agent_platform.Core.Retrieval.Documents.{NormalizedDocument}
use support_agent_platform.Core.Retrieval.Terms.{terms_of, hits_in}
use support_agent_platform.Core.Retrieval.Retriever.{Mode, RetrievalDetail, search_with_details}

module _ (vector_score : String → String → Option Ratio) (documents : List NormalizedDocument)
    (query : String) where
  abbrev detail_score : RetrievalDetail → Ratio
  detail_score d = d.score

  -- `_GROUND_SOURCE_PRIORITY`.
  unfoldable pub source_priority : String → ℕ
  source_priority source =
      if source == "history_case"
      then 3
      else if source == "sop"
      then 2
      else if source == "faq"
      then 1
      else 0

  -- `_grounded_score`.
  unfoldable pub grounded_score : KbDocument → List String → Ratio
  unfolding source_priority plus_hundredths plus percent hits_in lower
  grounded_score d [] = plus_hundredths (5 * source_priority d.source_type) d.score
  grounded_score d (term ∷ terms) =
      plus (plus_hundredths (5 * source_priority d.source_type) d.score) (
        percent 20
          (record { num = hits_in (term ∷ terms) (lower d.title); den = length (term ∷ terms) }))

  unfoldable pub grounded : Mode → RetrievalDetail → RetrievalDetail
  unfolding grounded_score
  grounded mode d =
      let score = grounded_score d.doc (terms_of query) in
      record d { doc = record d.doc { score = score }; score = score; retrieval_mode = mode }

  abbrev pub priority_of : RetrievalDetail → ℕ
  priority_of d = source_priority d.doc.source_type

  -- What the three sources give, before the order.
  unfoldable pub merged : ℕ → Mode → List RetrievalDetail
  unfolding search_with_details
  merged fan_out mode =
      search_with_details vector_score documents query "history_case" fan_out (hundredths 45) mode
      ++ (search_with_details vector_score documents query "sop" fan_out (hundredths 18) mode
          ++ search_with_details vector_score documents query "faq" fan_out (hundredths 8) mode)

  -- The sort by score and then by source is two stable sorts, the less important key first.
  unfoldable pub search_grounded_with_details : ℕ → Mode → List RetrievalDetail
  unfolding merged grounded sort_in at_most
  search_grounded_with_details top_k mode =
      let fan_out = if leb 6 top_k then top_k else 6 in
      take top_k (
        sort_by detail_score (
          sort_by (λ (d : RetrievalDetail). record { num = priority_of d; den = 1 })
            (map (grounded mode) (merged fan_out mode))))

  unfoldable pub search_grounded : ℕ → Mode → List KbDocument
  unfolding search_grounded_with_details
  search_grounded top_k mode =
      map (λ (d : RetrievalDetail). d.doc) (search_grounded_with_details top_k mode)
