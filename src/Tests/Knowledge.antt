-- ===== src/Tests/Knowledge.antt =====
-- Searches of the knowledge base, and recommendations.
use support_agent_platform.Shared.{
  ◌≤◌, String, ◌≡◌, refl, true, Option, none, some, List, [], ◌∷◌, map, arith, end, ok,
}
use support_agent_platform.Shared.Elements.{All}
use support_agent_platform.Shared.Ratio.{Ratio, nought}
use support_agent_platform.Shared.Text.{strip, lower, occurs_in, text_length, find_text, is_space}
use support_agent_platform.Storage.Models.{Ticket, p1, opened, intake}
use support_agent_platform.Storage.Repository.{typed_row}
use support_agent_platform.Core.IntentRouter.{IntentDecision}
use support_agent_platform.Core.Retrieval.Documents.{NormalizedDocument}
use support_agent_platform.Core.Retrieval.Retriever.{RetrievalDetail, hybrid, search_with_details}
use support_agent_platform.Core.Retrieval.Retriever.Finds.{Searches, search_with_details-Searches}
use support_agent_platform.Core.Retrieval.Reranker.{rerank}
use support_agent_platform.Core.Retrieval.Reranker.Reranks.{Gives}
use support_agent_platform.Core.Retrieval.Reranker.Scores.{Reads, Ranks, rerank-Ranks}
use support_agent_platform.Core.Retrieval.Attribution.{at_least_one, snippet}
use support_agent_platform.Core.Retrieval.Attribution.Shown.{is_plain, snippet_shows}
use support_agent_platform.Core.Retrieval.SearchKb.{normalize_source_type, search_kb}
use support_agent_platform.Core.Retrieval.Hits.{Answers, searched, search_kb-Answers}
use support_agent_platform.Core.Recommendations.{RecommendedAction, recommend}
use support_agent_platform.Core.Recommendations.Founded.{IsFounded}
use support_agent_platform.Core.Recommendations.Sources.{recommenders, recommend-recommenders}
use support_agent_platform.Tests.Stores.{open_row, with_open}
use support_agent_platform.Core.Retrieval.Terms.{terms_of}

abbrev document : String → String → String → NormalizedDocument
document id source content = record {
  doc_id = id;
  source_type = source;
  title = id;
  content = content;
  tags = [];
  updated_at = "";
  metadata = end;
}

abbrev library : List NormalizedDocument
library =
    document "faq-1" "faq" "restart the printer"
    ∷ document "case-1" "history" "the printer was broken"
    ∷ document "faq-2" "FAQ" "a broken printer is replaced"
    ∷ []

-- No document has a vector.
abbrev no_vectors : String → String → Option Ratio
no_vectors query id = none

search_with_details-Searches_example :
    Searches no_vectors library "broken printer" "faq" 3 nought hybrid
      (search_with_details no_vectors library "broken printer" "faq" 3 nought hybrid)
search_with_details-Searches_example =
    search_with_details-Searches no_vectors library "broken printer" "faq" 3 nought hybrid

abbrev results : List RetrievalDetail
results = search_with_details no_vectors library "broken printer" "faq" 3 nought hybrid

rerank-Ranks_example :
    Reads
      (Ranks with_open (terms_of "broken") results (at_least_one 2))
      (rerank "broken" results (some 2))
      with_open
rerank-Ranks_example = rerank-Ranks "broken" results 2 with_open

found_printer : find_text "printer" (lower (strip "restart the Printer")) ≡ some 12
unfolding find_text lower strip is_space
found_printer = refl

missing_broken : find_text "broken" (lower (strip "restart the Printer")) ≡ none
unfolding find_text lower strip is_space
missing_broken = refl

short_term : text_length "printer" ≤ 48
unfolding text_length
short_term = omega arith

plain_content : is_plain "restart the Printer" ≡ true
plain_content = refl

snippet_shows_example :
    let shown = snippet "restart the Printer" ("broken" ∷ "printer" ∷ []) in
    (text_length shown ≤ 72)
    × ((occurs_in shown (strip "restart the Printer") ≡ true)
        × (occurs_in "printer" (lower shown) ≡ true))
snippet_shows_example =
    snippet_shows "restart the Printer" 12 ("broken" ∷ []) [] "printer" plain_content
      (missing_broken, tt) found_printer short_term

urgent : Ticket
unfolding typed_row
urgent = typed_row (record open_row { intent = "complaint" }) p1 opened intake

abbrev unsure : IntentDecision
unsure = record {
  intent = "other";
  confidence = 40;
  is_low_confidence = true;
  reason = "below-threshold:0.58";
}

recommend-recommenders_example :
    (map (λ (a : RecommendedAction). a.source) (recommend urgent unsure [] ("x" ∷ []))
      ≡ recommenders urgent unsure [] ("x" ∷ []))
    × All IsFounded (recommend urgent unsure [] ("x" ∷ []))
recommend-recommenders_example = recommend-recommenders urgent unsure [] ("x" ∷ [])

known_source : normalize_source_type (strip (lower " History")) ≡ ok "history_case"
unfolding normalize_source_type strip lower is_space
known_source = refl

search_kb-Answers_example :
    Gives
      (Answers 2 (searched no_vectors library " History" "broken" 2 none with_open "history_case"))
      (search_kb no_vectors library " History" "broken" 2 none)
      with_open
search_kb-Answers_example =
    search_kb-Answers no_vectors library " History" "broken" 2 none with_open "history_case"
      known_source
