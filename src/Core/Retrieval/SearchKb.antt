-- ===== src/Core/Retrieval/SearchKb.antt =====
-- tools/search_kb.py: a search, its new order, and where each result comes from. The number of results
-- that is asked for is not negative.
use support_agent_platform.Shared.{
  ℕ, String, ◌<>◌, Bool, ◌||◌, Option, none, some, List, [], ◌∷◌, map, ◌==◌, leb, if◌then◌else◌,
  Dict, Result, ok, err, value_error, Exec, pure, lift, ◌>>=◌,
}
use support_agent_platform.Shared.Ratio.{Ratio, nought}
use support_agent_platform.Shared.Text.{strip, lower, prefix}
use support_agent_platform.Storage.World.{World}
use support_agent_platform.Core.Retrieval.Documents.{NormalizedDocument}
use support_agent_platform.Core.Retrieval.Retriever.{
  Mode, lexical, vector, hybrid, mode_text, RetrievalDetail, search_with_details,
}
use support_agent_platform.Core.Retrieval.Retriever.Grounded.{search_grounded_with_details}
use support_agent_platform.Core.Retrieval.Reranker.{Reranked, rerank}
use support_agent_platform.Core.Retrieval.Attribution.{
  Candidate, SourceAttribution, build_source_attributions,
}

-- A result.
pub record SearchHit : Type 0 where
  pub doc_id : String
  pub source_type : String
  pub title : String
  pub content : String
  pub tags : List String
  pub score : Ratio
  pub rank : ℕ
  pub ranking_reason : String
  pub snippet : String
  pub lexical_score : Ratio
  pub vector_score : Ratio
  pub retrieval_mode : String
  pub updated_at : String
  pub metadata : Dict

-- `_normalize_source`.
unfoldable pub normalize_source_type : String → Result String
normalize_source_type source =
    if source == "history" || source == "history_case"
    then ok "history_case"
    else if source == "grounded" || source == "hybrid"
    then ok "grounded"
    else if source == "faq" || source == "sop"
    then ok source
    else err (value_error ("Unsupported source_type: " <> source))

abbrev pub is_grounded : String → Bool
is_grounded source = source == "grounded" || source == "hybrid"

-- `_normalize_mode`.
unfoldable pub normalize_mode : String → Option String → Mode
unfolding strip lower
normalize_mode requested_source requested_mode =
    let mode : String = elim requested_mode [ none ↦ "" | some m ↦ lower (strip m) ] in
    if mode == "lexical"
    then lexical
    else if mode == "vector"
    then vector
    else if mode == "hybrid"
    then hybrid
    else if is_grounded requested_source
    then hybrid
    else lexical

-- `_ranking_reason`.
unfoldable pub ranking_reason_of : String → String → Mode → String
unfolding mode_text
ranking_reason_of requested_source doc_source mode =
    if is_grounded requested_source
    then mode_text mode
      <> (if doc_source == "history_case"
          then "_grounded_rank:history_case_priority"
          else if doc_source == "sop"
          then "_grounded_rank:sop_secondary"
          else if doc_source == "faq"
          then "_grounded_rank:faq_fallback"
          else "_grounded_rank:other_source")
    else mode_text mode <> "_rank:score_desc"

-- A row of the reranked results, as the attributions read it.
unfoldable pub candidate_of_row : Reranked → Candidate
unfolding mode_text
candidate_of_row r = record {
  doc = r.detail.doc;
  score = some r.detail.score;
  rank = some r.rank;
  rerank_reason = some r.rerank_reason;
  lexical_score = some r.detail.lexical_score;
  vector_score = some r.detail.vector_score;
  retrieval_mode = some (mode_text r.detail.retrieval_mode);
}

-- `by_source_id.get(source_id)`: of two attributions of a source, the last one.
unfoldable pub attribution_of : String → List SourceAttribution → Option SourceAttribution
attribution_of id [] = none
attribution_of id (a ∷ attributions) = elim (attribution_of id attributions) [
  | some b ↦ some b
  | none ↦ if a.source_id == id then some a else none
]

-- `a or b`, of texts.
abbrev pub text_or : String → String → String
text_or s default = if s == "" then default else s

unfoldable pub hit_of : String → Mode → List SourceAttribution → Reranked → SearchHit
unfolding attribution_of ranking_reason_of prefix mode_text
hit_of requested_source mode attributions r =
    let doc = r.detail.doc in
    let own = text_or r.rerank_reason (ranking_reason_of requested_source doc.source_type mode) in
    let found = attribution_of doc.doc_id attributions in
    record {
      doc_id = doc.doc_id;
      source_type = doc.source_type;
      title = doc.title;
      content = doc.content;
      tags = doc.tags;
      score = r.detail.score;
      rank = r.rank;
      ranking_reason = elim found [ none ↦ own | some a ↦ text_or a.reason own ];
      snippet = elim found [
        | none ↦ prefix 72 doc.content
        | some a ↦ text_or a.snippet (prefix 72 doc.content)
      ];
      lexical_score = r.detail.lexical_score;
      vector_score = r.detail.vector_score;
      retrieval_mode = mode_text r.detail.retrieval_mode;
      updated_at = r.detail.updated_at;
      metadata = r.detail.metadata;
    }

module _ (vector_score : String → String → Option Ratio) (documents : List NormalizedDocument) where
  -- The candidates, of one source or of all.
  unfoldable pub candidates_of : String → String → ℕ → Mode → List RetrievalDetail
  unfolding search_with_details search_grounded_with_details
  candidates_of effective_source query top_k mode =
      if effective_source == "grounded"
      then search_grounded_with_details vector_score documents query top_k mode
      else search_with_details vector_score documents query effective_source
          (if leb top_k 3 then 3 else top_k) nought mode

  unfoldable pub search_kb : String → String → ℕ → Option String → Exec World (List SearchHit)
  unfolding normalize_source_type normalize_mode candidates_of build_source_attributions
      candidate_of_row hit_of strip lower
  search_kb source_type query top_k retrieval_mode = do
    let requested_source = strip (lower source_type)
    effective_source ← lift (normalize_source_type requested_source)
    let mode = normalize_mode requested_source retrieval_mode
    reranked ← rerank query (candidates_of effective_source query top_k mode) (some top_k)
    let attributions = build_source_attributions query (map candidate_of_row reranked) (some top_k)
    pure (map (hit_of requested_source mode attributions) reranked)
