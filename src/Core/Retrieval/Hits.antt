-- ===== src/Core/Retrieval/Hits.antt =====
-- tools/search_kb.py: what the tool gives.
use support_agent_platform.Shared.{
  ℕ, suc, String, ◌≡◌, refl, ap, ◌∙◌, Option, some, List, [], ◌∷◌, map, length, take, ok,
}
use support_agent_platform.Shared.Elements.{All, Occurs}
use support_agent_platform.Shared.Ratio.{Ratio}
use support_agent_platform.Shared.Text.{strip, lower}
use support_agent_platform.Storage.World.{World}
use support_agent_platform.Core.Retrieval.Documents.{NormalizedDocument}
use support_agent_platform.Core.Retrieval.Retriever.{Mode, RetrievalDetail}
use support_agent_platform.Core.Retrieval.Reranker.{Reranked, rerank}
use support_agent_platform.Core.Retrieval.Reranker.Reranks.{
  Gives, Gives-bind, IsRescored, CountUp, Reranks, rerank-Reranks,
}
use support_agent_platform.Core.Retrieval.Attribution.{
  SourceAttribution, at_least_one, build_source_attributions,
}
use support_agent_platform.Core.Retrieval.SearchKb.{
  SearchHit, normalize_source_type, normalize_mode, candidate_of_row, hit_of, candidates_of,
  search_kb,
}

-- The ranks of the results count up from a number.
abbrev pub RanksUp : ℕ → List SearchHit → Type 0
RanksUp n [] = Unit
RanksUp n (h ∷ hits) = (h.rank ≡ n) × RanksUp (suc n) hits

-- A result shows a document that the search has found.
abbrev pub Shows : List RetrievalDetail → SearchHit → Type 0
Shows candidates h =
    (d : RetrievalDetail) × (Occurs d candidates
      × ((h.doc_id ≡ d.doc.doc_id) × (h.content ≡ d.doc.content)))

-- What `search_kb` promises of its results, of what it found.
pub record Answers (top_k : ℕ) (candidates : List RetrievalDetail) (hits : List SearchHit)
    : Type 0 where
  pub few : length hits ≡ length (take (at_least_one top_k) candidates)
  pub ranks : RanksUp 1 hits
  pub found : All (Shows candidates) hits

module _ (source : String) (mode : Mode) (attributions : List SourceAttribution) where
  abbrev hits_of : List Reranked → List SearchHit
  hits_of = map (hit_of source mode attributions)

  length-hits_of : (rs : List Reranked) → length (hits_of rs) ≡ length rs
  length-hits_of [] = refl
  length-hits_of (r ∷ rs) = ap suc (length-hits_of rs)

  hits_of-RanksUp : (n : ℕ) (rs : List Reranked) → CountUp n rs → RanksUp n (hits_of rs)
  unfolding hit_of
  hits_of-RanksUp n [] h = tt
  hits_of-RanksUp n (r ∷ rs) h = (h.0, hits_of-RanksUp (suc n) rs h.1)

  hits_of-Shows :
      (candidates : List RetrievalDetail) (rs : List Reranked)
      → All (IsRescored candidates) rs
      → All (Shows candidates) (hits_of rs)
  unfolding hit_of
  hits_of-Shows candidates [] h = tt
  hits_of-Shows candidates (r ∷ rs) ((d, (o, same)), h) = (
    (
      d,
      (
        o,
        (
          ap (λ (e : RetrievalDetail). e.doc.doc_id) same,
          ap (λ (e : RetrievalDetail). e.doc.content) same,
        ),
      ),
    ),
    hits_of-Shows candidates rs h,
  )

module _ (vector_score : String → String → Option Ratio) (documents : List NormalizedDocument)
    (source_type query : String) (top_k : ℕ) (retrieval_mode : Option String) (w : World)
    (effective_source : String) where
  abbrev mode_of : Mode
  mode_of = normalize_mode (strip (lower source_type)) retrieval_mode

  abbrev pub searched : List RetrievalDetail
  searched = candidates_of vector_score documents effective_source query top_k mode_of

  -- For a source that is known, the tool returns, and leaves the tickets as they are: it gives as many
  -- results as were asked for, or as were found, and at least one if anything was found; the ranks
  -- count up from 1, and each result shows the identifier and the content of a document that was
  -- found.
  pub search_kb-Answers :
      normalize_source_type (strip (lower source_type)) ≡ ok effective_source
      → Gives
          (Answers top_k searched)
          (search_kb vector_score documents source_type query top_k retrieval_mode)
          w
  unfolding search_kb
  search_kb-Answers known = rw known (
      Gives-bind (Reranks top_k searched) (Answers top_k searched)
        (rerank query searched (some top_k)) _ w (rerank-Reranks query searched top_k w)
        λ rs h v.
          let attributions =
            build_source_attributions query (map candidate_of_row rs) (some top_k) in
          (
            _,
            (
              _,
              (
                refl,
                (
                  refl,
                  record {
                    few =
                        length-hits_of (strip (lower source_type)) mode_of attributions rs
                        ∙ h.count;
                    ranks =
                        hits_of-RanksUp (strip (lower source_type)) mode_of attributions 1 rs
                          h.ranks;
                    found =
                        hits_of-Shows (strip (lower source_type)) mode_of attributions searched rs
                          h.genuine;
                  },
                ),
              ),
            ),
          ))
