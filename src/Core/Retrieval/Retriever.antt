-- ===== src/Core/Retrieval/Retriever.antt =====
-- core/retriever.py and core/retrieval/hybrid_retriever.py: the search over the documents of a
-- source; Grounded is the search over all. The scores of core/retrieval/vector_retriever.py are an
-- argument, `none` where a document has no score.
pub mod Ranks
pub mod Finds
pub mod Grounded
use support_agent_platform.Shared.{
  ℕ, String, ◌<>◌, Option, none, some, List, [], ◌∷◌, map, ◌==◌, leb, if◌then◌else◌, length, take,
  select, some_of, Dict,
}
use support_agent_platform.Shared.Sort.{sort_by, sort_in}
use support_agent_platform.Shared.Ratio.{
  Ratio, nought, hundredths, at_most, plus, percent, plus_hundredths, is_nought,
}
use support_agent_platform.Shared.Text.{lower, occurs_in}
use support_agent_platform.Shared.Words.{join, join_words}
use support_agent_platform.Storage.Models.{KbDocument}
use support_agent_platform.Core.Retrieval.Documents.{
  NormalizedDocument, to_kb_document, source_alias, alias_or,
}
use support_agent_platform.Core.Retrieval.Terms.{terms_of, hits_in}

pub data Mode : Type 0 where
  lexical vector hybrid : Mode

unfoldable pub mode_text : Mode → String
mode_text lexical = "lexical"
mode_text vector = "vector"
mode_text hybrid = "hybrid"

pub record RetrievalDetail : Type 0 where
  pub doc : KbDocument
  pub score : Ratio
  pub lexical_score : Ratio
  pub vector_score : Ratio
  pub retrieval_mode : Mode
  pub updated_at : String
  pub metadata : Dict

-- `_normalize_source`.
unfoldable pub normalize_source : String → String
unfolding lower source_alias
normalize_source source = alias_or (lower source) (lower source)

-- `_documents_by_source[source]`.
unfoldable pub documents_of : String → List NormalizedDocument → List NormalizedDocument
unfolding normalize_source
documents_of source documents =
    select (λ (d : NormalizedDocument). normalize_source d.source_type == source) documents

-- `_score`: the share of the terms that the text of the document has.
unfoldable pub lexical_score_of : List String → NormalizedDocument → Ratio
unfolding lower hits_in join
lexical_score_of [] d = nought
lexical_score_of (term ∷ terms) d =
    let haystack = lower (d.title <> " " <> d.content <> " " <> join_words d.tags) in
    record { num = hits_in (term ∷ terms) haystack; den = length (term ∷ terms) }

-- A dict of scores by identifier: of two documents with the same, the last one counts.
unfoldable pub score_at : (NormalizedDocument → Ratio) → String → List NormalizedDocument → Ratio
score_at score id [] = nought
score_at score id (d ∷ docs) =
    let rest = score_at score id docs in
    if some_of (λ (e : NormalizedDocument). e.doc_id == id) docs
    then rest
    else if d.doc_id == id
    then score d
    else nought

abbrev pub or_nought : Option Ratio → Ratio
or_nought none = nought
or_nought (some r) = r

module _ (vector_score : String → String → Option Ratio) (documents : List NormalizedDocument)
    (query : String) where
  abbrev pub vector_of : NormalizedDocument → Ratio
  vector_of d = or_nought (vector_score query d.doc_id)

  abbrev pub lexical_of : List NormalizedDocument → NormalizedDocument → Ratio
  lexical_of docs d = score_at (lexical_score_of (terms_of query)) d.doc_id docs

  -- The sum of `combine`, with the boost of the document's source as it is written.
  unfoldable pub combined : String → Ratio → List NormalizedDocument → NormalizedDocument → Ratio
  unfolding score_at lexical_score_of plus percent
  combined source boost docs d =
      plus (plus (percent 55 (lexical_of docs d)) (percent 45 (vector_of d)))
        (if d.source_type == source then boost else nought)

  abbrev pub detail : Mode → Ratio → Ratio → Ratio → NormalizedDocument → RetrievalDetail
  detail mode score lexical_score vector_score_ d = record {
    doc = to_kb_document d score;
    score = score;
    lexical_score = lexical_score;
    vector_score = vector_score_;
    retrieval_mode = mode;
    updated_at = d.updated_at;
    metadata = d.metadata;
  }

  -- What a document is in the search, whose source has the documents `docs`.
  unfoldable pub scored :
      Mode → String → Ratio → List NormalizedDocument → NormalizedDocument → RetrievalDetail
  unfolding combined score_at lexical_score_of plus
  scored hybrid source boost docs d =
      detail hybrid (combined source boost docs d) (lexical_of docs d) (vector_of d) d
  scored vector source boost docs d =
      detail vector (plus (vector_of d) boost) (lexical_of docs d) (vector_of d) d
  scored lexical source boost docs d =
      detail lexical (plus (lexical_of docs d) boost) (lexical_of docs d) nought d

  -- The loop over the documents: those with a score.
  unfoldable pub ranked :
      Mode
      → String
      → Ratio
      → List NormalizedDocument
      → List NormalizedDocument
      → List RetrievalDetail
  unfolding scored
  ranked mode source boost docs [] = []
  ranked mode source boost docs (d ∷ rest) =
      let later = ranked mode source boost docs rest in
      let found = scored mode source boost docs d in
      if is_nought found.score then later else found ∷ later

  abbrev pub detail_score : RetrievalDetail → Ratio
  detail_score d = d.score

  -- `combine` sorts its results and cuts them at a length that they do not pass.
  unfoldable pub before_sort :
      Mode → String → Ratio → ℕ → List NormalizedDocument → List RetrievalDetail
  unfolding ranked sort_in at_most
  before_sort hybrid source boost top_k docs =
      let kept = if leb top_k (length docs) then length docs else top_k in
      take (if leb 1 kept then kept else 1)
        (sort_by detail_score (ranked hybrid source boost docs docs))
  before_sort mode source boost top_k docs = ranked mode source boost docs docs

  unfoldable pub search_with_details : String → ℕ → Ratio → Mode → List RetrievalDetail
  unfolding documents_of normalize_source before_sort sort_in at_most
  search_with_details source_type top_k boost mode =
      let source = normalize_source source_type in
      take top_k
        (sort_by detail_score (before_sort mode source boost top_k (documents_of source documents)))

  -- `search`, which `search_faq`, `search_sop` and `search_history` call with their source.
  unfoldable pub search_documents : String → ℕ → Ratio → Mode → List KbDocument
  unfolding search_with_details
  search_documents source_type top_k boost mode =
      map (λ (d : RetrievalDetail). record d.doc { score = d.score })
        (search_with_details source_type top_k boost mode)

-- `source_stats`, for one source.
unfoldable pub source_stat : String → List NormalizedDocument → ℕ
unfolding documents_of
source_stat source documents = length (documents_of source documents)
