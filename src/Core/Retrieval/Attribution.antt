-- ===== src/Core/Retrieval/Attribution.antt =====
-- core/retrieval/source_attribution.py: which documents an answer stands on, and what of each is
-- shown.
pub mod Snippets
pub mod Shown
use support_agent_platform.Shared.{
  ℕ, suc, ◌+◌, ◌-◌, ◌/◌, String, Option, none, some, List, [], ◌∷◌, ◌==◌, leb, if◌then◌else◌, take,
}
use support_agent_platform.Shared.Ratio.{Ratio, nought}
use support_agent_platform.Shared.Text.{strip, lower, prefix, text_length, drop_text, find_text}
use support_agent_platform.Storage.Models.{KbDocument}
use support_agent_platform.Core.Retrieval.Terms.{term_list}

-- A candidate, with the entries of its dict that may be missing.
pub record Candidate : Type 0 where
  pub doc : KbDocument
  pub score : Option Ratio
  pub rank : Option ℕ
  pub rerank_reason : Option String
  pub lexical_score : Option Ratio
  pub vector_score : Option Ratio
  pub retrieval_mode : Option String

pub record SourceAttribution : Type 0 where
  pub source_type : String
  pub source_id : String
  pub title : String
  pub snippet : String
  pub score : Ratio
  pub rank : ℕ
  pub reason : String
  pub lexical_score : Ratio
  pub vector_score : Ratio
  pub retrieval_mode : String

-- `text[start:end]` around a place of the text.
unfoldable pub window : String → ℕ → ℕ → String
unfolding prefix drop_text text_length
window s size index =
    let start = index - size / 3 in
    let stop = if leb (text_length s) (start + size) then text_length s else start + size in
    prefix (stop - start) (drop_text start s)

-- The loop of `_snippet` over the terms.
unfoldable pub snippet_at : String → ℕ → List String → String
unfolding window lower find_text prefix
snippet_at s size [] = prefix size s
snippet_at s size (term ∷ terms) =
    let rest = snippet_at s size terms in
    elim (find_text term (lower s)) [ none ↦ rest | some index ↦ window s size index ]

-- `_snippet`, of 72 characters.
unfoldable pub snippet : String → List String → String
unfolding strip snippet_at
snippet content terms = let s = strip content in if s == "" then "" else snippet_at s 72 terms

abbrev pub or_default : {A : Type 0} → Option A → A → A
or_default none default = default
or_default (some a) default = a

-- `row.get("rerank_reason") or ... or "source:retrieved"`.
abbrev pub reason_or_default : Option String → String
reason_or_default none = "source:retrieved"
reason_or_default (some s) = if s == "" then "source:retrieved" else s

unfoldable pub attribution : List String → ℕ → Candidate → SourceAttribution
unfolding snippet
attribution terms index c = record {
  source_type = c.doc.source_type;
  source_id = c.doc.doc_id;
  title = c.doc.title;
  snippet = snippet c.doc.content terms;
  score = or_default c.score c.doc.score;
  rank = or_default c.rank index;
  reason = reason_or_default c.rerank_reason;
  lexical_score = or_default c.lexical_score nought;
  vector_score = or_default c.vector_score nought;
  retrieval_mode = or_default c.retrieval_mode "lexical";
}

-- The loop, from the index of the next candidate.
unfoldable pub attributions : List String → ℕ → List Candidate → List SourceAttribution
unfolding attribution
attributions terms index [] = []
attributions terms index (c ∷ candidates) =
    attribution terms index c ∷ attributions terms (suc index) candidates

abbrev pub at_least_one : ℕ → ℕ
at_least_one n = if leb 1 n then n else 1

-- `build_source_attributions`.
unfoldable pub build_source_attributions :
    String → List Candidate → Option ℕ → List SourceAttribution
unfolding term_list attributions
build_source_attributions query candidates none = attributions (term_list query) 1 candidates
build_source_attributions query candidates (some top_k) =
    attributions (term_list query) 1 (take (at_least_one top_k) candidates)
