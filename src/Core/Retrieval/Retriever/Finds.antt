-- ===== src/Core/Retrieval/Retriever/Finds.antt =====
-- core/retriever.py: the promise of `search_with_details`.
use support_agent_platform.Shared.{
  ℕ, ◌≤◌, String, ◌≡◌, refl, sym, ap, ◌∙◌, ◌⊎◌, inl, inr, Bool, true, false, Option, List, [], ◌∷◌,
  eq_iff, if◌then◌else◌, Bool-cases, length, take, select,
}
use support_agent_platform.Shared.Elements.{All, All-at, All-of, Occurs}
use support_agent_platform.Shared.Sort.{sort_in-Occurs, Occurs-sort_in, ScoresFall, sort_by}
use support_agent_platform.Shared.Top.{IsTop, IsTop-same, take-IsTop}
use support_agent_platform.Shared.Ratio.{Ratio, is_nought}
use support_agent_platform.Core.Retrieval.Documents.{NormalizedDocument}
use support_agent_platform.Core.Retrieval.Retriever.{
  Mode, lexical, vector, hybrid, RetrievalDetail, normalize_source, documents_of, scored, ranked,
  detail_score, before_sort, search_with_details,
}
use support_agent_platform.Core.Retrieval.Retriever.Ranks.{
  IsHit, ranked-IsHit, Occurs-ranked, before_sort_hybrid,
}

module _ {A : Type 0} (p : A → Bool) where
  select-Occurs : (xs : List A) (a : A) → Occurs a (select p xs) → Occurs a xs × (p a ≡ true)
  select-Occurs [] a o = elim o [ ]
  select-Occurs (x ∷ xs) a o = by_test (select-Occurs xs a) (p x) refl o
    where
      later : Occurs a xs × (p a ≡ true) → Occurs a (x ∷ xs) × (p a ≡ true)
      later (o, h) = (inr o, h)

      by_test :
          (Occurs a (select p xs) → Occurs a xs × (p a ≡ true))
          → (b : Bool) → p x ≡ b
          → Occurs a (if b then x ∷ select p xs else select p xs)
          → Occurs a (x ∷ xs) × (p a ≡ true)
      by_test ih true h (inl e) = (inl e, ap p e ∙ h)
      by_test ih true h (inr o) = later (ih o)
      by_test ih false h o = later (ih o)

  Occurs-select : (xs : List A) (a : A) → Occurs a xs → p a ≡ true → Occurs a (select p xs)
  Occurs-select [] a o h = elim o [ ]
  Occurs-select (x ∷ xs) a (inl e) h = rw (sym (ap p e) ∙ h) (inl e)
  Occurs-select (x ∷ xs) a (inr o) h = elim (Bool-cases (p x)) [
    | inl k ↦ rw k (inr (Occurs-select xs a o h))
    | inr k ↦ rw k (Occurs-select xs a o h)
  ]

module _ (vector_score : String → String → Option Ratio) (documents : List NormalizedDocument)
    (query source_type : String) (top_k : ℕ) (boost : Ratio) where
  abbrev docs : List NormalizedDocument
  docs = documents_of (normalize_source source_type) documents

  abbrev found : Mode → List RetrievalDetail
  found mode =
      ranked vector_score documents query mode (normalize_source source_type) boost docs docs

  abbrev score : RetrievalDetail → Ratio
  score = detail_score vector_score documents query

  search-IsTop :
      (mode : Mode)
      → IsTop score top_k
          (found mode)
          (search_with_details vector_score documents query source_type top_k boost mode)
  unfolding search_with_details before_sort
  search-IsTop lexical = take-IsTop score top_k (found lexical)
  search-IsTop vector = take-IsTop score top_k (found vector)
  search-IsTop hybrid =
      let sorted = sort_by score (found hybrid) in
      rw
        (before_sort_hybrid vector_score documents query (normalize_source source_type) boost top_k
          docs)
        (IsTop-same score top_k sorted (found hybrid) (take top_k (sort_by score sorted))
          (λ c o. sort_in-Occurs _ c (found hybrid) o) (λ c o. Occurs-sort_in _ c (found hybrid) o)
          (take-IsTop score top_k sorted))

  -- The detail of a document in this search.
  abbrev pub detail_in : Mode → NormalizedDocument → RetrievalDetail
  detail_in mode d =
      scored vector_score documents query mode (normalize_source source_type) boost docs d

  -- A detail of some document of the source, with a score.
  abbrev pub IsFound : Mode → RetrievalDetail → Type 0
  IsFound mode r =
      (d : NormalizedDocument) × ((Occurs d documents
          × (normalize_source d.source_type ≡ normalize_source source_type))
        × ((r ≡ detail_in mode d) × (is_nought r.score ≡ false)))

  -- What a search promises of its results.
  pub record Searches (mode : Mode) (results : List RetrievalDetail) : Type 0 where
    pub few : length results ≤ top_k
    pub falling : ScoresFall score results
    pub genuine : All (IsFound mode) results
    pub complete :
        (d : NormalizedDocument)
        → Occurs d documents
        → normalize_source d.source_type ≡ normalize_source source_type
        → is_nought (detail_in mode d).score ≡ false
        → (length results ≡ top_k) ⊎ Occurs (detail_in mode d) results

  IsHit-IsFound :
      (mode : Mode) (r : RetrievalDetail)
      → IsHit vector_score documents query mode (normalize_source source_type) boost docs docs r
      → IsFound mode r
  unfolding documents_of
  IsHit-IsFound mode r (d, (o, h)) =
      let (there, same) = select-Occurs _ documents d o in (d, ((there, (eq_iff _ _).0 same), h))

  -- A search, in any of its three modes, gives at most so many results, their scores falling; each is
  -- a document of the source, or of its other name, with the score of the mode, which is not 0; and
  -- every such document is among them, unless there are already as many as were asked for.
  pub search_with_details-Searches :
      (mode : Mode)
      → Searches mode
          (search_with_details vector_score documents query source_type top_k boost mode)
  unfolding documents_of
  search_with_details-Searches mode =
      let results = search_with_details vector_score documents query source_type top_k boost mode in
      let top = search-IsTop mode in
      record {
        few = top.few;
        falling = top.falling;
        genuine = All-of (IsFound mode) results λ r o. IsHit-IsFound mode r (
            ranked-IsHit vector_score documents query mode (normalize_source source_type) boost docs
              docs r (All-at (λ c. Occurs c (found mode)) r results top.genuine o));
        complete = λ d there same scored_. top.complete (detail_in mode d) (
            Occurs-ranked vector_score documents query mode (normalize_source source_type) boost
              docs docs d (Occurs-select _ documents d there ((eq_iff _ _).1 same)) scored_);
      }
