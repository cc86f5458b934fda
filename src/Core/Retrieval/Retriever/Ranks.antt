-- ===== src/Core/Retrieval/Retriever/Ranks.antt =====
-- core/retriever.py: what a search gives.
use support_agent_platform.Shared.{
  ℕ, ◌≤◌, String, ◌≡◌, refl, sym, ap, subst, inl, inr, Bool, true, false, Option, List, [], ◌∷◌,
  arith, Bool-cases, length,
}
use support_agent_platform.Shared.Elements.{Occurs}
use support_agent_platform.Shared.Sort.{length-sort_by, sort_by}
use support_agent_platform.Shared.Top.{take_all}
use support_agent_platform.Shared.Ratio.{Ratio, is_nought}
use support_agent_platform.Core.Retrieval.Documents.{NormalizedDocument}
use support_agent_platform.Core.Retrieval.Retriever.{
  Mode, hybrid, RetrievalDetail, scored, ranked, detail_score, before_sort,
}

module _ (vector_score : String → String → Option Ratio) (documents : List NormalizedDocument)
    (query : String) (mode : Mode) (source : String) (boost : Ratio)
    (docs : List NormalizedDocument) where
  abbrev pub detail_of : NormalizedDocument → RetrievalDetail
  detail_of d = scored vector_score documents query mode source boost docs d

  abbrev by_score : RetrievalDetail → Ratio
  by_score r = r.score

  length-ranked :
      (rest : List NormalizedDocument)
      → length (ranked vector_score documents query mode source boost docs rest) ≤ length rest
  unfolding ranked
  length-ranked [] = omega arith
  length-ranked (d ∷ rest) = ground (arith, length-ranked rest)

  -- What is ranked is a document of the list, and has a score.
  abbrev pub IsHit : List NormalizedDocument → RetrievalDetail → Type 0
  IsHit rest r =
      (d : NormalizedDocument) × (Occurs d rest × ((r ≡ detail_of d) × (is_nought r.score ≡ false)))

  IsHit-later :
      (e : NormalizedDocument) (rest : List NormalizedDocument) (r : RetrievalDetail)
      → IsHit rest r
      → IsHit (e ∷ rest) r
  IsHit-later e rest r (d, (o, h)) = (d, (inr o, h))

  pub ranked-IsHit :
      (rest : List NormalizedDocument) (r : RetrievalDetail)
      → Occurs r (ranked vector_score documents query mode source boost docs rest)
      → IsHit rest r
  unfolding ranked
  ranked-IsHit [] r o = elim o [ ]
  ranked-IsHit (d ∷ rest) r o =
      by_score_of (ranked-IsHit rest r) (is_nought (detail_of d).score) refl o
    where
      first_or_later :
          is_nought (detail_of d).score ≡ false
          → Occurs r (detail_of d ∷ ranked vector_score documents query mode source boost docs rest)
          → (Occurs r (ranked vector_score documents query mode source boost docs rest)
              → IsHit rest r)
          → IsHit (d ∷ rest) r
      first_or_later h (inl e) later =
          (d, (inl refl, (e, subst (λ x. is_nought x.score ≡ false) (sym e) h)))
      first_or_later h (inr p) later = IsHit-later d rest r (later p)

      by_score_of :
          (Occurs r (ranked vector_score documents query mode source boost docs rest)
            → IsHit rest r)
          → (b : Bool) → is_nought (detail_of d).score ≡ b
          → Occurs r (ranked vector_score documents query mode source boost docs (d ∷ rest))
          → IsHit (d ∷ rest) r
      by_score_of later true h p = IsHit-later d rest r (later (rw h at p))
      by_score_of later false h p = first_or_later h (rw h at p) later

  pub Occurs-ranked :
      (rest : List NormalizedDocument) (d : NormalizedDocument)
      → Occurs d rest
      → is_nought (detail_of d).score ≡ false
      → Occurs (detail_of d) (ranked vector_score documents query mode source boost docs rest)
  unfolding ranked
  Occurs-ranked [] d o h = elim o [ ]
  Occurs-ranked (e ∷ rest) d (inl same) h =
      rw (subst (λ x. is_nought (detail_of x).score ≡ false) same h) (inl (ap detail_of same))
  Occurs-ranked (e ∷ rest) d (inr o) h = elim (Bool-cases (is_nought (detail_of e).score)) [
    | inl k ↦ rw k (Occurs-ranked rest d o h)
    | inr k ↦ rw k (inr (Occurs-ranked rest d o h))
  ]

-- What is there before the sort of all modes is what was ranked.
module _ (vector_score : String → String → Option Ratio) (documents : List NormalizedDocument)
    (query : String) (source : String) (boost : Ratio) (top_k : ℕ)
    (docs : List NormalizedDocument) where
  pub before_sort_hybrid :
      before_sort vector_score documents query hybrid source boost top_k docs
      ≡ sort_by
          (detail_score vector_score documents query)
          (ranked vector_score documents query hybrid source boost docs docs)
  unfolding before_sort
  before_sort_hybrid =
      take_all _
        (sort_by (detail_score vector_score documents query)
          (ranked vector_score documents query hybrid source boost docs docs))
        (ground (
          arith,
          length-ranked vector_score documents query hybrid source boost docs docs,
          length-sort_by (detail_score vector_score documents query)
              (ranked vector_score documents query hybrid source boost docs docs),
        ))
