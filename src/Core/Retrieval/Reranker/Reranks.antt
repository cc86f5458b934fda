-- ===== src/Core/Retrieval/Reranker/Reranks.antt =====
-- core/retrieval/reranker.py: what `rerank` gives, and that it always gives it.
use support_agent_platform.Shared.{
  ℕ, zero, suc, String, ◌≡◌, refl, ap, ◌∙◌, inl, inr, Option, none, some, List, [], ◌∷◌, arith,
  ◌==◌, Bool-cases, length, take, Result, ok, Exec, proceed, ◌>>=◌,
}
use support_agent_platform.Shared.Elements.{All, All-take, Occurs}
use support_agent_platform.Shared.Sort.{
  All-sort_in, InOrder-take, ScoresFall, length-sort_in, sort_by, sort_by-ScoresFall,
}
use support_agent_platform.Shared.Ratio.{nought}
use support_agent_platform.Core.Hitl.PendingActions.{with_offset}
use support_agent_platform.Storage.World.{World}
use support_agent_platform.Core.Retrieval.Terms.{terms_of}
use support_agent_platform.Core.Retrieval.Retriever.{RetrievalDetail}
use support_agent_platform.Core.Retrieval.Attribution.{at_least_one}
use support_agent_platform.Core.Retrieval.Reranker.{
  Reranked, dated_bonus, freshness_bonus, rerank_score_of, rescored, with_ranks, by_rerank, rerank,
}

-- The program returns something of which `Q` is true, and leaves the tickets as they are.
abbrev pub Gives : {A : Type 0} → (A → Type 0) → Exec World A → World → Type 0
Gives {A} Q m w = (a : A) × ((v : World) × ((m w ≡ (ok a, v)) × ((v.tickets ≡ w.tickets) × Q a)))

module _ {A B : Type 0} (Q : A → Type 0) (R : B → Type 0) where
  pub Gives-bind :
      (m : Exec World A) (k : A → Exec World B) (w : World)
      → Gives Q m w
      → ((a : A) → Q a → (v : World) → Gives R (k a) v)
      → Gives R (m >>= k) w
  Gives-bind m k w (a, (v, (same, (kept, q)))) next = joined (next a q v)
    where
      joined : Gives R (k a) v → Gives R (m >>= k) w
      joined (b, (u, (same_, (kept_, r)))) = (
        b,
        (u, (ap (λ (p : Result A × World). proceed p.0 k p.1) same ∙ same_, (kept_ ∙ kept, r))),
      )

abbrev Any : {A : Type 0} → A → Type 0
Any a = Unit

dated_bonus-Gives : (o : Option ℕ) (w : World) → Gives Any (dated_bonus o) w
unfolding dated_bonus
dated_bonus-Gives none w = (_, (_, (refl, (refl, tt))))
dated_bonus-Gives (some time) w = (_, (_, (refl, (refl, tt))))

freshness_bonus-Gives : (updated_at : String) (w : World) → Gives Any (freshness_bonus updated_at) w
unfolding freshness_bonus
freshness_bonus-Gives updated_at w = elim (Bool-cases (updated_at == "")) [
  | inl e ↦ (nought, (w, (rw e refl, (refl, tt))))
  | inr e ↦
      let (r, (v, (same, rest))) = dated_bonus-Gives (w.fromisoformat (with_offset updated_at)) w in
      (r, (v, (rw e same, rest)))
]

rerank_score_of-Gives :
    (terms : List String) (d : RetrievalDetail) (w : World) → Gives Any (rerank_score_of terms d) w
unfolding rerank_score_of
rerank_score_of-Gives [] d w = (_, (_, (refl, (refl, tt))))
rerank_score_of-Gives (term ∷ terms) d w =
    Gives-bind Any Any (freshness_bonus d.updated_at) _ w (freshness_bonus-Gives d.updated_at w)
      λ r _ v. (_, (_, (refl, (refl, tt))))

-- A candidate under a new score.
abbrev pub IsRescored : List RetrievalDetail → Reranked → Type 0
IsRescored candidates r =
    (d : RetrievalDetail) × (Occurs d candidates × (r.detail ≡ record d { score = r.rerank_score }))

-- Each candidate is there once, in its place.
abbrev Rescores : List RetrievalDetail → List Reranked → Type 0
Rescores candidates rs = (length rs ≡ length candidates) × All (IsRescored candidates) rs

later-IsRescored :
    (d : RetrievalDetail) (candidates : List RetrievalDetail) (rs : List Reranked)
    → All (IsRescored candidates) rs
    → All (IsRescored (d ∷ candidates)) rs
later-IsRescored d candidates [] h = tt
later-IsRescored d candidates (r ∷ rs) ((e, (o, same)), h) =
    ((e, (inr o, same)), later-IsRescored d candidates rs h)

rescored-Gives :
    (terms : List String) (candidates : List RetrievalDetail) (w : World)
    → Gives (Rescores candidates) (rescored terms candidates) w
unfolding rescored
rescored-Gives terms [] w = (_, (_, (refl, (refl, (refl, tt)))))
rescored-Gives terms (d ∷ candidates) w =
    Gives-bind Any (Rescores (d ∷ candidates)) (rerank_score_of terms d) _ w
      (rerank_score_of-Gives terms d w)
      λ score _ v.
        Gives-bind (Rescores candidates) (Rescores (d ∷ candidates)) (rescored terms candidates) _ v
          (rescored-Gives terms candidates v)
          λ rest h u. (
            _,
            (
              _,
              (
                refl,
                (
                  refl,
                  (ap suc h.0, ((d, (inl refl, refl)), later-IsRescored d candidates rest h.1)),
                ),
              ),
            ),
          )

-- The ranks count up from a number.
abbrev pub CountUp : ℕ → List Reranked → Type 0
CountUp n [] = Unit
CountUp n (r ∷ rs) = (r.rank ≡ n) × CountUp (suc n) rs

pub with_ranks-CountUp : (n : ℕ) (rs : List Reranked) → CountUp n (with_ranks n rs)
unfolding with_ranks
with_ranks-CountUp n [] = tt
with_ranks-CountUp n (r ∷ rs) = (refl, with_ranks-CountUp (suc n) rs)

length-with_ranks : (n : ℕ) (rs : List Reranked) → length (with_ranks n rs) ≡ length rs
unfolding with_ranks
length-with_ranks n [] = refl
length-with_ranks n (r ∷ rs) = ap suc (length-with_ranks (suc n) rs)

with_ranks-IsRescored :
    (candidates : List RetrievalDetail) (n : ℕ) (rs : List Reranked)
    → All (IsRescored candidates) rs
    → All (IsRescored candidates) (with_ranks n rs)
unfolding with_ranks
with_ranks-IsRescored candidates n [] h = tt
with_ranks-IsRescored candidates n (r ∷ rs) h =
    (h.0, with_ranks-IsRescored candidates (suc n) rs h.1)

with_ranks-ScoresFall :
    (n : ℕ) (rs : List Reranked) → ScoresFall by_rerank rs → ScoresFall by_rerank (with_ranks n rs)
unfolding with_ranks
with_ranks-ScoresFall n [] f = tt
with_ranks-ScoresFall n (r ∷ []) f = tt
with_ranks-ScoresFall n (r ∷ q ∷ rs) f = (f.0, with_ranks-ScoresFall (suc n) (q ∷ rs) f.1)

length-take_same :
    {A B : Type 0} (n : ℕ) (xs : List A) (ys : List B)
    → length xs ≡ length ys
    → length (take n xs) ≡ length (take n ys)
length-take_same zero xs ys h = refl
length-take_same (suc n) [] [] h = refl
length-take_same (suc n) [] (y ∷ ys) h = absurd (omega (arith, h))
length-take_same (suc n) (x ∷ xs) [] h = absurd (omega (arith, h))
length-take_same (suc n) (x ∷ xs) (y ∷ ys) h = ap suc (length-take_same n xs ys (omega (arith, h)))

-- What `rerank` promises: as many of the candidates as were asked for, but at least one, under new
-- scores, which fall, and with ranks that count up from 1.
pub record Reranks (top_k : ℕ) (candidates : List RetrievalDetail) (rs : List Reranked)
    : Type 0 where
  pub count : length rs ≡ length (take (at_least_one top_k) candidates)
  pub falling : ScoresFall by_rerank rs
  pub ranks : CountUp 1 rs
  pub genuine : All (IsRescored candidates) rs

ranked_rest :
    (top_k : ℕ) (candidates : List RetrievalDetail) (rs : List Reranked)
    → Rescores candidates rs
    → Reranks top_k candidates (with_ranks 1 (take (at_least_one top_k) (sort_by by_rerank rs)))
ranked_rest top_k candidates rs h =
    let n = at_least_one top_k in
    let sorted = sort_by by_rerank rs in
    record {
      count =
          length-with_ranks 1 (take n sorted)
          ∙ length-take_same n sorted candidates (length-sort_in _ rs ∙ h.0);
      falling =
          with_ranks-ScoresFall 1 (take n sorted)
            (InOrder-take _ n sorted (sort_by-ScoresFall by_rerank rs));
      ranks = with_ranks-CountUp 1 (take n sorted);
      genuine = with_ranks-IsRescored candidates 1 (take n sorted) (
          All-take (IsRescored candidates) n sorted (All-sort_in _ (IsRescored candidates) rs h.1));
    }

-- The reranker always returns, and leaves the tickets as they are: it gives as many of the candidates
-- as were asked for, but at least one if there is any, each under its new score, the scores falling,
-- with ranks that count up from 1.
pub rerank-Reranks :
    (query : String) (candidates : List RetrievalDetail) (top_k : ℕ) (w : World)
    → Gives (Reranks top_k candidates) (rerank query candidates (some top_k)) w
unfolding rerank
rerank-Reranks query candidates top_k w =
    Gives-bind (Rescores candidates) (Reranks top_k candidates)
      (rescored (terms_of query) candidates) _ w (rescored-Gives (terms_of query) candidates w)
      λ rs h v. (_, (_, (refl, (refl, ranked_rest top_k candidates rs h))))
