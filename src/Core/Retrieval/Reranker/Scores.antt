-- ===== src/Core/Retrieval/Reranker/Scores.antt =====
-- core/retrieval/reranker.py: the scores that `rerank` gives, and which candidates it keeps.
use support_agent_platform.Shared.{
  ℕ, suc, ◌+◌, ◌-◌, ◌*◌, ◌≤◌, ◌<◌, String, ◌≡◌, refl, ap, ◌∙◌, inl, inr, Bool, Option, none, some,
  List, [], ◌∷◌, map, arith, ◌==◌, eq_iff, leb, Bool-cases, length, take, Result, ok, Exec, proceed,
  ◌>>=◌,
}
use mathlib.Core.List.{Perm}
use mathlib.Core.List.Perm
use support_agent_platform.Shared.Sort.{ScoresFall, sort_by, sort_by-ScoresFall, sort_in, insert_in}
use support_agent_platform.Shared.Ratio.{Ratio, nought, hundredths, plus, percent}
use support_agent_platform.Shared.Text.{lower}
use support_agent_platform.Core.Hitl.PendingActions.{with_offset}
use support_agent_platform.Storage.World.{World}
use support_agent_platform.Core.Retrieval.Terms.{terms_of, hits_in}
use support_agent_platform.Core.Retrieval.Retriever.{RetrievalDetail}
use support_agent_platform.Core.Retrieval.Attribution.{at_least_one}
use support_agent_platform.Core.Retrieval.Reranker.{
  Reranked, bonus_of_age, dated_bonus, freshness_bonus, rerank_score_of, rescored, with_ranks,
  by_rerank, rerank,
}
use support_agent_platform.Core.Retrieval.Reranker.Reranks.{CountUp, with_ranks-CountUp}

-- The program returns something of which `Q` is true, and does nothing but read the clock.
abbrev pub Reads : {A : Type 0} → (A → Type 0) → Exec World A → World → Type 0
Reads {A} Q m w = (a : A) × ((n : ℕ) × ((m w ≡ (ok a, record w { reads = n })) × Q a))

module _ {A B : Type 0} (Q : A → Type 0) (R : B → Type 0) where
  Reads-bind :
      (m : Exec World A) (k : A → Exec World B) (w : World)
      → Reads Q m w
      → ((a : A) → Q a → (n : ℕ) → Reads R (k a) (record w { reads = n }))
      → Reads R (m >>= k) w
  Reads-bind m k w (a, (n, (same, q))) next = joined (next a q n)
    where
      joined : Reads R (k a) (record w { reads = n }) → Reads R (m >>= k) w
      joined (b, (u, (same_, r))) =
          (b, (u, (ap (λ (p : Result A × World). proceed p.0 k p.1) same ∙ same_, r)))

-- The bonus of a document, by its time and a reading of the clock: the more the younger it is, by 30
-- and by 180 days; none for a text that is no time.
pub data Bonus (w : World) (updated_at : String) : Ratio → Type 0 where
  undated : updated_at ≡ "" → Bonus w updated_at nought
  unread : w.fromisoformat (with_offset updated_at) ≡ none → Bonus w updated_at nought
  fresh :
      (time n : ℕ)
      → w.fromisoformat (with_offset updated_at) ≡ some time
      → w.clock n - time ≤ 30 * 86400000000
      → Bonus w updated_at (hundredths 6)
  recent :
      (time n : ℕ)
      → w.fromisoformat (with_offset updated_at) ≡ some time
      → 30 * 86400000000 < w.clock n - time
      → w.clock n - time ≤ 180 * 86400000000
      → Bonus w updated_at (hundredths 3)
  old :
      (time n : ℕ)
      → w.fromisoformat (with_offset updated_at) ≡ some time
      → 180 * 86400000000 < w.clock n - time
      → Bonus w updated_at nought

-- The new score: the old one where the query has no terms; else that, a fifth of the share of the terms
-- that are found in the title and in the content, 0.15 of the share found in the title, and the bonus.
pub data Scored (w : World) (d : RetrievalDetail) : List String → Ratio → Type 0 where
  as_before : Scored w d [] d.score
  by_terms :
      {term : String} {terms : List String} {bonus : Ratio}
      → Bonus w d.updated_at bonus
      → Scored w d (term ∷ terms) (
          let all_terms = term ∷ terms in
          let in_title = hits_in all_terms (lower d.doc.title) in
          let in_content = hits_in all_terms (lower d.doc.content) in
          plus
            (plus
              (plus d.score
                (percent 20 (record { num = in_title + in_content; den = length all_terms * 2 })))
              (percent 15 (record { num = in_title; den = length all_terms })))
            bonus)

-- A candidate under its new score.
pub record IsScored (w : World) (terms : List String) (d : RetrievalDetail) (r : Reranked)
    : Type 0 where
  pub scored : Scored w d terms r.rerank_score
  pub detail : r.detail ≡ record d { score = r.rerank_score }
  pub unranked : r.rank ≡ 0

-- Each candidate once, in its place.
abbrev pub AllScored : World → List String → List RetrievalDetail → List Reranked → Type 0
AllScored w terms [] [] = Unit
AllScored w terms [] (r ∷ rs) = ⊥
AllScored w terms (d ∷ ds) [] = ⊥
AllScored w terms (d ∷ ds) (r ∷ rs) = IsScored w terms d r × AllScored w terms ds rs

bonus_of_age-Bonus :
    (w : World) (updated_at : String) (time n : ℕ)
    → w.fromisoformat (with_offset updated_at) ≡ some time
    → Bonus w updated_at (bonus_of_age (w.clock n - time))
unfolding bonus_of_age
bonus_of_age-Bonus w updated_at time n h =
    elim (Bool-cases (leb (w.clock n - time) (30 * 86400000000))) [
      | inl e ↦ rw e (fresh time n h (ground arith))
      | inr e ↦ elim (Bool-cases (leb (w.clock n - time) (180 * 86400000000))) [
        | inl f ↦ rw (e, f) (recent time n h (ground arith) (ground arith))
        | inr f ↦ rw (e, f) (old time n h (ground arith))
      ]
    ]

dated_bonus-Reads :
    (w : World) (updated_at : String) (o : Option ℕ)
    → w.fromisoformat (with_offset updated_at) ≡ o
    → (n : ℕ) → Reads (Bonus w updated_at) (dated_bonus o) (record w { reads = n })
unfolding dated_bonus
dated_bonus-Reads w updated_at none h n = (nought, (n, (refl, unread h)))
dated_bonus-Reads w updated_at (some time) h n =
    (bonus_of_age (w.clock n - time), (suc n, (refl, bonus_of_age-Bonus w updated_at time n h)))

freshness_bonus-Reads :
    (w : World) (updated_at : String) (n : ℕ)
    → Reads (Bonus w updated_at) (freshness_bonus updated_at) (record w { reads = n })
unfolding freshness_bonus
freshness_bonus-Reads w updated_at n = elim (Bool-cases (updated_at == "")) [
  | inl e ↦ (nought, (n, (rw e refl, undated ((eq_iff updated_at "").0 e))))
  | inr e ↦
      let (r, (k, (same, q))) =
        dated_bonus-Reads w updated_at (w.fromisoformat (with_offset updated_at)) refl n in
      (r, (k, (rw e same, q)))
]

rerank_score_of-Reads :
    (w : World) (terms : List String) (d : RetrievalDetail) (n : ℕ)
    → Reads (Scored w d terms) (rerank_score_of terms d) (record w { reads = n })
unfolding rerank_score_of
rerank_score_of-Reads w [] d n = (d.score, (n, (refl, as_before)))
rerank_score_of-Reads w (term ∷ terms) d n =
    Reads-bind (Bonus w d.updated_at) (Scored w d (term ∷ terms)) (freshness_bonus d.updated_at) _
      (record w { reads = n }) (freshness_bonus-Reads w d.updated_at n)
      λ bonus q k. (_, (k, (refl, by_terms q)))

rescored-Reads :
    (w : World) (terms : List String) (candidates : List RetrievalDetail) (n : ℕ)
    → Reads (AllScored w terms candidates) (rescored terms candidates) (record w { reads = n })
unfolding rescored
rescored-Reads w terms [] n = ([], (n, (refl, tt)))
rescored-Reads w terms (d ∷ candidates) n =
    Reads-bind (Scored w d terms) (AllScored w terms (d ∷ candidates)) (rerank_score_of terms d) _
      (record w { reads = n }) (rerank_score_of-Reads w terms d n)
      λ score q k.
        Reads-bind (AllScored w terms candidates) (AllScored w terms (d ∷ candidates))
          (rescored terms candidates) _ (record w { reads = k })
          (rescored-Reads w terms candidates k)
          λ rest h j. (_, (j, (refl, (record { scored = q; detail = refl; unranked = refl }, h))))

-- The sort is of the same elements.
module _ {A : Type 0} (goes_before : A → A → Bool) where
  insert_in-perm : (x : A) (xs : List A) → Perm (insert_in goes_before x xs) (x ∷ xs)
  unfolding insert_in
  insert_in-perm x [] = Perm.refl (x ∷ [])
  insert_in-perm x (y ∷ ys) = elim (Bool-cases (goes_before x y)) [
    | inl e ↦ rw e (Perm.refl (x ∷ y ∷ ys))
    | inr e ↦ rw e (Perm.trans (Perm.cons y (insert_in-perm x ys)) (Perm.swap x y ys))
  ]

  sort_in-perm : (xs : List A) → Perm (sort_in goes_before xs) xs
  unfolding sort_in
  sort_in-perm [] = Perm.refl []
  sort_in-perm (x ∷ xs) =
      Perm.trans (insert_in-perm x (sort_in goes_before xs)) (Perm.cons x (sort_in-perm xs))

abbrev pub unranked_of : List Reranked → List Reranked
unranked_of = map (λ (r : Reranked). record r { rank = 0 })

-- What `rerank` gives: of all candidates under their new scores, in the order of falling scores, as
-- many as are asked for, with ranks that count up from 1.
pub record Ranks (w : World) (terms : List String) (candidates : List RetrievalDetail) (count : ℕ)
    (rs : List Reranked) : Type 0 where
  pub all_scored : List Reranked
  pub scores : AllScored w terms candidates all_scored
  pub order : List Reranked
  pub same_ones : Perm order all_scored
  pub falling : ScoresFall by_rerank order
  pub kept : unranked_of rs ≡ unranked_of (take count order)
  pub ranks : CountUp 1 rs

unranked_of-with_ranks :
    (n : ℕ) (rs : List Reranked) → unranked_of (with_ranks n rs) ≡ unranked_of rs
unfolding with_ranks
unranked_of-with_ranks n [] = refl
unranked_of-with_ranks n (r ∷ rs) =
    ap (λ rest. record r { rank = 0 } ∷ rest) (unranked_of-with_ranks (suc n) rs)

-- The reranker always returns, and does nothing but read the clock. All candidates are scored anew: the
-- old score where the query has no terms, and else that with a fifth of the share of terms that are
-- found in title and content, 0.15 of the share found in the title, and the bonus of the document's
-- age, of 0.06 up to 30 days and 0.03 up to 180. Of all of them in the order of falling scores, the
-- first are given, as many as were asked for but one at least, with ranks that count up from 1.
pub rerank-Ranks :
    (query : String) (candidates : List RetrievalDetail) (top_k : ℕ) (w : World)
    → Reads
        (Ranks w (terms_of query) candidates (at_least_one top_k))
        (rerank query candidates (some top_k))
        w
unfolding rerank
rerank-Ranks query candidates top_k w =
    Reads-bind (AllScored w (terms_of query) candidates)
      (Ranks w (terms_of query) candidates (at_least_one top_k))
      (rescored (terms_of query) candidates) _ w
      (rescored-Reads w (terms_of query) candidates w.reads)
      λ rs h n. (
        _,
        (
          n,
          (
            refl,
            record {
              all_scored = rs;
              scores = h;
              order = sort_by by_rerank rs;
              same_ones = sort_in-perm _ rs;
              falling = sort_by-ScoresFall by_rerank rs;
              kept = unranked_of-with_ranks 1 (take (at_least_one top_k) (sort_by by_rerank rs));
              ranks = with_ranks-CountUp 1 (take (at_least_one top_k) (sort_by by_rerank rs));
            },
          ),
        ),
      )
