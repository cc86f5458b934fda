-- ===== src/Shared/Top.antt =====
-- The first elements of a list in the order of falling scores.
use support_agent_platform.Shared.Tests.{
  ℕ, zero, suc, ◌≤◌, List, [], ◌∷◌, ◌≡◌, refl, ap, ◌⊎◌, arith,
}
use support_agent_platform.Shared.Elements.{All, All-at, All-of, All-take, Occurs, Occurs-take}
use support_agent_platform.Shared.Sort.{
  All-sort_in, InOrder-take, Occurs-sort_in, ScoresFall, sort_by, sort_by-ScoresFall,
}
use support_agent_platform.Shared.Lists.{take, length, length-take}
use support_agent_platform.Shared.Ratio.{Ratio}

pub take_all : {A : Type 0} (n : ℕ) (xs : List A) → length xs ≤ n → take n xs ≡ xs
take_all zero [] h = refl
take_all zero (x ∷ xs) h = absurd (omega (arith, h))
take_all (suc n) [] h = refl
take_all (suc n) (x ∷ xs) h = ap (λ ys. x ∷ ys) (take_all n xs (omega (arith, h)))

module _ {A : Type 0} (score : A → Ratio) where
  -- At most `n` of what was found, the scores falling, and all of it unless there are `n`.
  pub record IsTop (n : ℕ) (found cs : List A) : Type 0 where
    pub few : length cs ≤ n
    pub falling : ScoresFall score cs
    pub genuine : All (λ c. Occurs c found) cs
    pub complete : (c : A) → Occurs c found → (length cs ≡ n) ⊎ Occurs c cs

  pub take-IsTop : (n : ℕ) (found : List A) → IsTop n found (take n (sort_by score found))
  take-IsTop n found = record {
    few = length-take n (sort_by score found);
    falling = InOrder-take _ n (sort_by score found) (sort_by-ScoresFall score found);
    genuine =
        All-take (λ c. Occurs c found) n (sort_by score found)
          (All-sort_in _ (λ c. Occurs c found) found (All-of (λ c. Occurs c found) found λ c o. o));
    complete = λ c o. Occurs-take c n (sort_by score found) (Occurs-sort_in _ c found o);
  }

  -- What is found may be given by another list with the same elements.
  pub IsTop-same :
      (n : ℕ) (found others cs : List A)
      → ((c : A) → Occurs c found → Occurs c others)
      → ((c : A) → Occurs c others → Occurs c found)
      → IsTop n found cs
      → IsTop n others cs
  IsTop-same n found others cs to back top = record {
    few = top.few;
    falling = top.falling;
    genuine =
        All-of (λ c. Occurs c others) cs
          λ c o. to c (All-at (λ d. Occurs d found) c cs top.genuine o);
    complete = λ c o. top.complete c (back c o);
  }
