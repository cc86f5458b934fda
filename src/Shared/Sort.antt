-- ===== src/Shared/Sort.antt =====
-- `sorted(xs, key=..., reverse=True)` and SQL's `ORDER BY`: one stable sort, by a test whether an element
-- goes before another that comes after it in the list.
use support_agent_platform.Shared.Tests.{
  ℕ, zero, suc, ◌≤◌, String, List, [], ◌∷◌, ◌≡◌, refl, ap, ◌∙◌, Bool, true, false, arith, leb,
  if◌then◌else◌, Bool-cases, inl, inr,
}
use support_agent_platform.Shared.Lists.{take, length}
use support_agent_platform.Shared.Text.{text_leb}
use support_agent_platform.Shared.Ratio.{Ratio, at_most, AtMost, at_most-AtMost, at_most_other}
use support_agent_platform.Shared.Elements.{All, Occurs, All-of, All-at}

module _ {A : Type 0} (goes_before : A → A → Bool) where
  unfoldable pub insert_in : A → List A → List A
  insert_in x [] = x ∷ []
  insert_in x (y ∷ ys) =
      let later = y ∷ insert_in x ys in if goes_before x y then x ∷ y ∷ ys else later

  unfoldable pub sort_in : List A → List A
  unfolding insert_in
  sort_in [] = []
  sort_in (x ∷ xs) = insert_in x (sort_in xs)

-- Each element stands to the next in the relation.
abbrev pub InOrder : {A : Type 0} → (A → A → Type 0) → List A → Type 0
InOrder R [] = Unit
InOrder R (x ∷ []) = Unit
InOrder R (x ∷ y ∷ xs) = R x y × InOrder R (y ∷ xs)

pub InOrder-take :
    {A : Type 0} (R : A → A → Type 0) (n : ℕ) (xs : List A) → InOrder R xs → InOrder R (take n xs)
InOrder-take R zero xs f = tt
InOrder-take R (suc n) [] f = tt
InOrder-take R (suc zero) (x ∷ []) f = tt
InOrder-take R (suc (suc n)) (x ∷ []) f = tt
InOrder-take R (suc zero) (x ∷ y ∷ xs) f = tt
InOrder-take R (suc (suc n)) (x ∷ y ∷ xs) f = (f.0, InOrder-take R (suc n) (y ∷ xs) f.1)

-- The sort puts elements in the order of a relation that the test decides, one way or the other.
module _ {A : Type 0} (goes_before : A → A → Bool) (R : A → A → Type 0)
    (before : (x y : A) → goes_before x y ≡ true → R x y)
    (after : (x y : A) → goes_before x y ≡ false → R y x) where
  insert_in-InOrder_below :
      (b x : A) (xs : List A)
      → R b x
      → InOrder R (b ∷ xs)
      → InOrder R (b ∷ insert_in goes_before x xs)
  unfolding insert_in
  insert_in-InOrder_below b x [] h f = (h, tt)
  insert_in-InOrder_below b x (y ∷ ys) h f = elim (Bool-cases (goes_before x y)) [
    | inl e ↦ rw e (h, (before x y e, f.1))
    | inr e ↦ rw e (f.0, insert_in-InOrder_below y x ys (after x y e) f.1)
  ]

  insert_in-InOrder : (x : A) (xs : List A) → InOrder R xs → InOrder R (insert_in goes_before x xs)
  unfolding insert_in
  insert_in-InOrder x [] f = tt
  insert_in-InOrder x (y ∷ ys) f = elim (Bool-cases (goes_before x y)) [
    | inl e ↦ rw e (before x y e, f)
    | inr e ↦ rw e (insert_in-InOrder_below y x ys (after x y e) f)
  ]

  pub sort_in-InOrder : (xs : List A) → InOrder R (sort_in goes_before xs)
  unfolding sort_in
  sort_in-InOrder [] = tt
  sort_in-InOrder (x ∷ xs) = insert_in-InOrder x (sort_in goes_before xs) (sort_in-InOrder xs)

module _ {A : Type 0} (goes_before : A → A → Bool) where
  Occurs-insert_in :
      (a x : A) (xs : List A) → Occurs a (x ∷ xs) → Occurs a (insert_in goes_before x xs)
  unfolding insert_in
  Occurs-insert_in a x [] o = o
  Occurs-insert_in a x (y ∷ ys) o = elim (Bool-cases (goes_before x y)) [
    | inl e ↦ rw e o
    | inr e ↦ rw e (below o (Occurs-insert_in a x ys))
  ]
    where
      below :
          Occurs a (x ∷ y ∷ ys)
          → (Occurs a (x ∷ ys) → Occurs a (insert_in goes_before x ys))
          → Occurs a (y ∷ insert_in goes_before x ys)
      below (inl e) later = inr (later (inl e))
      below (inr (inl e)) later = inl e
      below (inr (inr o)) later = inr (later (inr o))

  pub Occurs-sort_in : (a : A) (xs : List A) → Occurs a xs → Occurs a (sort_in goes_before xs)
  unfolding sort_in
  Occurs-sort_in a [] o = elim o [ ]
  Occurs-sort_in a (x ∷ xs) (inl e) = Occurs-insert_in a x (sort_in goes_before xs) (inl e)
  Occurs-sort_in a (x ∷ xs) (inr o) =
      Occurs-insert_in a x (sort_in goes_before xs) (inr (Occurs-sort_in a xs o))

  All-insert_in :
      (P : A → Type 0) (x : A) (xs : List A) → P x → All P xs → All P (insert_in goes_before x xs)
  unfolding insert_in
  All-insert_in P x [] p h = (p, tt)
  All-insert_in P x (y ∷ ys) p h = elim (Bool-cases (goes_before x y)) [
    | inl e ↦ rw e (p, h)
    | inr e ↦ rw e (h.0, All-insert_in P x ys p h.1)
  ]

  pub All-sort_in : (P : A → Type 0) (xs : List A) → All P xs → All P (sort_in goes_before xs)
  unfolding sort_in
  All-sort_in P [] h = tt
  All-sort_in P (x ∷ xs) h = All-insert_in P x (sort_in goes_before xs) h.0 (All-sort_in P xs h.1)

  -- The sorted list has no other elements.
  pub sort_in-Occurs : (a : A) (xs : List A) → Occurs a (sort_in goes_before xs) → Occurs a xs
  sort_in-Occurs a xs o =
      All-at (λ c. Occurs c xs) a (sort_in goes_before xs)
        (All-sort_in (λ c. Occurs c xs) xs (All-of (λ c. Occurs c xs) xs λ c k. k)) o

  length-insert_in : (x : A) (xs : List A) → length (insert_in goes_before x xs) ≡ suc (length xs)
  unfolding insert_in
  length-insert_in x [] = refl
  length-insert_in x (y ∷ ys) = elim (Bool-cases (goes_before x y)) [
    | inl e ↦ rw e refl
    | inr e ↦ rw e (ap suc (length-insert_in x ys))
  ]

  pub length-sort_in : (xs : List A) → length (sort_in goes_before xs) ≡ length xs
  unfolding sort_in
  length-sort_in [] = refl
  length-sort_in (x ∷ xs) = length-insert_in x (sort_in goes_before xs) ∙ ap suc (length-sort_in xs)

-- `sorted(texts)`.
abbrev pub sort_texts : List String → List String
sort_texts = sort_in text_leb

module _ {A : Type 0} (key : A → ℕ) where
  -- By a falling number.
  abbrev pub sort_desc : List A → List A
  sort_desc = sort_in (λ x y. leb (key y) (key x))

  abbrev pub Falls : List A → Type 0
  Falls = InOrder (λ x y. key y ≤ key x)

  pub sort_desc-Falls : (xs : List A) → Falls (sort_desc xs)
  sort_desc-Falls =
      sort_in-InOrder (λ x y. leb (key y) (key x)) (λ x y. key y ≤ key x) (λ x y e. ground arith)
        (λ x y e. ground arith)

module _ {A : Type 0} (score : A → Ratio) where
  -- By a falling score.
  abbrev pub sort_by : List A → List A
  sort_by = sort_in (λ x y. at_most (score y) (score x))

  abbrev pub ScoresFall : List A → Type 0
  ScoresFall = InOrder (λ x y. AtMost (score y) (score x))

  pub sort_by-ScoresFall : (xs : List A) → ScoresFall (sort_by xs)
  sort_by-ScoresFall =
      sort_in-InOrder (λ x y. at_most (score y) (score x)) (λ x y. AtMost (score y) (score x))
        (λ x y e. at_most-AtMost (score y) (score x) e)
        (λ x y e. at_most_other (score y) (score x) e)

  pub length-sort_by : (xs : List A) → length (sort_by xs) ≡ length xs
  length-sort_by xs = length-sort_in _ xs
