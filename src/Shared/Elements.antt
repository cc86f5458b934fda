-- ===== src/Shared/Elements.antt =====
-- What holds of every element of a list, and which elements it has.
use support_agent_platform.Shared.Tests.{
  ℕ, zero, suc, List, [], ◌∷◌, ◌++◌, ◌≡◌, refl, ap, ◌⊎◌, Bool, Bool-cases, inl, inr,
}
use support_agent_platform.Shared.Lists.{take, drop, select, length}

-- Every element has the property.
abbrev pub All : {A : Type 0} → (A → Type 0) → List A → Type 0
All P [] = Unit
All P (x ∷ xs) = P x × All P xs

-- The element is there, at some place.
abbrev pub Occurs : {A : Type 0} → A → List A → Type 0
Occurs a [] = ⊥
Occurs a (x ∷ xs) = (a ≡ x) ⊎ Occurs a xs

-- What is true of every element by its place is true of all.
pub All-of : {A : Type 0} (P : A → Type 0) (xs : List A) → ((a : A) → Occurs a xs → P a) → All P xs
All-of P [] h = tt
All-of P (x ∷ xs) h = (h x (inl refl), All-of P xs λ a o. h a (inr o))

pub All-at : {A : Type 0} (P : A → Type 0) (a : A) (xs : List A) → All P xs → Occurs a xs → P a
All-at P a [] h o = elim o [ ]
All-at P a (x ∷ xs) h (inl e) = rw e (h.0)
All-at P a (x ∷ xs) h (inr o) = All-at P a xs h.1 o

module _ {A : Type 0} (P : A → Type 0) where
  pub All-append : (xs ys : List A) → All P xs → All P ys → All P (xs ++ ys)
  All-append [] ys h k = k
  All-append (x ∷ xs) ys h k = (h.0, All-append xs ys h.1 k)

  pub All-take : (n : ℕ) (xs : List A) → All P xs → All P (take n xs)
  All-take zero xs h = tt
  All-take (suc n) [] h = tt
  All-take (suc n) (x ∷ xs) h = (h.0, All-take n xs h.1)

  pub All-drop : (n : ℕ) (xs : List A) → All P xs → All P (drop n xs)
  All-drop zero xs h = h
  All-drop (suc n) [] h = tt
  All-drop (suc n) (x ∷ xs) h = All-drop n xs h.1

  pub All-select : (f : A → Bool) (xs : List A) → All P xs → All P (select f xs)
  All-select f [] h = tt
  All-select f (x ∷ xs) h = elim (Bool-cases (f x)) [
    | inl e ↦ rw e (h.0, All-select f xs h.1)
    | inr e ↦ rw e (All-select f xs h.1)
  ]

module _ {A : Type 0} (a : A) where
  pub Occurs-left : (xs ys : List A) → Occurs a xs → Occurs a (xs ++ ys)
  Occurs-left [] ys o = elim o [ ]
  Occurs-left (x ∷ xs) ys (inl e) = inl e
  Occurs-left (x ∷ xs) ys (inr o) = inr (Occurs-left xs ys o)

  pub Occurs-right : (xs ys : List A) → Occurs a ys → Occurs a (xs ++ ys)
  Occurs-right [] ys o = o
  Occurs-right (x ∷ xs) ys o = inr (Occurs-right xs ys o)

  -- The first `n` hold it, or there are `n` of them.
  pub Occurs-take :
      (n : ℕ) (xs : List A) → Occurs a xs → (length (take n xs) ≡ n) ⊎ Occurs a (take n xs)
  Occurs-take zero xs o = inl refl
  Occurs-take (suc n) [] o = elim o [ ]
  Occurs-take (suc n) (x ∷ xs) (inl e) = inr (inl e)
  Occurs-take (suc n) (x ∷ xs) (inr o) = elim (Occurs-take n xs o) [
    | inl full ↦ inl (ap suc full)
    | inr there ↦ inr (inr there)
  ]
