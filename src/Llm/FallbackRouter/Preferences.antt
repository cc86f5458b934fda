-- ===== src/Llm/FallbackRouter/Preferences.antt =====
-- llm/providers/fallback_router.py: the order of the providers under a preference.
use support_agent_platform.Shared.{
  String, ◌≡◌, refl, sym, ap, subst, ◌≢◌, ◌⊎◌, inl, inr, Bool, true, not, Option, none, some, List,
  [], ◌∷◌, ◌++◌, arith, ◌==◌, eq_iff, Bool-cases, ne_of_test, select,
}
use support_agent_platform.Shared.Elements.{All}
use mathlib.Core.List.{Perm}
use mathlib.Core.List.Perm
use support_agent_platform.Llm.FallbackRouter.{LlmProvider, ordered_providers}

is_blank : (name : String) → name == "" ≡ true → name ≡ ""
is_blank name e = ground (arith, eq_iff name "")

same_name : (m n : String) → some m ≡ some n → m ≡ n
same_name m n e = cc

module _ {A : Type 0} where
  perm_middle :
      (x : LlmProvider A) (xs ys : List (LlmProvider A)) → Perm (xs ++ x ∷ ys) (x ∷ (xs ++ ys))
  perm_middle x [] ys = Perm.refl (x ∷ ys)
  perm_middle x (y ∷ xs) ys =
      Perm.trans (Perm.cons y (perm_middle x xs ys)) (Perm.swap x y (xs ++ ys))

  select-perm :
      (f : LlmProvider A → Bool) (ps : List (LlmProvider A))
      → Perm (select f ps ++ select (λ p. not (f p)) ps) ps
  select-perm f [] = Perm.refl []
  select-perm f (p ∷ ps) = elim (Bool-cases (f p)) [
    | inl e ↦ rw e (Perm.cons p (select-perm f ps))
    | inr e ↦ rw e (
        Perm.trans (perm_middle p (select f ps) (select (λ q. not (f q)) ps))
          (Perm.cons p (select-perm f ps)))
  ]

  pub ordered_providers-perm :
      (preferred : Option String) (providers : List (LlmProvider A))
      → Perm (ordered_providers preferred providers) providers
  unfolding ordered_providers
  ordered_providers-perm none providers = Perm.refl providers
  ordered_providers-perm (some preferred) providers = elim (Bool-cases (preferred == "")) [
    | inl e ↦ rw e (Perm.refl providers)
    | inr e ↦ rw e (select-perm (λ p. p.name == preferred) providers)
  ]

  -- The order that a preference asks for: none, or an empty name, leaves the order; otherwise those
  -- of that name come first, the others after them, each group in its order.
  pub record Prefers (preferred : Option String) (providers ordered : List (LlmProvider A))
      : Type 0 where
    pub as_given : (preferred ≡ none) ⊎ (preferred ≡ some "") → ordered ≡ providers
    pub grouped :
        (name : String)
        → preferred ≡ some name
        → name ≢ ""
        → (first_ones : List (LlmProvider A)) × ((others : List (LlmProvider A)) × ((ordered
                ≡ first_ones ++ others)
              × (All (λ p. p.name ≡ name) first_ones × All (λ p. p.name ≢ name) others)))
    pub in_order :
        (name : String)
        → preferred ≡ some name
        → (select (λ p. p.name == name) ordered ≡ select (λ p. p.name == name) providers)
          × (select (λ p. not (p.name == name)) ordered
              ≡ select (λ p. not (p.name == name)) providers)

  All-named :
      (name : String) (ps : List (LlmProvider A))
      → All (λ p. p.name ≡ name) (select (λ p. p.name == name) ps)
  All-named name [] = tt
  All-named name (p ∷ ps) = elim (Bool-cases (p.name == name)) [
    | inl e ↦ rw e (ground (arith, eq_iff p.name name), All-named name ps)
    | inr e ↦ rw e (All-named name ps)
  ]

  All-others :
      (name : String) (ps : List (LlmProvider A))
      → All (λ p. p.name ≢ name) (select (λ p. not (p.name == name)) ps)
  All-others name [] = tt
  All-others name (p ∷ ps) = elim (Bool-cases (p.name == name)) [
    | inl e ↦ rw e (All-others name ps)
    | inr e ↦ rw e (ne_of_test p.name name e, All-others name ps)
  ]

  module _ (f : LlmProvider A → Bool) where
    select-front :
        (ps qs : List (LlmProvider A))
        → (select f (select f ps ++ select (λ p. not (f p)) qs) ≡ select f ps)
          × (select (λ p. not (f p)) (select f ps ++ select (λ p. not (f p)) qs)
              ≡ select (λ p. not (f p)) qs)
    select-front [] [] = (refl, refl)
    select-front [] (q ∷ qs) = elim (Bool-cases (f q)) [
      | inl e ↦ rw e (select-front [] qs)
      | inr e ↦ let rest = select-front [] qs in rw (e, e) (rest.0, ap (λ xs. q ∷ xs) rest.1)
    ]
    select-front (p ∷ ps) qs = elim (Bool-cases (f p)) [
      | inl e ↦ let rest = select-front ps qs in rw (e, e) (ap (λ xs. p ∷ xs) rest.0, rest.1)
      | inr e ↦ rw e (select-front ps qs)
    ]

  named_first :
      (name : String) (providers : List (LlmProvider A))
      → name ≢ ""
      → Prefers
          (some name)
          providers
          (select (λ p. p.name == name) providers ++ select (λ p. not (p.name == name)) providers)
  named_first name providers given = record {
    as_given = λ h. elim h [ inl e ↦ cc | inr e ↦ absurd (given (same_name name "" e)) ];
    grouped = λ n e _.
        subst
          (λ m.
            (first_ones : List (LlmProvider A)) × ((others : List (LlmProvider A)) × ((select
                      (λ p. p.name == name) providers
                    ++ select (λ p. not (p.name == name)) providers
                  ≡ first_ones ++ others)
                × (All (λ p. p.name ≡ m) first_ones × All (λ p. p.name ≢ m) others))))
          (same_name name n e)
          (
            select (λ p. p.name == name) providers,
            (
              select (λ p. not (p.name == name)) providers,
              (refl, (All-named name providers, All-others name providers)),
            ),
          );
    in_order = λ n e.
        subst
          (λ m.
            (select (λ p. p.name == m)
                (select (λ p. p.name == name) providers
                  ++ select (λ p. not (p.name == name)) providers)
              ≡ select (λ p. p.name == m) providers)
            × (select (λ p. not (p.name == m))
                  (select (λ p. p.name == name) providers
                    ++ select (λ p. not (p.name == name)) providers)
                ≡ select (λ p. not (p.name == m)) providers))
          (same_name name n e) (select-front (λ p. p.name == name) providers providers);
  }

  kept_order : (providers : List (LlmProvider A)) → Prefers (some "") providers providers
  kept_order providers = record {
    as_given = λ h. refl;
    grouped = λ name e given. absurd (given (sym (same_name "" name e)));
    in_order = λ name e. (refl, refl);
  }

  pub ordered_providers-Prefers :
      (preferred : Option String) (providers : List (LlmProvider A))
      → Prefers preferred providers (ordered_providers preferred providers)
  unfolding ordered_providers
  ordered_providers-Prefers none providers = record {
    as_given = λ h. refl;
    grouped = λ name e. cc;
    in_order = λ name e. (refl, refl);
  }
  ordered_providers-Prefers (some name) providers = elim (Bool-cases (name == "")) [
    | inl e ↦ rw e (
        subst (λ n. Prefers (some n) providers providers) (sym (is_blank name e))
          (kept_order providers))
    | inr e ↦ rw e (named_first name providers (ne_of_test name "" e))
  ]
