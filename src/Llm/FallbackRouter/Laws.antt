-- ===== src/Llm/FallbackRouter/Laws.antt =====
-- llm/providers/fallback_router.py: what a completion asks and answers.
use support_agent_platform.Shared.{
  ℕ, suc, String, ◌<>◌, ◌≡◌, refl, sym, ap, ◌∙◌, inl, inr, Bool, true, false, ◌||◌, Option, none,
  some, List, [], ◌∷◌, ◌++◌, ltb, if◌then◌else◌, Bool-cases,
}
use mathlib.Core.List.{Perm}
use support_agent_platform.Llm.FallbackRouter.{
  Answer, completed, raised, LlmProvider, Completion, result, exhausted, has_errors,
  ordered_providers, try_providers, complete,
}
use support_agent_platform.Llm.FallbackRouter.Preferences.{
  Prefers, ordered_providers-perm, ordered_providers-Prefers,
}

has_errors-append : (errors : List String) (e : String) → has_errors (errors ++ e ∷ []) ≡ true
has_errors-append [] e = refl
has_errors-append (x ∷ errors) e = refl

append_assoc : (xs ys zs : List String) → (xs ++ ys) ++ zs ≡ xs ++ (ys ++ zs)
append_assoc [] ys zs = refl
append_assoc (x ∷ xs) ys zs = ap (λ rest. x ∷ rest) (append_assoc xs ys zs)

or_true : (b : Bool) → (b || true) ≡ true
or_true true = refl
or_true false = refl

append_nil : (xs : List String) → xs ++ [] ≡ xs
append_nil [] = refl
append_nil (x ∷ xs) = ap (λ rest. x ∷ rest) (append_nil xs)

module _ {A : Type 0} where
  -- The specification: the first answer, a fallback's but for the first provider's, or all errors.
  unfoldable pub first_answer : Bool → List (LlmProvider A) → Option (A × Bool)
  first_answer fallback [] = none
  first_answer fallback (p ∷ providers) = elim p.answer [
    | completed a used ↦ some (a, fallback || used)
    | raised message ↦ first_answer true providers
  ]

  unfoldable pub all_errors : List (LlmProvider A) → List String
  all_errors [] = []
  all_errors (p ∷ providers) = elim p.answer [
    | completed a used ↦ all_errors providers
    | raised message ↦ (p.name <> ": " <> message) ∷ all_errors providers
  ]

  abbrev pub completion : List String → Option (A × Bool) → Completion A
  completion errors none = exhausted errors
  completion errors (some (a, fallback)) = result a fallback

  try_providers-first_answer :
      (index : ℕ) (errors : List String) (providers : List (LlmProvider A))
      → try_providers index errors providers
        ≡ completion
            (errors ++ all_errors providers)
            (first_answer (ltb 0 index || has_errors errors) providers)
  unfolding try_providers first_answer all_errors
  try_providers-first_answer index errors [] = ap exhausted (sym (append_nil errors))
  try_providers-first_answer index errors (p ∷ providers) =
      go p.answer (λ e. try_providers-first_answer (suc index) (errors ++ e ∷ []) providers)
    where
      go :
          (a : Answer A)
          → ((e : String)
              → try_providers (suc index) (errors ++ e ∷ []) providers
                ≡ completion
                    ((errors ++ e ∷ []) ++ all_errors providers)
                    (first_answer (ltb 0 (suc index) || has_errors (errors ++ e ∷ [])) providers))
          → (elim a as (λ _. Completion A) [
            | completed x used ↦ result x (if ltb 0 index || has_errors errors then true else used)
            | raised message ↦
                try_providers (suc index) (errors ++ (p.name <> ": " <> message) ∷ []) providers
          ])
            ≡ completion
                (errors ++ (elim a as (λ _. List String) [
                  | completed x used ↦ all_errors providers
                  | raised message ↦ (p.name <> ": " <> message) ∷ all_errors providers
                ]))
                (elim a as (λ _. Option (A × Bool)) [
                  | completed x used ↦ some (x, (ltb 0 index || has_errors errors) || used)
                  | raised message ↦ first_answer true providers
                ])
      go (completed x used) later = elim (Bool-cases (ltb 0 index || has_errors errors)) [
        | inl e ↦ rw e refl
        | inr e ↦ rw e refl
      ]
      go (raised message) later =
          let e = p.name <> ": " <> message in
          later e
          ∙ rw
              (
                append_assoc errors (e ∷ []) (all_errors providers),
                has_errors-append errors e,
                or_true (ltb 0 (suc index)),
              )
              refl

  -- A completion asks every provider once at most, in the order that the preference asks for: those of
  -- the preferred name first, and otherwise the order of the providers. It gives the first answer in
  -- that order, marked as a fallback's if an earlier provider failed, and with the answer's own mark
  -- otherwise; where none answers, it raises with the errors of all, in order.
  pub complete-first_answer :
      (preferred : Option String) (providers : List (LlmProvider A))
      → (ordered : List (LlmProvider A)) × (Perm ordered providers
          × (Prefers preferred providers ordered
              × (complete preferred providers
                  ≡ completion (all_errors ordered) (first_answer false ordered))))
  unfolding complete
  complete-first_answer preferred providers = (
    ordered_providers preferred providers,
    (
      ordered_providers-perm preferred providers,
      (
        ordered_providers-Prefers preferred providers,
        try_providers-first_answer 0 [] (ordered_providers preferred providers),
      ),
    ),
  )
