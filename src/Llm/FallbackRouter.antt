-- ===== src/Llm/FallbackRouter.antt =====
-- llm/providers/fallback_router.py: `ProviderFallbackRouter.complete`. A provider is an interface, so
-- what it answers to the prompt at hand, or raises, is a parameter.
pub mod Preferences
pub mod Laws
use support_agent_platform.Shared.{
  ℕ, suc, String, ◌<>◌, Bool, true, false, not, ◌||◌, Option, none, some, List, [], ◌∷◌, ◌++◌, ◌==◌,
  ltb, if◌then◌else◌, select, Result, ok, err, value_error,
}
use support_agent_platform.Shared.Elements.{All}
use mathlib.Core.List.{Perm}
use mathlib.Core.List.Perm

-- A completion with its own `fallback_used`, or the text of an exception.
pub data Answer (A : Type 0) : Type 0 where
  completed : A → Bool → Answer A
  raised : String → Answer A

pub record LlmProvider (A : Type 0) : Type 0 where
  pub name : String
  pub answer : Answer A

-- A result, with whether a fallback was used; or the errors of `ProviderExhaustedError`.
pub data Completion (A : Type 0) : Type 0 where
  result : A → Bool → Completion A
  exhausted : List String → Completion A

abbrev pub has_errors : List String → Bool
has_errors [] = false
has_errors (e ∷ errors) = true

module _ {A : Type 0} where
  -- The constructor: there must be a provider.
  unfoldable pub new_router : List (LlmProvider A) → Result (List (LlmProvider A))
  new_router [] = err (value_error "At least one provider is required")
  new_router (p ∷ providers) = ok (p ∷ providers)

  -- `_ordered_providers`; an empty name is no preference.
  unfoldable pub ordered_providers : Option String → List (LlmProvider A) → List (LlmProvider A)
  ordered_providers none providers = providers
  ordered_providers (some preferred) providers =
      if preferred == ""
      then providers
      else select (λ p. p.name == preferred) providers
        ++ select (λ p. not (p.name == preferred)) providers

  -- The loop, from an index on, with the errors so far.
  unfoldable pub try_providers : ℕ → List String → List (LlmProvider A) → Completion A
  try_providers index errors [] = exhausted errors
  try_providers index errors (p ∷ providers) = elim p.answer [
    | completed a used ↦ result a (if ltb 0 index || has_errors errors then true else used)
    | raised message ↦
        try_providers (suc index) (errors ++ (p.name <> ": " <> message) ∷ []) providers
  ]

  unfoldable pub complete : Option String → List (LlmProvider A) → Completion A
  unfolding ordered_providers try_providers
  complete preferred providers = try_providers 0 [] (ordered_providers preferred providers)
