-- ===== src/Tests/Completions.antt =====
-- Two providers, of which the preferred one fails.
use support_agent_platform.Shared.{String, ◌≡◌, refl, true, false, some, List, [], ◌∷◌}
use mathlib.Core.List.{Perm}
use support_agent_platform.Llm.FallbackRouter.{LlmProvider, completed, raised, result, complete}
use support_agent_platform.Llm.FallbackRouter.Preferences.{Prefers}
use support_agent_platform.Llm.FallbackRouter.Laws.{
  completion, first_answer, all_errors, complete-first_answer,
}

abbrev providers : List (LlmProvider String)
providers =
    record { name = "openai"; answer = completed "hello" false }
    ∷ record { name = "local"; answer = raised "down" }
    ∷ []

fallen_back : complete (some "local") providers ≡ result "hello" true
unfolding complete
fallen_back = refl

complete-first_answer_example :
    (ordered : List (LlmProvider String)) × (Perm ordered providers
      × (Prefers (some "local") providers ordered
          × (complete (some "local") providers
              ≡ completion (all_errors ordered) (first_answer false ordered))))
complete-first_answer_example = complete-first_answer (some "local") providers
