-- ===== src/Openclaw/RetryManager.antt =====
-- openclaw_adapter/retry_manager.py: which failures of a channel are tried again.
use support_agent_platform.Shared.{
  ℕ, String, Bool, true, false, not, ◌&&◌, List, [], ◌∷◌, ltb, if◌then◌else◌, some_of,
  ChannelAdapterError,
}
use support_agent_platform.Shared.Text.{lower, occurs_in}

pub data Classification : Type 0 where
  temporary permanent : Classification

pub record RetryDecision : Type 0 where
  pub attempt : ℕ
  pub max_attempts : ℕ
  pub classification : Classification
  pub should_retry : Bool
  pub exhausted : Bool
  pub error_code : String
  pub error_message : String

abbrev temporary_error_codes : List String
temporary_error_codes = "timeout" ∷ "temporary" ∷ "network" ∷ "rate_limit" ∷ "busy" ∷ []

-- `_classify`.
unfoldable pub classify : ChannelAdapterError → Classification
unfolding lower occurs_in
classify e =
    let code = lower e.code in
    if e.retryable
    then temporary
    else if some_of (λ fragment. occurs_in fragment code) temporary_error_codes
    then temporary
    else permanent

abbrev pub is_temporary : Classification → Bool
is_temporary temporary = true
is_temporary permanent = false

unfoldable pub decide : ChannelAdapterError → ℕ → ℕ → RetryDecision
unfolding classify
decide e attempt max_attempts =
    let should_retry = is_temporary (classify e) && ltb attempt max_attempts in
    record {
      attempt = attempt;
      max_attempts = max_attempts;
      classification = classify e;
      should_retry = should_retry;
      exhausted = not should_retry;
      error_code = e.code;
      error_message = e.message;
    }
