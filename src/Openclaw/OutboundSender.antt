-- ===== src/Openclaw/OutboundSender.antt =====
-- openclaw_adapter/outbound_sender.py: the loop of `OutboundSender.send`. The adapter is an interface,
-- so what its n-th rendering of the envelope gives is a parameter; the trace log is left out.
use support_agent_platform.Shared.{
  ℕ, zero, suc, ◌+◌, ◌≤◌, ◌<◌, String, ◌≡◌, refl, ◌⊎◌, inl, inr, Option, none, some, arith, ltb,
  if◌then◌else◌, Bool-cases, ℤ, pos, negsuc, Dict, int, end, entry, ChannelAdapterError,
}
use support_agent_platform.Openclaw.RetryManager
use support_agent_platform.Openclaw.RetryManager.{
  Classification, temporary, permanent, classify, is_temporary,
}

-- `adapter.build_outbound(outbound)`: a payload, a channel's error, or any other exception.
pub data Rendering : Type 0 where
  rendered : Dict → Rendering
  refused : ChannelAdapterError → Rendering
  crashed : String → Rendering

-- How a call ends, after so many renderings; `unreachable` is the error below the loop.
pub data Outcome : Type 0 where
  delivered : Dict → ℕ → Outcome
  failed : ChannelAdapterError → ℕ → Outcome
  unreachable : Outcome

-- The error of a rendering; another exception is wrapped.
unfoldable pub wrapped : String → ℕ → ℕ → String → ChannelAdapterError
wrapped channel attempt max_attempts message = record {
  channel = channel;
  code = "outbound_render_failed";
  message = message;
  retryable = ltb attempt max_attempts;
  context = entry "attempt" (int (pos attempt)) end;
}

module _ (channel : String) (render : ℕ → Rendering) where
  -- What follows a failed attempt: the rest of the loop, or the error.
  unfoldable pub after_failure : ChannelAdapterError → ℕ → ℕ → Outcome → Outcome
  after_failure e attempt max_attempts rest =
      if (RetryManager.decide e attempt max_attempts).should_retry then rest else failed e attempt

  -- `for attempt in range(max_attempts)`, by the attempts that are left.
  unfoldable pub attempts : ℕ → ℕ → ℕ → Outcome
  unfolding after_failure wrapped
  attempts zero attempt max_attempts = unreachable
  attempts (suc left) attempt max_attempts =
      let rest = attempts left (suc attempt) max_attempts in
      elim (render attempt) [
        | rendered payload ↦ delivered payload attempt
        | refused e ↦ after_failure e attempt max_attempts rest
        | crashed message ↦
            after_failure (wrapped channel attempt max_attempts message) attempt max_attempts rest
      ]

  -- `send`; with a negative number of retries there is no attempt.
  unfoldable pub send : ℤ → Outcome
  unfolding attempts
  send (pos retries) = attempts (retries + 1) 1 (retries + 1)
  send (negsuc n) = unreachable

  -- The error of an attempt, where it fails.
  abbrev pub error_at : ℕ → ℕ → Option ChannelAdapterError
  error_at max_attempts attempt = elim (render attempt) [
    | rendered payload ↦ none
    | refused e ↦ some e
    | crashed message ↦ some (wrapped channel attempt max_attempts message)
  ]

  -- What the loop promises from an attempt on.
  pub data Sends (max_attempts : ℕ) : ℕ → Outcome → Type 0 where
    delivers :
        {attempt : ℕ} {payload : Dict}
        → attempt ≤ max_attempts
        → render attempt ≡ rendered payload
        → Sends max_attempts attempt (delivered payload attempt)
    tries_again :
        {attempt : ℕ} {e : ChannelAdapterError} {o : Outcome}
        → attempt < max_attempts
        → error_at max_attempts attempt ≡ some e
        → classify e ≡ temporary
        → Sends max_attempts (suc attempt) o
        → Sends max_attempts attempt o
    gives_up :
        {attempt : ℕ} {e : ChannelAdapterError}
        → attempt ≤ max_attempts
        → error_at max_attempts attempt ≡ some e
        → (classify e ≡ permanent) ⊎ (attempt ≡ max_attempts)
        → Sends max_attempts attempt (failed e attempt)

  classified : (e : ChannelAdapterError) → (classify e ≡ temporary) ⊎ (classify e ≡ permanent)
  classified e = cases (classify e)
    where
      cases : (c : Classification) → (c ≡ temporary) ⊎ (c ≡ permanent)
      cases temporary = inl refl
      cases permanent = inr refl

  fails :
      (max_attempts attempt : ℕ) (e : ChannelAdapterError) (rest : Outcome)
      → attempt ≤ max_attempts
      → error_at max_attempts attempt ≡ some e
      → (attempt < max_attempts → Sends max_attempts (suc attempt) rest)
      → Sends max_attempts attempt (after_failure e attempt max_attempts rest)
  unfolding after_failure RetryManager.decide
  fails max_attempts attempt e rest h err_e go = elim (classified e) [
    | inr permanent_e ↦ rw permanent_e (gives_up h err_e (inl permanent_e))
    | inl temporary_e ↦ elim (Bool-cases (ltb attempt max_attempts)) [
      | inl more ↦
          rw (temporary_e, more) (tries_again (ground arith) err_e temporary_e (go (ground arith)))
      | inr last_one ↦ rw (temporary_e, last_one) (gives_up h err_e (inr (ground arith)))
    ]
  ]

  Rendering-cases :
      (r : Rendering)
      → ((payload : Dict) × (r ≡ rendered payload))
        ⊎ (((e : ChannelAdapterError) × (r ≡ refused e))
            ⊎ ((message : String) × (r ≡ crashed message)))
  Rendering-cases (rendered payload) = inl (payload, refl)
  Rendering-cases (refused e) = inr (inl (e, refl))
  Rendering-cases (crashed message) = inr (inr (message, refl))

  attempts-Sends :
      (left attempt max_attempts : ℕ)
      → 0 < left
      → left + attempt ≡ suc max_attempts
      → Sends max_attempts attempt (attempts left attempt max_attempts)
  unfolding attempts
  attempts-Sends zero attempt max_attempts h k = absurd (omega arith)
  attempts-Sends (suc left) attempt max_attempts h k =
      let rest = attempts left (suc attempt) max_attempts in
      let go = λ (more : attempt < max_attempts).
        attempts-Sends left (suc attempt) max_attempts (omega arith) (omega arith) in
      elim (Rendering-cases (render attempt)) [
        | inl (payload, e) ↦ rw (attempts, e) (delivers (omega arith) e)
        | inr (inl (e, r)) ↦
            rw (attempts, r)
              (fails max_attempts attempt e rest (omega arith) (rw (error_at, r) refl) go)
        | inr (inr (message, r)) ↦
            rw (attempts, r)
              (fails max_attempts attempt (wrapped channel attempt max_attempts message) rest
                (omega arith) (rw (error_at, r) refl) go)
      ]

  -- Sending with a number of retries that is not negative ends within one more attempt than the
  -- retries, and never below the loop: it delivers the
  -- first rendering that succeeds; it tries again exactly after a temporary failure with an attempt
  -- left; and it gives up with the error of a permanent failure, or of the last attempt.
  pub send-Sends : (retries : ℕ) → Sends (retries + 1) 1 (send (pos retries))
  unfolding send
  send-Sends retries = attempts-Sends (retries + 1) 1 (retries + 1) (omega arith) (omega arith)
