-- ===== src/Shared/Effects.antt =====
-- Methods that change the stored world and may raise. What was written before an exception stays
-- written: the state comes back beside an error too.
use support_agent_platform.Shared.Tests.{String, Bool}
use support_agent_platform.Shared.Json.{Dict}

pub record ChannelAdapterError : Type 0 where
  pub channel : String
  pub code : String
  pub message : String
  pub retryable : Bool
  pub context : Dict

-- The exception classes that the program raises, with their messages.
pub data Error : Type 0 where
  key_error value_error runtime_error integrity_error type_error attribute_error : String → Error
  adapter_error : ChannelAdapterError → Error

pub data Result {ℓ} (A : Type ℓ) : Type ℓ where
  ok : A → Result A
  err : Error → Result A

abbrev pub Exec {ℓ} : Type ℓ → Type ℓ → Type ℓ
Exec S A = S → Result A × S

module _ {ℓ} {S A : Type ℓ} where
  abbrev pub pure : A → Exec S A
  pure a s = (ok a, s)

  abbrev pub raise : Error → Exec S A
  raise e s = (err e, s)

  abbrev pub gets : (S → A) → Exec S A
  gets f s = (ok (f s), s)

  -- The result of a function that may raise and changes nothing.
  abbrev pub lift : Result A → Exec S A
  lift r s = (r, s)

module _ {ℓ} {S A B : Type ℓ} where
  abbrev pub proceed : Result A → (A → Exec S B) → Exec S B
  proceed (ok a) f s = f a s
  proceed (err e) f s = (err e, s)

  infixl 5 ◌>>=◌ ◌>>◌
  abbrev pub ◌>>=◌ : Exec S A → (A → Exec S B) → Exec S B
  ◌>>=◌ m f s = let (r, s') = m s in proceed r f s'

  abbrev pub ◌>>◌ : Exec S A → Exec S B → Exec S B
  m >> n = m >>= λ _. n
