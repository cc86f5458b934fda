-- ===== src/Shared/Yields.antt =====
-- What a program leaves: a relation between the states before and after, whether it returns or
-- raises, and a predicate on what it returns.
use support_agent_platform.Shared.Effects.{
  Error, Result, ok, err, Exec, pure, raise, proceed, ◌>>=◌, ◌>>◌,
}

abbrev pub OnOk : {A : Type 0} → (A → Type 0) → Result A → Type 0
OnOk Q (ok a) = Q a
OnOk Q (err e) = Unit

abbrev pub Anything : {A : Type 0} → A → Type 0
Anything a = Unit

module _ {S : Type 0} (P : S → S → Type 0) (same : (s : S) → P s s)
    (trans : (s t u : S) → P s t → P t u → P s u) where
  pub record Yields {A : Type 0} (Q : A → Type 0) (m : Exec S A) : Type 0 where
    pub state : (s : S) → P s (m s).1
    pub result : (s : S) → OnOk Q (m s).0

  pub Yields-bind :
      {A B : Type 0} {Q : A → Type 0} {R : B → Type 0} (m : Exec S A) (f : A → Exec S B)
      → Yields Q m
      → ((a : A) → Q a → Yields R (f a))
      → Yields R (m >>= f)
  Yields-bind {A} {B} {Q} {R} m f ym yf = record {
    state = λ s. after s (m s).0 (m s).1 (ym.state s) (ym.result s);
    result = λ s. returns (m s).0 (m s).1 (ym.result s);
  }
    where
      after : (s : S) (r : Result A) (t : S) → P s t → OnOk Q r → P s (proceed r f t).1
      after s (ok a) t h q = trans s t _ h ((yf a q).state t)
      after s (err e) t h q = h

      returns : (r : Result A) (t : S) → OnOk Q r → OnOk R (proceed r f t).0
      returns (ok a) t q = (yf a q).result t
      returns (err e) t q = tt

  pub Yields-then :
      {A B : Type 0} {R : B → Type 0} (m : Exec S A) (n : Exec S B)
      → Yields Anything m
      → Yields R n
      → Yields R (m >> n)
  Yields-then m n ym yn = Yields-bind m (λ _. n) ym (λ _ _. yn)

  pub Yields-pure : {A : Type 0} {Q : A → Type 0} (a : A) → Q a → Yields Q (pure a)
  Yields-pure a q = record { state = λ s. same s; result = λ s. q }

  pub Yields-raise : {A : Type 0} {Q : A → Type 0} (e : Error) → Yields {A = A} Q (raise e)
  Yields-raise e = record { state = λ s. same s; result = λ s. tt }
