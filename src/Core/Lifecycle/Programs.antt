-- ===== src/Core/Lifecycle/Programs.antt =====
-- Rules by which a program keeps to the lifecycle of tickets when its steps do.
use support_agent_platform.Shared.{
  refl, Bool, true, false, if◌then◌else◌, Error, Result, Exec, pure, raise, gets, lift, ◌>>◌,
}
use support_agent_platform.Storage.World.{World, now}
use support_agent_platform.Core.Lifecycle.{Keeps, Keeps-bind}
use support_agent_platform.Core.Lifecycle.Actions.{
  Keeps-frame, update_ticket-Keeps, append_event-Keeps,
}

pub pure-Keeps : {A : Type 0} (a : A) → Keeps (pure a)
pure-Keeps a = Keeps-frame (pure a) (λ w. refl)

-- `m` before `n`, whose results are not used together.
pub Keeps-then :
    {A B : Type 0} (m : Exec World A) (n : Exec World B) → Keeps m → Keeps n → Keeps (m >> n)
Keeps-then m n km kn = Keeps-bind m (λ _. n) km (λ _. kn)

-- What keeps to the lifecycle on every world, a case at a time.
pub Keeps-if :
    {A : Type 0} (b : Bool) (m n : Exec World A)
    → Keeps m
    → Keeps n
    → Keeps (λ w. if b then m w else n w)
Keeps-if true m n km kn = km
Keeps-if false m n km kn = kn

pub Keeps-either :
    {A : Type 0} (b : Bool) (m n : Exec World A) → Keeps m → Keeps n → Keeps (if b then m else n)
Keeps-either true m n km kn = km
Keeps-either false m n km kn = kn

pub Keeps-result : {A : Type 0} (r : Result A) → Keeps (lift r)
Keeps-result r = Keeps-frame (lift r) (λ w. refl)

pub Keeps-fails : {A : Type 0} (e : Error) → Keeps (raise {A = A} e)
Keeps-fails e = Keeps-frame (raise e) (λ w. refl)

pub Keeps-get : {A : Type 0} (f : World → A) → Keeps (gets f)
Keeps-get f = Keeps-frame (gets f) (λ w. refl)

pub Keeps-now : Keeps now
Keeps-now = Keeps-frame now (λ w. refl)

pub ruleset program_rules = (
  Keeps-bind, Keeps-then, Keeps-if, Keeps-either, Keeps-result, Keeps-fails, Keeps-get, Keeps-now,
  pure-Keeps, append_event-Keeps, update_ticket-Keeps,
)
