-- ===== src/Core/ToolRouter/Checks.antt =====
-- core/tool_router.py: the checks of fields, one after the other.
use support_agent_platform.Shared.{
  String, ◌≡◌, refl, sym, ap, subst, Bool, true, false, false≢true, List, [], ◌∷◌, arith, ◌==◌,
  if◌then◌else◌, test_of_ne, ==_refl, contains, Dict, Error, Result, ok, err, Exec, lift, proceed,
  ◌>>=◌,
}
use support_agent_platform.Storage.World.{World}
use support_agent_platform.Core.ToolRouter.{require_str, require_all}

-- What the check of one of the fields says is raised, in the world as it was.
abbrev pub Refused : {A : Type 0} → List String → Dict → World → Result A × World → Type 0
Refused fields args w outcome =
    (field : String) × ((contains fields field ≡ true)
      × ((e : Error) × ((require_str field args ≡ err e) × (outcome ≡ (err e, w)))))

abbrev pub Refuses : {A : Type 0} → List String → Dict → Exec World A → World → Type 0
Refuses fields args m w = Refused fields args w (m w)

-- A field that fails is not one of those that passed.
passed_others :
    (args : Dict) (f field s : String) (e : Error)
    → require_str field args ≡ err e
    → require_str f args ≡ ok s
    → (f == field) ≡ false
passed_others args f field s e fails passes =
    test_of_ne f field λ same. false≢true (cc (fails, passes, same))

module _ {A : Type 0} (fields : List String) (args : Dict) (w : World) where
  -- A check that comes first: where it passes, the rest refuses.
  checked :
      (field : String) (k : String → Exec World A)
      → contains fields field ≡ true
      → ((s : String) → require_str field args ≡ ok s → Refuses fields args (k s) w)
      → Refuses fields args (lift (require_str field args) >>= k) w
  checked field k among rest = by_check (require_str field args) refl
    where
      by_check :
          (r : Result String)
          → require_str field args ≡ r
          → Refuses fields args (lift (require_str field args) >>= k) w
      by_check (ok s) e = subst (λ r. Refuses fields args (lift r >>= k) w) (sym e) (rest s e)
      by_check (err x) e = (field, (among, (x, (e, ap (λ r. proceed r k w) e))))

  module _ (field : String) (e : Error) (fails : require_str field args ≡ err e) where
    pub after_one :
        (f : String) (k : String → Exec World A)
        → fields ≡ f ∷ []
        → contains fields field ≡ true
        → Refuses fields args (lift (require_str f args) >>= k) w
    after_one f k same among = checked f k (rw same (ground (arith, ==_refl f))) λ a ha.
        absurd (false≢true (ground (arith, passed_others args f field a e fails ha, same, among)))

    pub after_two :
        (f g : String) (k : String → String → Exec World A)
        → fields ≡ f ∷ g ∷ []
        → contains fields field ≡ true
        → Refuses fields args
            (lift (require_str f args) >>= λ a. lift (require_str g args) >>= λ b. k a b)
            w
    after_two f g k same among = checked f _ (rw same (ground (arith, ==_refl f))) λ a ha.
        checked g _ (rw same (ground (arith, ==_refl g))) λ b hb. absurd (
          false≢true (
            ground (
              arith,
              passed_others args f field a e fails ha,
              passed_others args g field b e fails hb,
              same,
              among,
            )))

    pub after_three :
        (f g h : String) (k : String → String → String → Exec World A)
        → fields ≡ f ∷ g ∷ h ∷ []
        → contains fields field ≡ true
        → Refuses fields args
            (lift (require_str f args) >>= λ a.
              lift (require_str g args) >>= λ b. lift (require_str h args) >>= λ c. k a b c)
            w
    after_three f g h k same among = checked f _ (rw same (ground (arith, ==_refl f))) λ a ha.
        checked g _ (rw same (ground (arith, ==_refl g))) λ b hb.
          checked h _ (rw same (ground (arith, ==_refl h))) λ c hc. absurd (
            false≢true (
              ground (
                arith,
                passed_others args f field a e fails ha,
                passed_others args g field b e fails hb,
                passed_others args h field c e fails hc,
                same,
                among,
              )))

-- The loop over the fields stops at one of them.
abbrev pub Stops : List String → Dict → Type 0
Stops fields args =
    (field : String) × ((contains fields field ≡ true)
      × ((e : Error) × ((require_str field args ≡ err e) × (require_all fields args ≡ err e))))

Stops-later :
    (f : String) (fields : List String) (args : Dict) (s : String)
    → require_str f args ≡ ok s
    → Stops fields args
    → Stops (f ∷ fields) args
unfolding require_all
Stops-later f fields args s passes (g, (among, (x, (fails, rest)))) =
    (g, (ground (arith, among), (x, (fails, rw (passes, require_all) rest))))

Stops-first :
    (f : String) (fields : List String) (args : Dict) (r : Result String)
    → require_str f args ≡ r
    → ((s : String) → require_str f args ≡ ok s → Stops fields args)
    → Stops (f ∷ fields) args
unfolding require_all
Stops-first f fields args (err x) h later =
    (f, (ground (arith, ==_refl f), (x, (h, rw (h, require_all) refl))))
Stops-first f fields args (ok s) h later = Stops-later f fields args s h (later s h)

pub all_refuse :
    (fields : List String) (args : Dict) (field : String) (e : Error)
    → contains fields field ≡ true
    → require_str field args ≡ err e
    → Stops fields args
all_refuse [] args field e among fails = absurd (false≢true among)
all_refuse (f ∷ fields) args field e among fails =
    Stops-first f fields args (require_str f args) refl λ s h.
      all_refuse fields args field e (ground (arith, passed_others args f field s e fails h, among))
        fails

-- A refusal is a refusal of what goes on from there.
pub Refuses-bind :
    {A B : Type 0} (fields : List String) (args : Dict) (w : World) (m : Exec World A)
    (k : A → Exec World B)
    → Refuses fields args m w
    → Refuses fields args (m >>= k) w
Refuses-bind fields args w m k (f, (among, (x, (fails, same)))) =
    (f, (among, (x, (fails, ap (λ (r : Result _ × World). proceed r.0 k r.1) same))))

pub Refused-if :
    {A : Type 0} (fields : List String) (args : Dict) (w : World) (b : Bool)
    (p q : Result A × World)
    → (b ≡ true → Refused fields args w p)
    → (b ≡ false → Refused fields args w q)
    → Refused fields args w (if b then p else q)
Refused-if fields args w true p q yes_ no_ = yes_ refl
Refused-if fields args w false p q yes_ no_ = no_ refl
