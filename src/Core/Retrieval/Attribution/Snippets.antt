-- ===== src/Core/Retrieval/Attribution/Snippets.antt =====
-- core/retrieval/source_attribution.py: what a snippet shows.
use support_agent_platform.Shared.{
  ℕ, zero, suc, ◌+◌, ◌-◌, ◌/◌, ◌≤◌, String, ◌≡◌, refl, ap, subst, inl, inr, Bool, true, false,
  false≢true, Option, none, some, [], ◌∷◌, arith, ◌==◌, eq_iff, leb, if◌then◌else◌, Bool-cases,
}
use Prim.Native.Char.{Char}
use Prim.Native.String.{[], ◌∷◌}
use support_agent_platform.Shared.Tests.{
  ℕ, zero, suc, ◌+◌, ◌-◌, ◌/◌, ◌≤◌, String, ◌≡◌, refl, Bool, true, false, Option, none, some, arith,
  leb, ◌==◌, eq_iff, Bool-cases, inl, inr, if◌then◌else◌, ap, subst, false≢true,
}
use support_agent_platform.Shared.Text.{
  lower, prefix, begins_with, occurs_in, text_length, drop_text, find_text, one_later,
}
use support_agent_platform.Core.Retrieval.Attribution.{window}

pub text_length-prefix : (n : ℕ) (s : String) → text_length (prefix n s) ≤ n
unfolding text_length prefix
text_length-prefix zero s = omega arith
text_length-prefix (suc n) [] = omega arith
text_length-prefix (suc n) (c ∷ s) = omega (arith, text_length-prefix n s)

-- A prefix of a lower-case text, and what is left.
lower-prefix : (n : ℕ) (s : String) → lower (prefix n s) ≡ prefix n (lower s)
unfolding lower prefix
lower-prefix zero s = refl
lower-prefix (suc n) [] = refl
lower-prefix (suc n) (c ∷ s) = cc (lower-prefix n s)

lower-drop_text : (n : ℕ) (s : String) → lower (drop_text n s) ≡ drop_text n (lower s)
unfolding lower drop_text
lower-drop_text zero s = refl
lower-drop_text (suc n) [] = refl
lower-drop_text (suc n) (c ∷ s) = lower-drop_text n s

text_length-lower : (s : String) → text_length (lower s) ≡ text_length s
unfolding lower text_length
text_length-lower [] = refl
text_length-lower (c ∷ s) = ap suc (text_length-lower s)

-- A text that begins with a needle still does when it is cut behind the needle.
begins_with-prefix :
    (needle s : String) (n : ℕ)
    → begins_with needle s ≡ true
    → text_length needle ≤ n
    → begins_with needle (prefix n s) ≡ true
unfolding begins_with prefix text_length
begins_with-prefix [] s n h k = refl
begins_with-prefix (c ∷ needle) [] n h k = absurd (false≢true h)
begins_with-prefix (c ∷ needle) (d ∷ s) zero h k = absurd (omega (arith, k))
begins_with-prefix (c ∷ needle) (d ∷ s) (suc n) h k = ground (arith, begins_with-prefix needle s n)

begins_here_or_later :
    (needle s : String) (c : Char) (n : ℕ) (o : Option ℕ) (b : Bool)
    → ((m : ℕ) → o ≡ some m → begins_with needle (drop_text m s) ≡ true)
    → begins_with needle (c ∷ s) ≡ b
    → (if b then some 0 else one_later o) ≡ some n
    → begins_with needle (drop_text n (c ∷ s)) ≡ true
unfolding drop_text
begins_here_or_later needle s c zero o true later e h = e
begins_here_or_later needle s c (suc n) o true later e h = absurd (ground (arith, h))
begins_here_or_later needle s c n none false later e h = absurd (ground (arith, h))
begins_here_or_later needle s c zero (some m) false later e h = absurd (ground (arith, h))
begins_here_or_later needle s c (suc n) (some m) false later e h = later n (ground (arith, h))

-- Where `find` finds the needle, it is.
find_text-begins :
    (needle s : String) (n : ℕ)
    → find_text needle s ≡ some n
    → begins_with needle (drop_text n s) ≡ true
unfolding find_text drop_text begins_with text_length
find_text-begins [] [] zero h = refl
find_text-begins [] [] (suc n) h = refl
find_text-begins (d ∷ needle) [] n h = elim (Bool-cases ((d ∷ needle) == "")) [
  | inl e ↦ absurd (omega (arith, ap text_length ((eq_iff (d ∷ needle) "").0 e)))
  | inr e ↦ ground arith
]
find_text-begins needle (c ∷ s) n h =
    begins_here_or_later needle s c n (find_text needle s) (begins_with needle (c ∷ s))
      (find_text-begins needle s) refl h

pub begins_with-occurs_in :
    (needle s : String) → begins_with needle s ≡ true → occurs_in needle s ≡ true
unfolding begins_with occurs_in
begins_with-occurs_in [] [] h = ground arith
begins_with-occurs_in (c ∷ needle) [] h = absurd (false≢true h)
begins_with-occurs_in needle (c ∷ s) h = ground arith

-- A needle that begins some way into a text occurs in a prefix that reaches its end.
occurs_in-prefix :
    (needle s : String) (k n : ℕ)
    → begins_with needle (drop_text k s) ≡ true
    → k + text_length needle ≤ n
    → occurs_in needle (prefix n s) ≡ true
unfolding drop_text prefix occurs_in
occurs_in-prefix needle s zero n h le =
    begins_with-occurs_in needle (prefix n s) (begins_with-prefix needle s n h (omega (arith, le)))
occurs_in-prefix needle [] (suc k) zero h le = begins_with-occurs_in needle [] h
occurs_in-prefix needle [] (suc k) (suc n) h le = begins_with-occurs_in needle [] h
occurs_in-prefix needle (c ∷ s) (suc k) zero h le = absurd (omega (arith, le))
occurs_in-prefix needle (c ∷ s) (suc k) (suc n) h le =
    ground (arith, occurs_in-prefix needle s k n h (omega (arith, le)))

less_zero : (i : ℕ) → i ≡ i - 0
less_zero i = omega arith

less_suc : (i j : ℕ) → i - j ≡ suc i - suc j
less_suc i j = omega arith

pub drop_text_nil : (n : ℕ) → drop_text n "" ≡ ""
unfolding drop_text
drop_text_nil zero = refl
drop_text_nil (suc n) = refl

-- A text that begins far into another begins as far into what is left of it.
begins_with-drop_text :
    (needle s : String) (j i : ℕ)
    → j ≤ i
    → begins_with needle (drop_text i s) ≡ true
    → begins_with needle (drop_text (i - j) (drop_text j s)) ≡ true
unfolding drop_text
begins_with-drop_text needle s zero i le h =
    subst (λ n. begins_with needle (drop_text n s) ≡ true) (less_zero i) h
begins_with-drop_text needle s (suc j) zero le h = absurd (omega (arith, le))
begins_with-drop_text needle [] (suc j) (suc i) le h = rw (drop_text_nil (suc i - suc j)) h
begins_with-drop_text needle (c ∷ s) (suc j) (suc i) le h =
    subst (λ n. begins_with needle (drop_text n (drop_text j s)) ≡ true) (less_suc i j)
      (begins_with-drop_text needle s j i (omega (arith, le)) h)

-- The needle is no longer than what it begins.
begins_with-text_length :
    (needle s : String) → begins_with needle s ≡ true → text_length needle ≤ text_length s
unfolding begins_with text_length
begins_with-text_length [] s h = omega arith
begins_with-text_length (c ∷ needle) [] h = absurd (false≢true h)
begins_with-text_length (c ∷ needle) (d ∷ s) h = ground (arith, begins_with-text_length needle s)

text_length-drop_text : (n : ℕ) (s : String) → text_length (drop_text n s) ≡ text_length s - n
unfolding text_length drop_text
text_length-drop_text zero s = omega arith
text_length-drop_text (suc n) [] = omega arith
text_length-drop_text (suc n) (c ∷ s) = omega (arith, text_length-drop_text n s)

place_bounded :
    (s : String) (n : ℕ) (o : Option ℕ) (b : Bool)
    → ((m : ℕ) → o ≡ some m → m ≤ text_length s)
    → (if b then some 0 else one_later o) ≡ some n
    → n ≤ suc (text_length s)
place_bounded s zero o b later h = omega arith
place_bounded s (suc n) o true later h = absurd (ground (arith, h))
place_bounded s (suc n) none false later h = absurd (ground (arith, h))
place_bounded s (suc n) (some m) false later h = omega (arith, later n (ground (arith, h)))

find_text-bounded : (needle s : String) (n : ℕ) → find_text needle s ≡ some n → n ≤ text_length s
unfolding find_text text_length
find_text-bounded needle [] n h = elim (Bool-cases (needle == "")) [
  | inl e ↦ ground arith
  | inr e ↦ ground arith
]
find_text-bounded needle (c ∷ s) n h =
    place_bounded s n (find_text needle s) (begins_with needle (c ∷ s)) (find_text-bounded needle s)
      h

-- A window around a place holds the needle that begins there, if it is no longer than two thirds of
-- the window.
pub window-needle :
    (needle s : String) (i : ℕ)
    → find_text needle (lower s) ≡ some i
    → text_length needle ≤ 48
    → occurs_in needle (lower (window s 72 i)) ≡ true
unfolding window
window-needle needle s i found short =
    let start = i - 72 / 3 in
    let stop = if leb (text_length s) (start + 72) then text_length s else start + 72 in
    let low = lower s in
    let begins = find_text-begins needle low i found in
    rw (lower-prefix (stop - start) (drop_text start s), lower-drop_text start s)
      (occurs_in-prefix needle (drop_text start low) (i - start) (stop - start)
        (begins_with-drop_text needle low start i (omega arith) begins)
        (ground (
          arith,
          begins_with-text_length needle (drop_text i low) begins,
          text_length-drop_text i low,
          text_length-lower s,
          find_text-bounded needle low i found,
        )))

pub window-short : (s : String) (size i : ℕ) → text_length (window s size i) ≤ size
unfolding window
window-short s size i = ground (
  arith,
  text_length-prefix
      ((if leb (text_length s) (i - size / 3 + size) then text_length s else i - size / 3 + size)
        - (i - size / 3))
      (drop_text (i - size / 3) s),
)
