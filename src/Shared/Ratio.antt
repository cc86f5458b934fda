-- ===== src/Shared/Ratio.antt =====
-- Scores between fractions of numbers, which the program holds in floats; here they are exact.
use support_agent_platform.Shared.Tests.{
  ℕ, ◌+◌, ◌*◌, ◌/◌, ◌%◌, ◌≤◌, ◌≡◌, Bool, true, false, arith, leb, ltb, eqb, if◌then◌else◌,
}
use support_agent_platform.Shared.Int.{pos}
use support_agent_platform.Shared.Json.{Value, float}

pub record Ratio : Type 0 where
  pub num : ℕ
  pub den : ℕ

abbrev pub one : Ratio
one = record { num = 1; den = 1 }

abbrev pub nought : Ratio
nought = record { num = 0; den = 1 }

abbrev pub hundredths : ℕ → Ratio
hundredths n = record { num = n; den = 100 }

-- `r <= s`.
unfoldable pub at_most : Ratio → Ratio → Bool
at_most r s = leb (r.num * s.den) (s.num * r.den)

abbrev pub AtMost : Ratio → Ratio → Type 0
AtMost r s = r.num * s.den ≤ s.num * r.den

-- `max(r, s)` and `min(r, s)`, which keep the first of two that are equal.
unfoldable pub larger : Ratio → Ratio → Ratio
unfolding at_most
larger r s = if at_most s r then r else s

unfoldable pub smaller : Ratio → Ratio → Ratio
unfolding at_most
smaller r s = if at_most r s then r else s

-- `r += n / 100`.
unfoldable pub plus_hundredths : ℕ → Ratio → Ratio
plus_hundredths n r = record { num = r.num * 100 + n * r.den; den = r.den * 100 }

-- `r + s`, `r * n / 100`, and `r <= 0`.
unfoldable pub plus : Ratio → Ratio → Ratio
plus r s = record { num = r.num * s.den + s.num * r.den; den = r.den * s.den }

unfoldable pub percent : ℕ → Ratio → Ratio
percent n r = record { num = r.num * n; den = r.den * 100 }

abbrev pub is_nought : Ratio → Bool
is_nought r = eqb r.num 0

-- `round(r, 4)`: the nearest number of ten thousandths, and the even one of two.
unfoldable pub rounded : Ratio → Value
rounded r =
    let whole = r.num * 10000 / r.den in
    let twice = 2 * (r.num * 10000 % r.den) in
    float
      (pos (
        if ltb twice r.den
        then whole
        else if eqb twice r.den
        then whole + whole % 2
        else whole + 1))
      4

pub at_most-AtMost : (r s : Ratio) → at_most r s ≡ true → AtMost r s
unfolding at_most
at_most-AtMost r s h = ground arith

pub at_most_other : (r s : Ratio) → at_most r s ≡ false → AtMost s r
unfolding at_most
at_most_other r s h = ground arith

pub smaller-AtMost : (r s : Ratio) → AtMost (smaller r s) r
unfolding smaller at_most
smaller-AtMost r s = ground arith

pub AtMost-at_most : (r s : Ratio) → AtMost r s → at_most r s ≡ true
unfolding at_most
AtMost-at_most r s h = ground arith
