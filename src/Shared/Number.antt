-- ===== src/Shared/Number.antt =====
-- `str(n)` and `int(s)` for integers, and `str(x)` of a float without an exponent.
use Prim.Native.Char.{Char, code}
use Prim.Native.String.{[], ◌∷◌, ◌++◌}
use support_agent_platform.Shared.Tests.{
  ℕ, zero, suc, ◌+◌, ◌-◌, ◌*◌, ◌/◌, ◌%◌, ◌^◌, String, ◌≡◌, refl, Bool, Option, none, some, ◌&&◌,
  leb, ltb, eqb, if◌then◌else◌,
}
use support_agent_platform.Shared.Int.{ℤ, pos, negsuc, negated}
use support_agent_platform.Shared.Text.{strip}

-- The digit at a place of the text.
pick : String → ℕ → String
pick [] n = []
pick (c ∷ s) zero = c ∷ []
pick (c ∷ s) (suc n) = pick s n

digit : ℕ → String
unfolding pick
digit n = pick "0123456789" n

-- The digits of `n` before `rest`; `n` has fewer digits than the fuel.
emit : ℕ → ℕ → String → String
unfolding digit
emit zero n rest = rest
emit (suc fuel) n rest =
    let longer = emit fuel (n / 10) (digit (n % 10) ++ rest) in
    if ltb n 10 then digit n ++ rest else longer

-- `str(n)` for a natural number.
unfoldable pub str_ℕ : ℕ → String
unfolding emit
str_ℕ n = emit (n + 1) n ""

-- `str(z)`.
unfoldable pub str_ℤ : ℤ → String
unfolding str_ℕ
str_ℤ (pos n) = str_ℕ n
str_ℤ (negsuc n) = "-" ++ str_ℕ (n + 1)

-- The last `k` digits of `n`.
padded : ℕ → ℕ → String
unfolding digit
padded zero n = ""
padded (suc k) n = padded k (n / 10) ++ digit (n % 10)

-- `str(m / 10 ** k)`, with at least one digit on each side of the point.
unfoldable pub str_float : ℤ → ℕ → String
unfolding str_ℕ padded
str_float (pos m) zero = str_ℕ m ++ ".0"
str_float (pos m) (suc k) = str_ℕ (m / 10 ^ suc k) ++ "." ++ padded (suc k) m
str_float (negsuc m) zero = "-" ++ str_ℕ (m + 1) ++ ".0"
str_float (negsuc m) (suc k) = "-" ++ str_ℕ ((m + 1) / 10 ^ suc k) ++ "." ++ padded (suc k) (m + 1)

is_digit : Char → Bool
is_digit c = leb b'0' (code c) && leb (code c) b'9'

-- The rest of a number after at least one digit; one `_` may stand between two digits.
read_digits : ℕ → String → Option ℕ
unfolding is_digit
read_digits n [] = some n
read_digits n (c ∷ []) = if is_digit c then some (n * 10 + (code c - b'0')) else none
read_digits n (c ∷ d ∷ s) =
    let plain = read_digits (n * 10 + (code c - b'0')) (d ∷ s) in
    let after_bar = read_digits (n * 10 + (code d - b'0')) s in
    if is_digit c then plain else if eqb (code c) b'_' && is_digit d then after_bar else none

unsigned : String → Option ℕ
unfolding read_digits
unsigned [] = none
unsigned (c ∷ s) = if is_digit c then read_digits (code c - b'0') s else none

signed : String → Option ℤ
unfolding unsigned
signed [] = none
signed (c ∷ s) =
    if eqb (code c) b'-'
    then elim (unsigned s) [ none ↦ none | some n ↦ some (negated n) ]
    else if eqb (code c) b'+'
    then elim (unsigned s) [ none ↦ none | some n ↦ some (pos n) ]
    else elim (unsigned (c ∷ s)) [ none ↦ none | some n ↦ some (pos n) ]

-- `int(s)`; `none` is a `ValueError`.
unfoldable pub parse_int : String → Option ℤ
unfolding signed strip
parse_int s = signed (strip s)

parse_int_example : parse_int " -1_024 " ≡ some (negsuc 1023)
unfolding parse_int
parse_int_example = refl

str_float_example : str_float (negsuc 249) 2 ≡ "-2.50"
unfolding str_float
str_float_example = refl
