-- ===== src/Shared/Text.antt =====
-- Python's `str` methods that the program calls, over the native texts. `lower` and `upper` map the
-- ASCII letters and leave every other character; `strip` knows all of Python's white space.
use Prim.Native.Char.{Char, code}
use Prim.Native.Nat.{Ordering}
use Prim.Native.String
use Prim.Native.String.{[], ◌∷◌}
use support_agent_platform.Shared.Tests.{
  ℕ, zero, suc, String, ◌≡◌, refl, Option, none, some, Bool, true, false, ◌&&◌, ◌||◌, ◌==◌, leb,
  eqb, if◌then◌else◌,
}

-- `c.isspace()` for one character.
unfoldable pub is_space : ℕ → Bool
is_space c =
    (leb 9 c && leb c 13)
    || (leb 28 c && leb c 32)
    || eqb c 133
    || eqb c 160
    || eqb c 5760
    || (leb 8192 c && leb c 8202)
    || eqb c 8232
    || eqb c 8233
    || eqb c 8239
    || eqb c 8287
    || eqb c 12288

unfoldable pub lstrip : String → String
unfolding is_space
lstrip [] = []
lstrip (c ∷ s) = let rest = lstrip s in if is_space (code c) then rest else c ∷ s

unfoldable pub rstrip : String → String
unfolding is_space
rstrip [] = []
rstrip (c ∷ s) = let rest = rstrip s in if is_space (code c) && rest == "" then [] else c ∷ rest

-- `s.strip()`.
unfoldable pub strip : String → String
unfolding lstrip rstrip
strip s = rstrip (lstrip s)

-- The letters of the second text, each for the one of the first at the same place.
translate : String → String → Char → Char
translate [] to c = c
translate from [] c = c
translate (a ∷ from) (b ∷ to) c =
    let rest = translate from to c in if eqb (code a) (code c) then b else rest

abbrev upper_letters : String
upper_letters = "ABCDEFGHIJKLMNOPQRSTUVWXYZ"

abbrev lower_letters : String
lower_letters = "abcdefghijklmnopqrstuvwxyz"

-- `s.lower()`.
unfoldable pub lower : String → String
unfolding translate
lower [] = []
lower (c ∷ s) = translate upper_letters lower_letters c ∷ lower s

-- `s.upper()`.
unfoldable pub upper : String → String
unfolding translate
upper [] = []
upper (c ∷ s) = translate lower_letters upper_letters c ∷ upper s

-- `s[:n]`.
unfoldable pub prefix : ℕ → String → String
prefix zero s = []
prefix (suc n) [] = []
prefix (suc n) (c ∷ s) = c ∷ prefix n s

-- `t.startswith(s)`.
unfoldable pub begins_with : String → String → Bool
begins_with [] t = true
begins_with (c ∷ s) [] = false
begins_with (c ∷ s) (d ∷ t) = eqb (code c) (code d) && begins_with s t

-- `needle in s`.
unfoldable pub occurs_in : String → String → Bool
unfolding begins_with
occurs_in needle [] = needle == ""
occurs_in needle (c ∷ s) = begins_with needle (c ∷ s) || occurs_in needle s

-- `s <= t`, by code points.
abbrev pub text_leb : String → String → Bool
text_leb s t = elim (Prim.Native.String.compare s t) [ Ordering.gt ↦ false | _ ↦ true ]

-- `s or none`: an empty text counts as false.
abbrev pub is_empty : String → Bool
is_empty s = s == ""

stripped_example : strip "  Resolved \n" ≡ "Resolved"
unfolding strip
stripped_example = refl

lower_example : lower "Resolved 已解决" ≡ "resolved 已解决"
unfolding lower
lower_example = refl

occurs_in_example : occurs_in "rate_limit" "http_rate_limit_429" ≡ true
unfolding occurs_in
occurs_in_example = refl

-- `len(s)`, `s[n:]` and `s.find(needle)`, which is none where Python gives -1.
unfoldable pub text_length : String → ℕ
text_length [] = 0
text_length (c ∷ s) = suc (text_length s)

unfoldable pub drop_text : ℕ → String → String
drop_text zero s = s
drop_text (suc n) [] = []
drop_text (suc n) (c ∷ s) = drop_text n s

abbrev pub one_later : Option ℕ → Option ℕ
one_later none = none
one_later (some n) = some (suc n)

unfoldable pub find_text : String → String → Option ℕ
unfolding begins_with
find_text needle [] = if needle == "" then some 0 else none
find_text needle (c ∷ s) =
    let later = one_later (find_text needle s) in
    if begins_with needle (c ∷ s) then some 0 else later
