-- ===== src/Shared/Str.antt =====
-- `str(value)` of a JSON value, the defaults `str(value or default)`, and `int(value)`.
use Prim.Native.Char.{code}
use Prim.Native.String.{◌++◌}
use support_agent_platform.Shared.Tests.{
  ℕ, ◌+◌, ◌/◌, ◌^◌, String, ◌≡◌, refl, true, false, not, ◌&&◌, Option, none, some, List, [], ◌∷◌,
  eqb, ◌==◌, if◌then◌else◌,
}
use support_agent_platform.Shared.Int.{ℤ, pos, negsuc, negated}
use support_agent_platform.Shared.Text.{occurs_in, strip}
use support_agent_platform.Shared.Number.{str_ℤ, str_float, parse_int}
use support_agent_platform.Shared.Json.{
  Value, Items, Dict, null, bool, int, float, text, arr, obj, nil, cons, end, entry, truthy,
}
use support_agent_platform.Shared.Effects.{Result, ok, err, value_error, type_error}

-- The characters of a quoted text; control characters other than these three stay as they are.
escape : ℕ → String → String
escape quote String.[] = String.[]
escape quote (String.◌∷◌ c s) =
    let rest = escape quote s in
    if eqb (code c) 92
    then "\\\\" ++ rest
    else if eqb (code c) quote
    then "\\" ++ String.◌∷◌ c rest
    else if eqb (code c) 10
    then "\\n" ++ rest
    else if eqb (code c) 13
    then "\\r" ++ rest
    else if eqb (code c) 9
    then "\\t" ++ rest
    else String.◌∷◌ c rest

quoted : String → String
unfolding escape occurs_in
quoted s =
    if occurs_in "'" s && not (occurs_in "\"" s)
    then "\"" ++ escape 34 s ++ "\""
    else "'" ++ escape 39 s ++ "'"

mutual
  unfolding str_ℤ str_float quoted

  -- `repr(value)`.
  repr : Value → String
  repr null = "None"
  repr (bool true) = "True"
  repr (bool false) = "False"
  repr (int z) = str_ℤ z
  repr (float m k) = str_float m k
  repr (text s) = quoted s
  repr (arr items) = "[" ++ repr_items items ++ "]"
  repr (obj d) = "{" ++ repr_dict d ++ "}"

  repr_items : Items → String
  repr_items nil = ""
  repr_items (cons v nil) = repr v
  repr_items (cons v (cons w items)) = repr v ++ ", " ++ repr_items (cons w items)

  repr_dict : Dict → String
  repr_dict end = ""
  repr_dict (entry k v end) = quoted k ++ ": " ++ repr v
  repr_dict (entry k v (entry j w d)) =
      quoted k ++ ": " ++ repr v ++ ", " ++ repr_dict (entry j w d)

-- `str(value)`.
unfoldable pub str : Value → String
unfolding repr
str (text s) = s
str v = repr v

-- `str(d.get(key) or default)`.
unfoldable pub str_or : Option Value → String → String
unfolding str truthy
str_or none default = default
str_or (some v) default = if truthy v then str v else default

-- `None if raw is None else (str(raw).strip() or None)`.
unfoldable pub optional_str : Option Value → Option String
unfolding str strip
optional_str none = none
optional_str (some null) = none
optional_str (some v) = let s = strip (str v) in if s == "" then none else some s

-- The integer part of m / 10 ^ k, towards zero.
truncate : ℤ → ℕ → ℤ
truncate (pos m) k = pos (m / 10 ^ k)
truncate (negsuc m) k = negated ((m + 1) / 10 ^ k)

-- `int(value)`.
unfoldable pub int_of : Value → Result ℤ
unfolding truncate parse_int
int_of (bool true) = ok (pos 1)
int_of (bool false) = ok (pos 0)
int_of (int z) = ok z
int_of (float m k) = ok (truncate m k)
int_of (text s) = elim (parse_int s) [
  | none ↦ err (value_error ("invalid literal for int() with base 10: " ++ s))
  | some z ↦ ok z
]
int_of _ = err (type_error "int() argument must be a string, a bytes-like object or a real number")

-- `[str(item) for item in items if str(item).strip()]`.
unfoldable pub nonblank_texts : List Value → List String
unfolding str strip
nonblank_texts [] = []
nonblank_texts (v ∷ values) =
    let rest = nonblank_texts values in if strip (str v) == "" then rest else str v ∷ rest

-- `[dict(item) for item in items if isinstance(item, dict)]`.
unfoldable pub dicts : List Value → List Value
dicts [] = []
dicts (obj d ∷ values) = obj d ∷ dicts values
dicts (_ ∷ values) = dicts values

-- A text that may be None.
abbrev pub of_option : Option String → Value
of_option none = null
of_option (some s) = text s

str_example :
    str (arr (cons (text "it's") (cons null (cons (int (negsuc 4)) nil)))) ≡ "[\"it's\", None, -5]"
unfolding str
str_example = refl
