-- ===== src/Shared/Words.antt =====
-- `s.split()` and `" ".join(words)`, over the white space of Text.
use Prim.Native.Char.{Char, code}
use Prim.Native.String.{[], ◌∷◌, ◌++◌}
use text.Mathlib.TextLemmas.{nil-append, cons-append}
use support_agent_platform.Shared.Tests.{
  String, eqb, ◌≡◌, refl, sym, ap, ◌∙◌, Bool, true, false, not, ◌&&◌, List, if◌then◌else◌,
  Bool-cases, inl, inr, arith, ◌==◌, eq_iff,
}
use support_agent_platform.Shared.Text.{is_space, rstrip}

-- Whether no word goes on at the start of the text.
abbrev starts_blank : String → Bool
starts_blank [] = true
starts_blank (c ∷ s) = is_space (code c)

-- One more character at the start of the first word.
abbrev grow : Char → List String → List String
grow c List.[] = List.◌∷◌ (c ∷ []) List.[]
grow c (List.◌∷◌ w ws) = List.◌∷◌ (c ∷ w) ws

-- `s.split(",")`.
unfoldable pub split_comma : String → List String
split_comma [] = List.◌∷◌ "" List.[]
split_comma (c ∷ s) =
    let rest = split_comma s in if eqb (code c) 44 then List.◌∷◌ "" rest else grow c rest

-- `s.split()`.
unfoldable pub split : String → List String
split [] = List.[]
split (c ∷ s) =
    let rest = split s in
    if is_space (code c)
    then rest
    else if starts_blank s
    then List.◌∷◌ (c ∷ []) rest
    else grow c rest

-- `separator.join(texts)`.
unfoldable pub join : String → List String → String
join separator List.[] = ""
join separator (List.◌∷◌ s List.[]) = s
join separator (List.◌∷◌ s (List.◌∷◌ r texts)) = s ++ separator ++ join separator (List.◌∷◌ r texts)

abbrev pub join_words : List String → String
join_words = join " "

-- A text that is one word: it is not empty, and has no white space.
abbrev pub is_word : String → Bool
is_word [] = false
is_word (c ∷ []) = not (is_space (code c))
is_word (c ∷ d ∷ s) = not (is_space (code c)) && is_word (d ∷ s)

abbrev pub AllWords : List String → Type 0
AllWords List.[] = Unit
AllWords (List.◌∷◌ w ws) = (is_word w ≡ true) × AllWords ws

blank-space : is_space (code " ") ≡ true
unfolding is_space
blank-space = refl

abbrev IsWord : String → Type 0
IsWord w = is_word w ≡ true

-- The first character of a longer word joins the word that follows.
split-grow :
    (c d : Char) (w : String)
    → IsWord (c ∷ d ∷ w)
    → (split (c ∷ d ∷ w) ≡ grow c (split (d ∷ w))) × IsWord (d ∷ w)
unfolding split
split-grow c d w h = elim (Bool-cases (is_space (code c))) [
  | inl e ↦ absurd (ground arith)
  | inr e ↦ elim (Bool-cases (is_space (code d))) [
    | inl e' ↦ absurd (first_blank d w e' (ground arith))
    | inr e' ↦ (rw (e, e') refl, ground arith)
  ]
]
  where
    first_blank : (d : Char) (w : String) → is_space (code d) ≡ true → IsWord (d ∷ w) → ⊥
    first_blank d [] e k = ground arith
    first_blank d (c ∷ w) e k = ground arith

split_blank : (t : String) → split (" " ++ t) ≡ split t
unfolding split is_space
split_blank t = rw (cons-append " " "" t, nil-append t) refl

last_of_word : (c : Char) → IsWord (c ∷ []) → is_space (code c) ≡ false
last_of_word c h = ground arith

starts_space : (t : String) → starts_blank (" " ++ t) ≡ true
unfolding is_space
starts_space t = rw (cons-append " " "" t) refl

before_blank :
    (c : Char) (t : String)
    → IsWord (c ∷ [])
    → split ((c ∷ []) ++ " " ++ t) ≡ List.◌∷◌ (c ∷ []) (split t)
unfolding split
before_blank c t h =
    rw
      (
        cons-append c "" (" " ++ t),
        nil-append (" " ++ t),
        last_of_word c h,
        starts_space t,
        split_blank t,
      )
      refl

starts_word : (d : Char) (w t : String) → IsWord (d ∷ w) → starts_blank ((d ∷ w) ++ t) ≡ false
starts_word d [] t h = rw (cons-append d "" t) (last_of_word d h)
starts_word d (c ∷ w) t h = rw (cons-append d (c ∷ w) t) (ground arith)

longer :
    (c d : Char) (w t : String)
    → IsWord (c ∷ d ∷ w)
    → split ((d ∷ w) ++ " " ++ t) ≡ List.◌∷◌ (d ∷ w) (split t)
    → split ((c ∷ d ∷ w) ++ " " ++ t) ≡ List.◌∷◌ (c ∷ d ∷ w) (split t)
unfolding split
longer c d w t h e = elim (Bool-cases (is_space (code c))) [
  | inl e' ↦ absurd (ground arith)
  | inr e' ↦
      let k = (split-grow c d w h).1 in
      rw (cons-append c (d ∷ w) (" " ++ t), e', starts_word d w (" " ++ t) k, e) refl
]

-- A word before white space is split off.
split-word : (w t : String) → IsWord w → split (w ++ " " ++ t) ≡ List.◌∷◌ w (split t)
split-word [] t h = cc
split-word (c ∷ []) t h = before_blank c t h
split-word (c ∷ d ∷ w) t h = longer c d w t h (split-word (d ∷ w) t (split-grow c d w h).1)

split_nil : split [] ≡ List.[]
unfolding split
split_nil = refl

split_letter : (c : Char) → IsWord (c ∷ []) → split (c ∷ []) ≡ List.◌∷◌ (c ∷ []) List.[]
unfolding split
split_letter c h = rw (last_of_word c h) refl

split_one : (w : String) → IsWord w → split w ≡ List.◌∷◌ w List.[]
split_one [] h = cc
split_one (c ∷ []) h = split_letter c h
split_one (c ∷ d ∷ w) h =
    let (joins, rest) = split-grow c d w h in joins ∙ ap (grow c) (split_one (d ∷ w) rest)

-- Words that are joined are split again.
pub split-join_words : (ws : List String) → AllWords ws → split (join_words ws) ≡ ws
unfolding join
split-join_words List.[] h = split_nil
split-join_words (List.◌∷◌ w List.[]) h = split_one w h.0
split-join_words (List.◌∷◌ w (List.◌∷◌ v ws)) h =
    rw (split-word w (join_words (List.◌∷◌ v ws)) h.0)
      (ap (List.◌∷◌ w) (split-join_words (List.◌∷◌ v ws) h.1))

rstrip_cons :
    (c : Char) (s : String)
    → rstrip (c ∷ s) ≡ (if is_space (code c) && rstrip s == "" then [] else c ∷ rstrip s)
unfolding rstrip
rstrip_cons c s = refl

split-blank : (c : Char) (s : String) → is_space (code c) ≡ true → split (c ∷ s) ≡ split s
unfolding split
split-blank c s e = rw e refl

split_after :
    (c : Char) (s : String)
    → split (rstrip s) ≡ split s
    → starts_blank (rstrip s) ≡ starts_blank s
    → split (c ∷ rstrip s) ≡ split (c ∷ s)
unfolding split
split_after c s e k = rw (e, k) refl

rstrip_nil : rstrip [] ≡ []
unfolding rstrip
rstrip_nil = refl

starts_blank-rstrip : (s : String) → starts_blank (rstrip s) ≡ starts_blank s
starts_blank-rstrip [] = rw rstrip_nil refl
starts_blank-rstrip (c ∷ s) = rw (rstrip_cons c s) (kept c s)
  where
    kept :
        (c : Char) (s : String)
        → starts_blank (if is_space (code c) && rstrip s == "" then [] else c ∷ rstrip s)
          ≡ is_space (code c)
    kept c s = elim (Bool-cases (is_space (code c))) [
      | inr e ↦ rw e e
      | inl e ↦ elim (Bool-cases (rstrip s == "")) [
        | inl e' ↦ rw (e, e') refl
        | inr e' ↦ rw (e, e') e
      ]
    ]

-- White space at the end is no word.
pub split-rstrip : (s : String) → split (rstrip s) ≡ split s
split-rstrip [] = rw rstrip_nil refl
split-rstrip (c ∷ s) = elim (Bool-cases (is_space (code c))) [
  | inr e ↦ rw (rstrip_cons c s, e) (split_after c s (split-rstrip s) (starts_blank-rstrip s))
  | inl e ↦ elim (Bool-cases (rstrip s == "")) [
    | inl e' ↦
        rw (rstrip_cons c s, e, e', split-blank c s e)
          (ap split (sym ((eq_iff (rstrip s) "").0 e')) ∙ split-rstrip s)
    | inr e' ↦
        rw (rstrip_cons c s, e, e', split-blank c s e, split-blank c (rstrip s) e) (split-rstrip s)
  ]
]
