-- ===== src/Core/Retrieval/Attribution/Shown.antt =====
-- core/retrieval/source_attribution.py: the snippet of a document.
use support_agent_platform.Shared.{
  ℕ, zero, suc, ◌-◌, ◌/◌, ◌≤◌, String, ◌≡◌, refl, sym, ap, ◌∙◌, inl, inr, Bool, true, ◌&&◌, ◌||◌,
  none, some, List, [], ◌∷◌, ◌++◌, arith, ◌==◌, eq_iff, ltb, leb, Bool-cases,
}
use Prim.Native.Char.{code}
use Prim.Native.String.{[], ◌∷◌}
use support_agent_platform.Shared.Tests.{
  Bool, ltb, leb, ◌||◌, ◌&&◌, ℕ, zero, suc, ◌-◌, ◌/◌, ◌≤◌, String, ◌≡◌, refl, true, none, some,
  List, ◌++◌, arith, ◌==◌, eq_iff, Bool-cases, inl, inr, sym, ap, ◌∙◌,
}
use support_agent_platform.Shared.Elements.{All}
use support_agent_platform.Shared.Text.{
  strip, lower, prefix, begins_with, occurs_in, text_length, drop_text, find_text,
}
use support_agent_platform.Core.Retrieval.Attribution.{window, snippet_at, snippet}
use support_agent_platform.Core.Retrieval.Attribution.Snippets.{
  window-needle, window-short, begins_with-occurs_in, drop_text_nil,
}

prefix-begins : (n : ℕ) (s : String) → begins_with (prefix n s) s ≡ true
unfolding begins_with prefix
prefix-begins zero s = refl
prefix-begins (suc n) [] = refl
prefix-begins (suc n) (c ∷ s) = ground (arith, prefix-begins n s)

-- What begins in what is left of a text occurs in it.
occurs_in-drop_text :
    (needle s : String) (n : ℕ)
    → begins_with needle (drop_text n s) ≡ true
    → occurs_in needle s ≡ true
unfolding drop_text occurs_in
occurs_in-drop_text needle s zero h = begins_with-occurs_in needle s h
occurs_in-drop_text needle [] (suc n) h = begins_with-occurs_in needle [] h
occurs_in-drop_text needle (c ∷ s) (suc n) h = ground (arith, occurs_in-drop_text needle s n h)

window-part : (s : String) (size i : ℕ) → occurs_in (window s size i) s ≡ true
unfolding window
window-part s size i =
    occurs_in-drop_text _ s (i - size / 3) (prefix-begins _ (drop_text (i - size / 3) s))

window_of_empty : (size i : ℕ) → window "" size i ≡ ""
unfolding window prefix
window_of_empty size i = rw (drop_text_nil (i - size / 3)) (prefix_nil _)
  where
    prefix_nil : (n : ℕ) → prefix n "" ≡ ""
    prefix_nil zero = refl
    prefix_nil (suc n) = refl

-- The first term that is found decides.
snippet_at-first :
    (s : String) (size i : ℕ) (before after : List String) (term : String)
    → All (λ t. find_text t (lower s) ≡ none) before
    → find_text term (lower s) ≡ some i
    → snippet_at s size (before ++ List.◌∷◌ term after) ≡ window s size i
unfolding snippet_at
snippet_at-first s size i List.[] after term missing found = rw (found, snippet_at) refl
snippet_at-first s size i (List.◌∷◌ t before) after term missing found =
    rw (missing.0, snippet_at) (snippet_at-first s size i before after term missing.1 found)

snippet_first :
    (content : String) (i : ℕ) (before after : List String) (term : String)
    → All (λ t. find_text t (lower (strip content)) ≡ none) before
    → find_text term (lower (strip content)) ≡ some i
    → snippet content (before ++ List.◌∷◌ term after) ≡ window (strip content) 72 i
unfolding snippet
snippet_first content i before after term missing found = elim (Bool-cases (strip content == "")) [
  | inl e ↦
      rw e (sym (ap (λ s. window s 72 i) ((eq_iff (strip content) "").0 e) ∙ window_of_empty 72 i))
  | inr e ↦ rw e (snippet_at-first (strip content) 72 i before after term missing found)
]

-- Every character is of ASCII, or of the blocks from the CJK radicals to Yi, which have no case: the
-- lower case of such a text is as long as the text.
abbrev pub is_plain : String → Bool
is_plain [] = true
is_plain (c ∷ s) = (ltb (code c) 128 || (leb 11904 (code c) && leb (code c) 42191)) && is_plain s

-- What a snippet shows of a content whose characters are all of ASCII or CJK, when some term of the
-- query occurs in the content, stripped and in lower case: at most 72 characters, which are a part of the content as they are; and the first such
-- term is among them, in lower case, if it has no more than 48 characters.
pub snippet_shows :
    (content : String) (i : ℕ) (before after : List String) (term : String)
    → is_plain content ≡ true
    → All (λ t. find_text t (lower (strip content)) ≡ none) before
    → find_text term (lower (strip content)) ≡ some i
    → text_length term ≤ 48
    → let shown = snippet content (before ++ List.◌∷◌ term after) in
      (text_length shown ≤ 72)
      × ((occurs_in shown (strip content) ≡ true) × (occurs_in term (lower shown) ≡ true))
snippet_shows content i before after term plain missing found short =
    rw (snippet_first content i before after term missing found) (
      window-short (strip content) 72 i,
      (window-part (strip content) 72 i, window-needle term (strip content) i found short),
    )
