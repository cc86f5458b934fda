-- ===== src/Core/Duplicates/Tokens.antt =====
-- core/duplicate_merge/detector.py: the tokens of a text, and how much two sets of them overlap.
use support_agent_platform.Shared.{
  ℕ, suc, String, ◌<>◌, ◌≡◌, refl, Bool, false, ◌&&◌, ◌||◌, List, [], ◌∷◌, ◌++◌, leb, if◌then◌else◌,
  length, contains,
}
use Prim.Native.Char.{Char, code}
use Prim.Native.String.{[], ◌∷◌}
use support_agent_platform.Shared.Tests.{
  ℕ, suc, String, ◌<>◌, Bool, false, ◌&&◌, ◌||◌, List, ◌++◌, leb, if◌then◌else◌, ◌≡◌, refl,
}
use support_agent_platform.Shared.Lists.{contains, length, distinct}
use support_agent_platform.Shared.Text.{lower}
use support_agent_platform.Shared.Words.{join, join_words}
use support_agent_platform.Shared.Ratio.{Ratio, nought}
use support_agent_platform.Storage.Models.{Ticket}

-- A character of `_TOKEN_RE`.
unfoldable pub is_token_char : ℕ → Bool
is_token_char c =
    (leb 97 c && leb c 122)
    || (leb 65 c && leb c 90)
    || (leb 48 c && leb c 57)
    || (leb 19968 c && leb c 40959)

-- Whether a token goes on at the start of the text.
abbrev goes_on : String → Bool
goes_on [] = false
goes_on (c ∷ s) = is_token_char (code c)

abbrev longer : Char → List String → List String
longer c List.[] = List.◌∷◌ (c ∷ []) List.[]
longer c (List.◌∷◌ w ws) = List.◌∷◌ (c ∷ w) ws

-- `_TOKEN_RE.findall(text)`: the longest runs of such characters.
unfoldable pub tokens : String → List String
unfolding is_token_char
tokens [] = List.[]
tokens (c ∷ s) =
    let rest = tokens s in
    if is_token_char (code c)
    then if goes_on s then longer c rest else List.◌∷◌ (c ∷ []) rest
    else rest

-- `_text_blob`.
unfoldable pub text_blob : Ticket → String
unfolding tokens lower join
text_blob t = join_words (tokens (lower (t.title <> " " <> t.latest_message)))

-- `len(left & right)`, of a list without repetitions and another.
unfoldable pub common : List String → List String → ℕ
common List.[] right = 0
common (List.◌∷◌ s left) right =
    let rest = common left right in if contains right s then suc rest else rest

-- `_token_jaccard`, on the tokens; no tokens on a side is no overlap.
unfoldable pub overlap : List String → List String → Ratio
unfolding distinct common
overlap List.[] right = nought
overlap left List.[] = nought
overlap left right = record {
  num = common (distinct left) right;
  den = length (distinct (left ++ right));
}

unfoldable pub token_jaccard : String → String → Ratio
unfolding tokens overlap
token_jaccard left right = overlap (tokens left) (tokens right)

tokens_example : tokens "VPN-2 无法连接!" ≡ List.◌∷◌ "VPN" (List.◌∷◌ "2" (List.◌∷◌ "无法连接" List.[]))
unfolding tokens is_token_char
tokens_example = refl
