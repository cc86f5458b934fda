-- ===== src/Core/Retrieval/Terms.antt =====
-- The terms of a query, as core/retriever.py, core/retrieval/reranker.py and
-- core/retrieval/source_attribution.py read them.
use Prim.Native.Char.{code}
use Prim.Native.String.{[], ◌∷◌}
use support_agent_platform.Shared.Tests.{ℕ, suc, ◌<>◌, String, List, ◌||◌, eqb, if◌then◌else◌}
use support_agent_platform.Shared.Lists.{distinct}
use support_agent_platform.Shared.Text.{lower, occurs_in}
use support_agent_platform.Shared.Words.{split}

-- The replacements of "，", "。" and "/" by a space.
unfoldable pub spaced : String → String
spaced [] = []
spaced (c ∷ s) =
    let rest = spaced s in
    if eqb (code c) 65292 || eqb (code c) 12290 || eqb (code c) 47 then " " <> rest else c ∷ rest

-- `_tokenize` of source_attribution.py: the terms in their order.
unfoldable pub term_list : String → List String
unfolding spaced lower split
term_list query = split (spaced (lower query))

-- `_tokenize` of retriever.py and reranker.py: the terms, each once.
unfoldable pub terms_of : String → List String
unfolding term_list distinct
terms_of query = distinct (term_list query)

-- `sum(1 for term in terms if term in text)`.
unfoldable pub hits_in : List String → String → ℕ
unfolding occurs_in
hits_in List.[] s = 0
hits_in (List.◌∷◌ term terms) s =
    let rest = hits_in terms s in if occurs_in term s then suc rest else rest
