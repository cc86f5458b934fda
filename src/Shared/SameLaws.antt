-- ===== src/Shared/SameLaws.antt =====
-- What `==` on dicts says of their entries.
use support_agent_platform.Shared.Tests.{
  String, ◌≡◌, refl, ap, true, false, ◌==◌, eq_iff, inl, inr, some, List, [], ◌∷◌, map, arith,
  Bool-cases, Option-cases,
}
use support_agent_platform.Shared.Int.{ℤ, pos}
use support_agent_platform.Shared.Effects.{ok}
use support_agent_platform.Shared.Json.{
  Value, Items, Dict, null, bool, int, float, text, arr, nil, cons, end, entry, get, to_items,
}
use support_agent_platform.Shared.Str.{int_of}
use support_agent_platform.Shared.Same.{same, same_items, same_entries, same_dict}

pub same_entries-get :
    (key : String) (d e : Dict) (v : Value)
    → same_entries d e ≡ true
    → get key d ≡ some v
    → (u : Value) × (get key e ≡ some u) × (same v u ≡ true)
unfolding same_entries get
same_entries-get key end e v h g = cc
same_entries-get key (entry k w d) e v h g = elim (Bool-cases (k == key)) [
  | inl here ↦ elim (Option-cases (get k e)) [
    | inl absent ↦ absurd (ground arith)
    | inr (u, there) ↦ (u, ground (arith, eq_iff k key), ground (arith, eq_iff k key))
  ]
  | inr later ↦ same_entries-get key d e v (ground arith) (ground (arith, eq_iff k key))
]

-- Equal dicts hold equal values.
pub same_dict-get :
    (key : String) (d e : Dict) (v : Value)
    → same_dict d e ≡ true
    → get key d ≡ some v
    → (u : Value) × (get key e ≡ some u) × (same v u ≡ true)
unfolding same_dict
same_dict-get key d e v h g = same_entries-get key d e v (ground arith) g

-- A value equal to a list of texts is that list.
same_text_items :
    (xs : List String) (items : Items)
    → same_items (to_items (map text xs)) items ≡ true
    → items ≡ to_items (map text xs)
unfolding same_items to_items
same_text_items [] nil h = refl
same_text_items [] (cons v items) h = cc
same_text_items (x ∷ xs) nil h = cc
same_text_items (x ∷ xs) (cons (text y) items) h =
    ground (arith, eq_iff x y, same_text_items xs items)
same_text_items (x ∷ xs) (cons v items) h = ground arith

pub same_texts :
    (xs : List String) (u : Value)
    → same (arr (to_items (map text xs))) u ≡ true
    → u ≡ arr (to_items (map text xs))
unfolding same same_items
same_texts xs (arr items) h = ap arr (same_text_items xs items h)
same_texts xs u h = cc

-- A value equal to a list is a list.
pub same_list :
    (xs : List Value) (u : Value)
    → same (arr (to_items xs)) u ≡ true
    → (items : Items) × (u ≡ arr items)
unfolding same same_items
same_list xs (arr items) h = (items, refl)
same_list xs u h = absurd (ground arith)

-- A value equal to an integer can be read as one.
pub same_int : (z : ℤ) (u : Value) → same (int z) u ≡ true → (y : ℤ) × (int_of u ≡ ok y)
unfolding same int_of
same_int z null h = absurd (ground arith)
same_int z (bool true) h = (pos 1, refl)
same_int z (bool false) h = (pos 0, refl)
same_int z (int y) h = (y, refl)
same_int z (float m k) h = (_, refl)
same_int z u h = absurd (ground arith)
