-- ===== src/Shared/Same.antt =====
-- `==` on JSON values: numbers by value, dicts without the order of their entries.
use support_agent_platform.Shared.Tests.{
  ℕ, suc, ◌+◌, ◌*◌, ◌^◌, ◌≡◌, refl, Bool, true, false, ◌&&◌, Option, none, some, ◌==◌, eqb,
}
use support_agent_platform.Shared.Int.{ℤ, pos, negsuc}
use support_agent_platform.Shared.Json.{
  Value, Items, Dict, null, bool, int, float, text, arr, obj, nil, cons, end, entry, get,
}

-- A number m / 10 ^ k.
number_of : Value → Option (ℤ × ℕ)
number_of (bool true) = some (pos 1, 0)
number_of (bool false) = some (pos 0, 0)
number_of (int z) = some (z, 0)
number_of (float m k) = some (m, k)
number_of _ = none

same_scaled : ℤ → ℕ → ℤ → ℕ → Bool
same_scaled (pos m) k (pos n) j = eqb (m * 10 ^ j) (n * 10 ^ k)
same_scaled (negsuc m) k (negsuc n) j = eqb ((m + 1) * 10 ^ j) ((n + 1) * 10 ^ k)
same_scaled _ _ _ _ = false

same_number : Value → Value → Bool
unfolding number_of same_scaled
same_number v w = elim (number_of v) [
  | none ↦ false
  | some (m, k) ↦ elim (number_of w) [ none ↦ false | some (n, j) ↦ same_scaled m k n j ]
]

abbrev size : Dict → ℕ
size end = 0
size (entry k v d) = suc (size d)

unfoldable mutual
  unfolding same_number

  pub same : Value → Value → Bool
  same null null = true
  same null _ = false
  same (text s) (text t) = s == t
  same (text s) _ = false
  same (arr xs) (arr ys) = same_items xs ys
  same (arr xs) _ = false
  same (obj d) (obj e) = eqb (size d) (size e) && same_entries d e
  same (obj d) _ = false
  same (bool b) w = same_number (bool b) w
  same (int z) w = same_number (int z) w
  same (float m k) w = same_number (float m k) w

  pub same_items : Items → Items → Bool
  same_items nil nil = true
  same_items nil (cons _ _) = false
  same_items (cons v xs) nil = false
  same_items (cons v xs) (cons w ys) = same v w && same_items xs ys

  pub same_entries : Dict → Dict → Bool
  same_entries end e = true
  same_entries (entry k v d) e =
      elim (get k e) [ none ↦ false | some w ↦ same v w ] && same_entries d e

-- `d == e`.
unfoldable pub same_dict : Dict → Dict → Bool
unfolding same_entries
same_dict d e = eqb (size d) (size e) && same_entries d e

same_dict_example :
    same_dict
      (entry "a" (int (pos 1)) (entry "b" null end))
      (entry "b" null (entry "a" (float (pos 10) 1) end))
    ≡ true
unfolding same_dict get
same_dict_example = refl
