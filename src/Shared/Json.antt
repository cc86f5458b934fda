-- ===== src/Shared/Json.antt =====
-- JSON values, as the metadata and payload columns hold them, and Python's `dict` methods over
-- them. A dict keeps the order of insertion; `json.dumps(sort_keys=True)` reorders a stored one,
-- which no reader of the program sees, since it looks entries up by their key.
use support_agent_platform.Shared.Tests.{
  ℕ, zero, String, ◌≡◌, refl, Bool, true, false, not, Option, none, some, List, [], ◌∷◌, arith,
  ◌==◌, eq_iff, if◌then◌else◌,
}
use support_agent_platform.Shared.Int.{ℤ, pos}

mutual
  -- `float m k` is m / 10 ^ k.
  pub data Value : Type 0 where
    null : Value
    bool : Bool → Value
    int : ℤ → Value
    float : ℤ → ℕ → Value
    text : String → Value
    arr : Items → Value
    obj : Dict → Value

  pub data Items : Type 0 where
    nil : Items
    cons : Value → Items → Items

  pub data Dict : Type 0 where
    end : Dict
    entry : String → Value → Dict → Dict

-- `d.get(key)`; the default is the caller's.
unfoldable pub get : String → Dict → Option Value
get key end = none
get key (entry k v d) = if k == key then some v else get key d

-- `d[key] = value`.
unfoldable pub put : String → Value → Dict → Dict
put key value end = entry key value end
put key value (entry k v d) = if k == key then entry k value d else entry k v (put key value d)

-- `d.update(other)`.
unfoldable pub merge : Dict → Dict → Dict
unfolding put
merge d end = d
merge d (entry k v other) = merge (put k v d) other

abbrev pub is_end : Dict → Bool
is_end end = true
is_end (entry k v d) = false

-- `d1 != d2` compares the entries of dicts without their order.
unfoldable pub of_items : Items → List Value
of_items nil = []
of_items (cons v items) = v ∷ of_items items

unfoldable pub to_items : List Value → Items
to_items [] = nil
to_items (v ∷ values) = cons v (to_items values)

pub of_items-to_items : (values : List Value) → of_items (to_items values) ≡ values
unfolding of_items to_items
of_items-to_items [] = refl
of_items-to_items (v ∷ values) = cc (of_items-to_items values)

-- `bool(value)`.
unfoldable pub truthy : Value → Bool
truthy null = false
truthy (bool b) = b
truthy (int (pos zero)) = false
truthy (int _) = true
truthy (float (pos zero) _) = false
truthy (float _ _) = true
truthy (text s) = not (s == "")
truthy (arr nil) = false
truthy (arr (cons _ _)) = true
truthy (obj d) = not (is_end d)

-- A read after a write.
pub get-put :
    (key k : String) (v : Value) (d : Dict)
    → get k (put key v d) ≡ (if key == k then some v else get k d)
unfolding get put
get-put key k v end = refl
get-put key k v (entry j w d) =
    ground (arith, eq_iff key k, eq_iff j key, eq_iff j k, get-put key k v d)

-- Whether some entry has the key.
unfoldable pub has : String → Dict → Bool
has key end = false
has key (entry k v d) = if k == key then true else has key d

pub get-absent : (key : String) (d : Dict) → has key d ≡ false → get key d ≡ none
unfolding get has
get-absent key end h = refl
get-absent key (entry k v d) h = ground (arith, get-absent key d)

-- An update that does not mention a key leaves its entry.
pub get-merge_absent :
    (key : String) (d other : Dict) → has key other ≡ false → get key (merge d other) ≡ get key d
unfolding merge has
get-merge_absent key d end h = refl
get-merge_absent key d (entry k v other) h =
    ground (arith, get-merge_absent key (put k v d) other, get-put k key v d)
