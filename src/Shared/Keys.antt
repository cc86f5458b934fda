-- ===== src/Shared/Keys.antt =====
-- Python's `dict` has each key once; a list of entries that stands for one does too. Which entry a read
-- finds after an update, then.
use support_agent_platform.Shared.Tests.{
  String, ◌≡◌, refl, false, ◌||◌, none, some, arith, ◌==◌, eq_iff,
}
use support_agent_platform.Shared.Json.{
  Value, Dict, end, entry, get, put, merge, has, get-put, get-absent,
}

abbrev pub IsKeyed : Dict → Type 0
IsKeyed end = Unit
IsKeyed (entry k v d) = (has k d ≡ false) × IsKeyed d

has-put : (key k : String) (v : Value) (d : Dict) → has k (put key v d) ≡ (key == k) || has k d
unfolding has put
has-put key k v end = ground arith
has-put key k v (entry j w d) =
    ground (arith, eq_iff key k, eq_iff j key, eq_iff j k, has-put key k v d)

pub IsKeyed-put : (key : String) (v : Value) (d : Dict) → IsKeyed d → IsKeyed (put key v d)
unfolding put has
IsKeyed-put key v end h = (refl, tt)
IsKeyed-put key v (entry j w d) h =
    ground (arith, eq_iff j key, eq_iff key j, has-put key j v d, IsKeyed-put key v d)

-- The update's entry, or else the one that was there.
pub get-merge :
    (key : String) (d other : Dict)
    → IsKeyed other
    → get key (merge d other) ≡ elim (get key other) [ some v ↦ some v | none ↦ get key d ]
unfolding get merge has
get-merge key d end h = refl
get-merge key d (entry k v other) h =
    ground (
      arith,
      eq_iff k key,
      get-merge key (put k v d) other,
      get-put k key v d,
      get-absent key other,
    )
