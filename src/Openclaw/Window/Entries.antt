-- ===== src/Openclaw/Window/Entries.antt =====
-- openclaw_adapter/session_mapper.py: the entries of a session's metadata after an update of it.
use support_agent_platform.Shared.{
  String, ◌≡◌, refl, ap, ◌⊎◌, inl, inr, true, false, Option, some, List, map, arith, ℤ, Value, Dict,
  int, text, arr, get, merge, has, of_items, to_items, get-merge_absent, get-absent,
  of_items-to_items, ok,
}
use support_agent_platform.Shared.Str.{int_of}
use support_agent_platform.Shared.Same.{same}
use support_agent_platform.Shared.SameLaws.{same_dict-get, same_texts, same_list, same_int}
use support_agent_platform.Openclaw.SessionMapper.{iterate, replay_count_of}
use support_agent_platform.Openclaw.Bindings.{Updated, merged, kept, started}

module _ (key : String) {old upd new : Dict} where
  -- An entry that the update does not mention stays.
  pub get-Updated_absent : has key upd ≡ false → Updated old upd new → get key new ≡ get key old
  unfolding get
  get-Updated_absent h (merged e) = rw (e, get-merge_absent key old upd h) refl
  get-Updated_absent h (kept e _) = ap (get key) e
  get-Updated_absent h (started e f) = rw (e, f, get-absent key upd h) refl

  -- An entry that the update writes is there, or one that is equal to it.
  pub get-Updated :
      (v : Value)
      → get key upd ≡ some v
      → get key (merge old upd) ≡ some v
      → Updated old upd new
      → (u : Value) × (get key new ≡ some u) × ((u ≡ v) ⊎ (same v u ≡ true))
  get-Updated v g h (merged e) = (v, rw e h, inl refl)
  get-Updated v g h (kept e s) =
      let (u, there, alike) = same_dict-get key (merge old upd) old v s h in
      (u, rw e there, inr alike)
  get-Updated v g h (started e f) = (v, rw f g, inl refl)

-- The three kinds of entries that the replay guard reads back.
pub iterate-texts :
    (xs : List String) (o : Option Value) (u : Value)
    → o ≡ some u
    → (u ≡ arr (to_items (map text xs))) ⊎ (same (arr (to_items (map text xs))) u ≡ true)
    → iterate o ≡ ok (map text xs)
unfolding iterate
iterate-texts xs o u there (inl e) = rw (there, e, of_items-to_items (map text xs)) refl
iterate-texts xs o u there (inr alike) =
    rw (there, same_texts xs u alike, of_items-to_items (map text xs)) refl

pub iterate-list :
    (xs : List Value) (o : Option Value) (u : Value)
    → o ≡ some u
    → (u ≡ arr (to_items xs)) ⊎ (same (arr (to_items xs)) u ≡ true)
    → (ys : List Value) × (iterate o ≡ ok ys)
unfolding iterate
iterate-list xs o u there (inl e) = (of_items (to_items xs), rw (there, e) refl)
iterate-list xs o u there (inr alike) =
    let (items, e) = same_list xs u alike in (of_items items, rw (there, e) refl)

pub replay_count_of-int :
    (z : ℤ) (md : Dict) (u : Value)
    → get "replay_count" md ≡ some u
    → (u ≡ int z) ⊎ (same (int z) u ≡ true)
    → (y : ℤ) × (replay_count_of md ≡ ok y)
unfolding replay_count_of int_of
replay_count_of-int z md u there (inl e) = (z, ground arith)
replay_count_of-int z md u there (inr alike) = let (y, e) = same_int z u alike in (y, ground arith)
