-- ===== src/Openclaw/Bindings.antt =====
-- openclaw_adapter/session_mapper.py: what `get_or_create` leaves in the table of bindings.
use support_agent_platform.Shared.{
  String, ◌<>◌, ◌≡◌, refl, sym, ◌≢◌, inl, inr, true, false, Option, none, some, List, [], ◌∷◌,
  arith, ◌==◌, eq_iff, if◌then◌else◌, Bool-cases, Option-cases, test_of_ne, ==_refl, Dict, end,
  merge, Result, ok,
}
use support_agent_platform.Shared.Same.{same_dict}
use support_agent_platform.Storage.Models.{SessionBinding}
use support_agent_platform.Storage.World.{World}
use support_agent_platform.Openclaw.SessionMapper.{
  find_binding, upsert_binding, upsert, get_or_create, create_binding, refresh_binding, reload_or,
  reload_binding,
}

pub find_binding-upsert :
    (j : String) (b : SessionBinding) (bindings : List SessionBinding)
    → find_binding j (upsert_binding b bindings)
      ≡ (if b.session_id == j then some b else find_binding j bindings)
unfolding find_binding upsert_binding
find_binding-upsert j b [] = refl
find_binding-upsert j b (c ∷ bindings) = ground (
  arith,
  eq_iff c.session_id b.session_id,
  eq_iff b.session_id j,
  eq_iff c.session_id j,
  find_binding-upsert j b bindings,
)

-- The metadata of a session; one that is not known has none.
abbrev pub metadata_of : String → World → Dict
metadata_of id w = elim (find_binding id w.sessions) [ none ↦ end | some b ↦ b.metadata ]

-- The metadata after an update of the old: merged, or kept where the merge would make no difference,
-- or the update alone where there was none.
pub data Updated (old md new : Dict) : Type 0 where
  merged : new ≡ merge old md → Updated old md new
  kept : new ≡ old → same_dict (merge old md) old ≡ true → Updated old md new
  started : old ≡ end → new ≡ md → Updated old md new

-- `get_or_create` returns the binding that is then stored, and touches no other session.
pub record Opens (id : String) (md : Dict) (v : World) (out : Result SessionBinding × World)
    : Type 0 where
  pub binding : SessionBinding
  pub returned : out.0 ≡ ok binding
  pub stored : find_binding id out.1.sessions ≡ some binding
  pub updated : Updated (metadata_of id v) md binding.metadata
  pub others : (j : String) → j ≢ id → find_binding j out.1.sessions ≡ find_binding j v.sessions

session_id-find_binding :
    (id : String) (bindings : List SessionBinding) (b : SessionBinding)
    → find_binding id bindings ≡ some b
    → b.session_id ≡ id
unfolding find_binding
session_id-find_binding id [] b h = cc
session_id-find_binding id (c ∷ bindings) b h =
    ground (arith, eq_iff c.session_id id, session_id-find_binding id bindings b)

module _ (id : String) (md : Dict) (w : World) where
  -- The binding that `upsert` writes.
  abbrev row : String → Option String → Dict → SessionBinding
  row thread_id ticket_id metadata = record {
    session_id = id;
    thread_id = thread_id;
    ticket_id = ticket_id;
    metadata = metadata;
    updated_at = w.clock w.reads;
  }

  found_row :
      (b : SessionBinding)
      → b.session_id ≡ id
      → find_binding id (upsert_binding b w.sessions) ≡ some b
  found_row b e = rw (find_binding-upsert, e, ==_refl)

  other_row :
      (b : SessionBinding) (j : String)
      → b.session_id ≡ id
      → j ≢ id
      → find_binding j (upsert_binding b w.sessions) ≡ find_binding j w.sessions
  other_row b j e ne = rw (find_binding-upsert, e, test_of_ne id j (λ p. ne (sym p)))

  creates : find_binding id w.sessions ≡ none → Opens id md w (get_or_create id md w)
  unfolding get_or_create create_binding upsert reload_binding
  creates none_there =
      let b = row (w.uuid5 ("support-agent-platform/" <> id)) none md in
      record {
        binding = b;
        returned = ground (arith, found_row b refl);
        stored = ground (arith, found_row b refl);
        updated = started (ground arith) refl;
        others = λ j ne. ground (arith, other_row b j refl ne);
      }

  keeps :
      (b : SessionBinding)
      → find_binding id w.sessions ≡ some b
      → same_dict (merge b.metadata md) b.metadata ≡ true
      → Opens id md w (get_or_create id md w)
  unfolding get_or_create refresh_binding
  keeps b there unchanged = record {
    binding = b;
    returned = ground arith;
    stored = ground arith;
    updated = kept (ground arith) (ground arith);
    others = λ j ne. ground arith;
  }

  merges :
      (b : SessionBinding)
      → find_binding id w.sessions ≡ some b
      → same_dict (merge b.metadata md) b.metadata ≡ false
      → Opens id md w (get_or_create id md w)
  unfolding get_or_create refresh_binding upsert reload_or
  merges b there changed =
      let c = row b.thread_id b.ticket_id (merge b.metadata md) in
      record {
        binding = c;
        returned = ground (arith, found_row c refl);
        stored = ground (arith, found_row c refl);
        updated = merged (ground arith);
        others = λ j ne. ground (arith, other_row c j refl ne);
      }

  pub get_or_create-Opens : Opens id md w (get_or_create id md w)
  get_or_create-Opens = elim (Option-cases (find_binding id w.sessions)) [
    | inl none_there ↦ creates none_there
    | inr (b, there) ↦ elim (Bool-cases (same_dict (merge b.metadata md) b.metadata)) [
      | inl unchanged ↦ keeps b there unchanged
      | inr changed ↦ merges b there changed
    ]
  ]
