-- ===== src/Openclaw/Window/Step.antt =====
-- openclaw_adapter/session_mapper.py: one call of `record_idempotency_key` slides the window.
use support_agent_platform.Shared.{
  ℕ, suc, String, ◌≡◌, refl, sym, ap, subst, ◌∙◌, ◌≢◌, inl, inr, Bool, true, false, not, Option,
  some, List, [], ◌∷◌, ◌++◌, map, Bool-cases, take_last, contains, ℤ, Value, Dict, int, text, arr,
  get, merge, has, to_items, get-put, Result, ok,
}
use support_agent_platform.Shared.Text.{strip}
use support_agent_platform.Shared.Str.{nonblank_texts, dicts}
use support_agent_platform.Shared.Int.{successor}
use support_agent_platform.Storage.Models.{SessionBinding}
use support_agent_platform.Storage.World.{World}
use support_agent_platform.Openclaw.SessionMapper.{
  find_binding, get_or_create, iterate, replay_count_of, replay_event, accepted_updates,
  replayed_updates, channel_metadata, record_idempotency_key,
}
use support_agent_platform.Openclaw.Bindings.{metadata_of, Updated, Opens, get_or_create-Opens}
use support_agent_platform.Openclaw.Window.{
  slide, AllNonblank-slide, Tracks, nonblank_texts-map_text,
}
use support_agent_platform.Openclaw.Window.Entries.{
  get-Updated, get-Updated_absent, iterate-texts, iterate-list, replay_count_of-int,
}
use support_agent_platform.Openclaw.Window.Kept.{
  same_count, opened, read_stored, keeps_window, keeps_channel,
}

module _ (key : String) (trace_id : Option String) (limit : ℕ) (seen : List String) {old new : Dict}
    (blank : strip key ≢ "") (t : Tracks seen old) where
  -- A key that is new is put at the end of the window.
  slid_accepted :
      contains seen key ≡ false
      → Updated old (accepted_updates key trace_id limit seen) new
      → Tracks (slide limit key seen) new
  unfolding slide accepted_updates has get merge
  slid_accepted fresh u =
      let xs = take_last limit (seen ++ key ∷ []) in
      let (v, there, alike) =
        get-Updated "processed_message_ids" (arr (to_items (map text xs))) refl (rw get-put refl)
          u in
      record {
        ids = rw fresh (iterate-texts xs (get "processed_message_ids" new) v there alike);
        nonblank = AllNonblank-slide limit key seen blank t.nonblank;
        events = t.events;
        events_read = rw (get-Updated_absent "replay_events" refl u) t.events_read;
        replays = t.replays;
        replays_read = same_count old new (get-Updated_absent "replay_count" refl u) t.replays_read;
      }

  -- A key that is known leaves it.
  slid_replayed :
      (channel : Option String) (time : String) (replays : ℤ) (events : List Value)
      → contains seen key ≡ true
      → Updated old (replayed_updates key trace_id channel limit time replays events) new
      → Tracks (slide limit key seen) new
  unfolding slide replayed_updates has get merge
  slid_replayed channel time replays events known u =
      let (v, there, alike) =
        get-Updated "replay_count" (int (successor replays)) refl
          (rw (get-put, get-put, get-put) refl) u in
      let (count, counted) = replay_count_of-int (successor replays) new v there alike in
      let xs = take_last limit (events ++ replay_event time channel key trace_id ∷ []) in
      let (l, listed, alike_l) =
        get-Updated "replay_events" (arr (to_items xs)) refl (rw get-put refl) u in
      let (ys, read) = iterate-list xs (get "replay_events" new) l listed alike_l in
      record {
        ids = rw (known, get-Updated_absent "processed_message_ids" refl u) t.ids;
        nonblank = rw known t.nonblank;
        events = ys;
        events_read = read;
        replays = count;
        replays_read = counted;
      }

-- What a call returns and leaves: whether the key was new, the window after it, and the bindings
-- of all other sessions as they were.
pub record Recorded (limit : ℕ) (id key : String) (seen : List String) (v : World)
    (out : Result (Bool × SessionBinding) × World) : Type 0 where
  pub binding : SessionBinding
  pub returned : out.0 ≡ ok (not (contains seen key), binding)
  pub stored : find_binding id out.1.sessions ≡ some binding
  pub tracks : Tracks (slide limit key seen) (metadata_of id out.1)
  pub others : (j : String) → j ≢ id → find_binding j out.1.sessions ≡ find_binding j v.sessions

module _ (id key : String) (trace_id channel : Option String) (limit : ℕ) (v : World) where
  accepts :
      (seen : List String) (b c : SessionBinding) (v1 v2 : World)
      → get_or_create id (channel_metadata channel) v ≡ (ok b, v1)
      → iterate (get "processed_message_ids" b.metadata) ≡ ok (map text seen)
      → nonblank_texts (map text seen) ≡ seen
      → contains seen key ≡ false
      → get_or_create id (accepted_updates key trace_id limit seen) v1 ≡ (ok c, v2)
      → record_idempotency_key id key trace_id channel limit v ≡ (ok (true, c), v2)
  unfolding record_idempotency_key
  accepts seen b c v1 v2 opened ids clean fresh updated =
      rw (opened, ids, clean, fresh, updated) refl

  replays :
      (seen : List String) (b c : SessionBinding) (v1 v2 : World) (events : List Value) (z : ℤ)
      → get_or_create id (channel_metadata channel) v ≡ (ok b, v1)
      → iterate (get "processed_message_ids" b.metadata) ≡ ok (map text seen)
      → nonblank_texts (map text seen) ≡ seen
      → contains seen key ≡ true
      → iterate (get "replay_events" b.metadata) ≡ ok events
      → replay_count_of b.metadata ≡ ok z
      → get_or_create id
          (replayed_updates key trace_id channel limit
            (v1.isoformat (v1.clock v1.reads))
            z
            (dicts events))
          (record v1 { reads = suc v1.reads })
        ≡ (ok c, v2)
      → record_idempotency_key id key trace_id channel limit v ≡ (ok (false, c), v2)
  unfolding record_idempotency_key
  replays seen b c v1 v2 events z opened ids clean known listed counted updated =
      rw (opened, ids, clean, known, listed, counted, updated) refl

  finish :
      (seen : List String)
      (p : Opens id (channel_metadata channel) v (get_or_create id (channel_metadata channel) v))
      (upd : Dict) (v1 : World)
      (same : v1.sessions ≡ (get_or_create id (channel_metadata channel) v).1.sessions)
      (q : Opens id upd v1 (get_or_create id upd v1)) (fresh : Bool)
      → fresh ≡ not (contains seen key)
      → record_idempotency_key id key trace_id channel limit v
        ≡ (ok (fresh, q.binding), (get_or_create id upd v1).1)
      → Tracks (slide limit key seen) q.binding.metadata
      → Recorded limit id key seen v (record_idempotency_key id key trace_id channel limit v)
  finish seen p upd v1 same q fresh is_fresh e t =
      subst (Recorded limit id key seen v) (sym e) (record {
        binding = q.binding;
        returned = ap (λ b. ok (b, q.binding)) is_fresh;
        stored = q.stored;
        tracks =
            subst (Tracks (slide limit key seen))
              (sym (read_stored id (get_or_create id upd v1).1 q.binding q.stored)) t;
        others = λ j ne. q.others j ne ∙ (ap (find_binding j) same ∙ p.others j ne);
      })

  -- One call of record_idempotency_key on a session that holds a window: it says whether the key,
  -- which is not blank, was new; the session then holds the window that has slid; and the bindings
  -- of all other sessions are as they were.
  pub record_idempotency_key-Recorded :
      (seen : List String)
      → strip key ≢ ""
      → Tracks seen (metadata_of id v)
      → Recorded limit id key seen v (record_idempotency_key id key trace_id channel limit v)
  record_idempotency_key-Recorded seen blank t =
      let cm = channel_metadata channel in
      let p = get_or_create-Opens id cm v in
      let v1 = (get_or_create id cm v).1 in
      let t1 =
        keeps_window seen (metadata_of id v) cm p.binding.metadata (keeps_channel channel _ refl)
          (keeps_channel channel _ refl) (keeps_channel channel _ refl) t p.updated in
      let clean = nonblank_texts-map_text seen t.nonblank in
      elim (Bool-cases (contains seen key)) [
        | inl known ↦
            let v2 = record v1 { reads = suc v1.reads } in
            let upd =
              replayed_updates key trace_id channel limit (v1.isoformat (v1.clock v1.reads))
                t1.replays (dicts t1.events) in
            let q = get_or_create-Opens id upd v2 in
            finish seen p upd v2 refl q false (rw known refl)
              (replays seen p.binding q.binding v1 (get_or_create id upd v2).1 t1.events t1.replays
                (opened p) t1.ids clean known t1.events_read t1.replays_read (opened q))
              (slid_replayed key trace_id limit seen blank
                (subst (Tracks seen) (sym (read_stored id v1 p.binding p.stored)) t1) channel _
                t1.replays (dicts t1.events) known q.updated)
        | inr fresh ↦
            let upd = accepted_updates key trace_id limit seen in
            let q = get_or_create-Opens id upd v1 in
            finish seen p upd v1 refl q true (rw fresh refl)
              (accepts seen p.binding q.binding v1 (get_or_create id upd v1).1 (opened p) t1.ids
                clean fresh (opened q))
              (slid_accepted key trace_id limit seen blank
                (subst (Tracks seen) (sym (read_stored id v1 p.binding p.stored)) t1) fresh
                q.updated)
      ]
