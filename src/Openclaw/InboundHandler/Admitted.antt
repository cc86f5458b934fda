-- ===== src/Openclaw/InboundHandler/Admitted.antt =====
-- openclaw_adapter/inbound_handler.py: one keyed message at the replay guard.
use support_agent_platform.Shared.{
  String, ◌<>◌, ◌≡◌, refl, sym, ap, subst, ◌≢◌, ◌⊎◌, inl, inr, Bool, true, false, some, arith, ◌==◌,
  eq_iff, if◌then◌else◌, Bool-cases, ne_of_test, contains, ℤ, Value, Dict, int, text, end, entry,
  get, put, merge, has, Result, ok, err, Exec, pure, lift, proceed, ◌>>=◌, ◌>>◌,
}
use support_agent_platform.Shared.Text.{strip}
use support_agent_platform.Shared.Str.{str_or, of_option}
use support_agent_platform.Storage.Models.{InboundEnvelope, SessionBinding}
use support_agent_platform.Storage.World.{World}
use support_agent_platform.Channels.Laws.{LeavesWindow}
use support_agent_platform.Openclaw.SessionMapper.{
  find_binding, get_or_create, get_binding, replay_count_of,
}
use support_agent_platform.Openclaw.Bindings.{metadata_of, Opens, get_or_create-Opens}
use support_agent_platform.Openclaw.ReplayGuard
use support_agent_platform.Openclaw.ReplayGuard.{ReplayDecision, duplicate_webhook, enforce}
use support_agent_platform.Openclaw.Window.{Tracks}
use support_agent_platform.Openclaw.Window.Kept.{keeps_window, read_stored}
use support_agent_platform.Openclaw.Window.Deliveries.{
  Delivery, admit, admit-verdict, admit-stored, advance, Windows, AllTrack,
}
use support_agent_platform.Openclaw.InboundHandler.{
  session_metadata, inbox_of, enriched, latest, admit_keyed,
}

has-put :
    (key k : String) (v : Value) (d : Dict)
    → has k (put key v d) ≡ (if key == k then true else has k d)
unfolding has put
has-put key k v end = refl
has-put key k v (entry j w d) =
    ground (arith, eq_iff key k, eq_iff j key, eq_iff j k, has-put key k v d)

has-merge :
    (k : String) (d other : Dict)
    → has k d ≡ false
    → has k other ≡ false
    → has k (merge d other) ≡ false
unfolding merge has
has-merge k d end h e = h
has-merge k d (entry j v other) h e =
    has-merge k (put j v d) other (ground (arith, has-put j k v d)) (ground arith)

session_metadata-LeavesWindow :
    (inbound : InboundEnvelope) (trace_id : String)
    → LeavesWindow inbound.metadata
    → LeavesWindow (session_metadata inbound trace_id (inbox_of inbound))
unfolding has
session_metadata-LeavesWindow inbound trace_id h = record {
  ids = has-merge "processed_message_ids" _ inbound.metadata refl h.ids;
  events = has-merge "replay_events" _ inbound.metadata refl h.events;
  count = has-merge "replay_count" _ inbound.metadata refl h.count;
}

-- The session that a message opens holds the windows as they were.
AllTrack-opened :
    (windows : Windows) (id : String) (md : Dict) (w : World)
    → LeavesWindow md
    → AllTrack windows w
    → AllTrack windows (get_or_create id md w).1
AllTrack-opened windows id md w h t =
    let p = get_or_create-Opens id md w in λ j. by_session p j (Bool-cases (id == j))
  where
    by_session :
        (p : Opens id md w (get_or_create id md w)) (j : String)
        → ((id == j) ≡ true) ⊎ ((id == j) ≡ false)
        → Tracks (windows j) (metadata_of j (get_or_create id md w).1)
    by_session p j (inl same) =
        subst (λ i. Tracks (windows i) (metadata_of i (get_or_create id md w).1))
          ((eq_iff id j).0 same)
          (subst (Tracks (windows id))
            (sym (read_stored id (get_or_create id md w).1 p.binding p.stored))
            (keeps_window (windows id) (metadata_of id w) md p.binding.metadata h.ids h.events
              h.count (t id) p.updated))
    by_session p j (inr other) =
        rw (metadata_of, p.others j (λ e. ne_of_test id j other (sym e))) (t j)

module _ (inbound : InboundEnvelope) (trace_id key : String) where
  abbrev pub delivery : Delivery
  delivery = record {
    channel = inbound.channel;
    session_id = inbound.session_id;
    key = key;
    trace_id = some trace_id;
  }

  -- What follows the replay guard, with the binding that was opened.
  abbrev finish : SessionBinding → Exec World InboundEnvelope
  finish binding = do
    refreshed ← get_binding inbound.session_id
    replays ← lift (replay_count_of (latest refreshed binding).metadata)
    pure (enriched inbound trace_id (some key) (latest refreshed binding) replays)

  -- The message, with what is known of its session in its metadata.
  abbrev pub with_session : SessionBinding → ℤ → InboundEnvelope
  with_session b replays = record {
    channel = inbound.channel;
    session_id = inbound.session_id;
    message_text = inbound.message_text;
    metadata = merge inbound.metadata (
        entry "trace_id" (text trace_id) (
          entry "inbox"
            (text (str_or (get "inbox" inbound.metadata) (inbound.channel <> ".default")))
            (entry "thread_id" (text b.thread_id) (
              entry "ticket_id" (of_option b.ticket_id)
                (entry "idempotency_key" (text key) (entry "replay_count" (int replays) end))))));
  }

  -- Whether the key was known decides between the error and the message with its session: the binding
  -- that is stored once the call is over, and the number of replays in it.
  abbrev pub Judged : Bool → Result InboundEnvelope → World → Type 0
  Judged true r u = r ≡ err (duplicate_webhook inbound.channel (some key))
  Judged false r u =
      (b : SessionBinding) × ((z : ℤ) × ((find_binding inbound.session_id u.sessions ≡ some b)
          × ((replay_count_of b.metadata ≡ ok z) × (r ≡ ok (with_session b z)))))

  guarded :
      (b : SessionBinding) (w v : World)
      → get_or_create inbound.session_id (session_metadata inbound trace_id (inbox_of inbound)) w
        ≡ (ok b, v)
      → admit_keyed inbound trace_id (some key) w ≡ (admit delivery >> finish b) v
  unfolding admit_keyed admit
  guarded b w v opened = rw opened (
      assoc (ReplayGuard.evaluate inbound.channel inbound.session_id (some key) (some trace_id) v).0
        _)
    where
      assoc :
          (r : Result ReplayDecision) (u : World)
          → proceed r (λ d. enforce d >> finish b) u
            ≡ proceed (proceed r enforce u).0 (λ _. finish b) (proceed r enforce u).1
      assoc (ok d) u = refl
      assoc (err e) u = refl

  finished :
      (b c : SessionBinding) (z : ℤ) (u : World)
      → find_binding inbound.session_id u.sessions ≡ some c
      → replay_count_of c.metadata ≡ ok z
      → finish b u ≡ (ok (with_session c z), u)
  unfolding get_binding enriched
  finished b c z u found counted = rw (found, counted) refl

  concluded :
      (b c : SessionBinding) (z : ℤ) (known : Bool) (r : Result {0} Unit) (u : World)
      → r ≡ (if known then err (duplicate_webhook inbound.channel (some key)) else ok tt)
      → find_binding inbound.session_id u.sessions ≡ some c
      → replay_count_of c.metadata ≡ ok z
      → Judged known (proceed r (λ _. finish b) u).0 u × ((proceed r (λ _. finish b) u).1 ≡ u)
  concluded b c z true r u e found counted = rw e (refl, refl)
  concluded b c z false r u e found counted =
      rw (e, proceed, finished b c z u found counted) ((c, (z, (found, (counted, refl)))), refl)

  pub admit_keyed-verdict :
      (windows : Windows) (w : World)
      → strip key ≢ ""
      → LeavesWindow inbound.metadata
      → AllTrack windows w
      → let out = admit_keyed inbound trace_id (some key) w in
        Judged (contains (windows inbound.session_id) key) out.0 out.1
        × AllTrack (advance windows delivery) out.1
  admit_keyed-verdict windows w blank leaves t =
      let md = session_metadata inbound trace_id (inbox_of inbound) in
      let p = get_or_create-Opens inbound.session_id md w in
      let v = (get_or_create inbound.session_id md w).1 in
      let t1 =
        AllTrack-opened windows inbound.session_id md w
          (session_metadata-LeavesWindow inbound trace_id leaves) t in
      let (judged, t2) = admit-verdict delivery v windows blank t1 in
      let (c, found) = admit-stored delivery v windows blank t1 in
      let u = (admit delivery v).1 in
      let tracks = t2 inbound.session_id in
      let counted : replay_count_of c.metadata ≡ ok tracks.replays =
        subst (λ m. replay_count_of m ≡ ok tracks.replays)
          (read_stored inbound.session_id u c found) tracks.replays_read in
      let run = guarded p.binding w v (ap (λ r. (r, v)) p.returned) in
      let (j, same) =
        concluded p.binding c tracks.replays (contains (windows inbound.session_id) key)
          (admit delivery v).0 u judged found counted in
      (rw (run, same) j, rw (run, same) t2)
