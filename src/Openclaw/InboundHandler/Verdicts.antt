-- ===== src/Openclaw/InboundHandler/Verdicts.antt =====
-- openclaw_adapter/inbound_handler.py: the messages that get past the replay guard.
use support_agent_platform.Shared.{
  String, ◌≡◌, refl, sym, ap, ◌∙◌, ◌≢◌, Option, some, arith, contains, Dict, Error, Result, ok, err,
  Exec, lift, proceed, ◌>>=◌,
}
use support_agent_platform.Shared.Text.{strip}
use support_agent_platform.Storage.Models.{InboundEnvelope}
use support_agent_platform.Storage.World.{World}
use support_agent_platform.Channels.Payload.{ChannelAdapter}
use support_agent_platform.Channels.Laws.{AdapterLaws}
use support_agent_platform.Openclaw.Bindings.{metadata_of}
use support_agent_platform.Openclaw.Window.Deliveries.{advance, Windows, AllTrack}
use support_agent_platform.Openclaw.SignatureValidator.{
  SignatureValidationResult, validate, check_signature, check_source,
}
use support_agent_platform.Openclaw.InboundHandler.Admitted.{Judged, delivery, admit_keyed-verdict}
use support_agent_platform.Openclaw.InboundHandler.{
  ChannelRouter, resolve, trace_id_of, key_of, admit_keyed, admit_inbound, handle,
}

-- A program that leaves the sessions.
abbrev Quiet : {A : Type 0} → Exec World A → Type 0
Quiet m = (w : World) → (m w).1.sessions ≡ w.sessions

Quiet-bind :
    {A B : Type 0} (m : Exec World A) (f : A → Exec World B)
    → Quiet m
    → ((a : A) → Quiet (f a))
    → Quiet (m >>= f)
Quiet-bind {A} m f km kf w = after (m w).0 (m w).1 (km w)
  where
    after :
        (r : Result A) (v : World)
        → v.sessions ≡ w.sessions
        → (proceed r f v).1.sessions ≡ w.sessions
    after (ok a) v h = kf a v ∙ h
    after (err e) v h = h

trace_id_of-Quiet : (payload md : Dict) → Quiet (trace_id_of payload md)
unfolding trace_id_of
trace_id_of-Quiet payload md w = ground arith

trace_id_of-returns :
    (payload md : Dict) (v u : World) (e : Error) → trace_id_of payload md v ≢ (err e, u)
unfolding trace_id_of
trace_id_of-returns payload md v u e = ground arith

AllTrack-Quiet :
    (windows : Windows) (v w : World)
    → v.sessions ≡ w.sessions
    → AllTrack windows w
    → AllTrack windows v
AllTrack-Quiet windows v w e t id = rw (metadata_of, e) (t id)

module _ (router : ChannelRouter) (channel : String) (adapter : ChannelAdapter)
    (laws : AdapterLaws adapter) where
  check_signature-Quiet : (payload : Dict) → Quiet (check_signature channel adapter payload)
  unfolding check_signature
  check_signature-Quiet payload w = ground (arith, laws.sessions payload w)

  validate-Quiet : (payload : Dict) → Quiet (validate channel adapter payload)
  unfolding validate
  validate-Quiet payload =
      Quiet-bind (lift (check_source channel payload)) _ (λ w. refl)
        λ checked.
          Quiet-bind (check_signature channel adapter payload) _ (check_signature-Quiet payload)
            λ u w. refl

  -- A message that passes the checks of its source and signature, of whatever adapter keeps to the laws,
  -- that is built with a key which is not blank, when each session holds its window: it is refused as
  -- a duplicate exactly where its key is in the window of its session. Else it comes through as it was
  -- built, with six entries merged into its metadata: the trace, the inbox (its own, or the channel's
  -- default), the key, and of its session, as it is stored after the call, the thread, the ticket and
  -- the number of replays. The window of its session slides, and the others stay.
  pub handle-verdict :
      (payload : Dict) (w v : World) (checked : SignatureValidationResult)
      (inbound : InboundEnvelope) (given : Option String) (key : String) (windows : Windows)
      → resolve router channel ≡ ok adapter
      → validate channel adapter payload w ≡ (ok checked, v)
      → adapter.build_inbound payload ≡ ok inbound
      → adapter.idempotency_key payload ≡ ok given
      → key_of given inbound.metadata ≡ some key
      → strip key ≢ ""
      → AllTrack windows w
      → (trace_id : String) × (let out = handle router channel payload w in
          Judged inbound trace_id key (contains (windows inbound.session_id) key) out.0 out.1
          × AllTrack (advance windows (delivery inbound trace_id key)) out.1)
  unfolding handle admit_inbound
  handle-verdict payload w v checked inbound given key windows resolved validated built keyed chosen
        blank t =
      by_trace (trace_id_of payload inbound.metadata v).0 (trace_id_of payload inbound.metadata v).1
        refl
    where
      by_trace :
          (r : Result String) (u : World)
          → trace_id_of payload inbound.metadata v ≡ (r, u)
          → (trace_id : String) × (let out = handle router channel payload w in
              Judged inbound trace_id key (contains (windows inbound.session_id) key) out.0 out.1
              × AllTrack (advance windows (delivery inbound trace_id key)) out.1)
      by_trace (err e) u traced = absurd (trace_id_of-returns payload inbound.metadata v u e traced)
      by_trace (ok trace_id) u traced =
          let quiet : v.sessions ≡ w.sessions =
            ap (λ (o : Result SignatureValidationResult × World). o.1.sessions) (sym validated)
            ∙ validate-Quiet payload w in
          let drawn : u.sessions ≡ v.sessions =
            ap (λ (o : Result String × World). o.1.sessions) (sym traced)
            ∙ trace_id_of-Quiet payload inbound.metadata v in
          let run : handle router channel payload w ≡ admit_keyed inbound trace_id (some key) u =
            rw (resolved, validated, built, traced, keyed, chosen) refl in
          (
            trace_id,
            rw run (
                admit_keyed-verdict inbound trace_id key windows u blank
                  (laws.leaves payload inbound built)
                  (AllTrack-Quiet windows u w (drawn ∙ quiet) t)),
          )
