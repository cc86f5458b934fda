-- ===== src/Channels/Laws.antt =====
-- channel_adapters/: what the ingress relies on in an adapter.
use support_agent_platform.Shared.{
  String, ◌≡◌, refl, subst, false, Option, none, some, arith, Value, Dict, get, has, Result, ok,
  err,
}
use support_agent_platform.Shared.Str.{str}
use support_agent_platform.Storage.Models.{InboundEnvelope}
use support_agent_platform.Storage.World.{World}
use support_agent_platform.Channels.Payload.{
  ChannelAdapter, with_section, section, is_true, allowed_sources,
}
use support_agent_platform.Channels.Signatures.{check_signature}
use support_agent_platform.Channels.Wecom
use support_agent_platform.Channels.Wecom.{wecom_adapter}
use support_agent_platform.Channels.Feishu
use support_agent_platform.Channels.Feishu.{feishu_adapter}
use support_agent_platform.Channels.Telegram
use support_agent_platform.Channels.Telegram.{telegram_adapter}

-- The metadata of a message has none of the entries in which a session keeps its replay window.
pub record LeavesWindow (md : Dict) : Type 0 where
  pub ids : has "processed_message_ids" md ≡ false
  pub events : has "replay_events" md ≡ false
  pub count : has "replay_count" md ≡ false

pub record AdapterLaws (adapter : ChannelAdapter) : Type 0 where
  pub sessions :
      (payload : Dict) (w : World) → (adapter.verify_inbound payload w).1.sessions ≡ w.sessions
  pub leaves :
      (payload : Dict) (inbound : InboundEnvelope)
      → adapter.build_inbound payload ≡ ok inbound
      → LeavesWindow inbound.metadata

check_signature-sessions :
    (hmac : String → String → String) (channel signature : String) (payload : Dict) (w : World)
    → (check_signature hmac channel signature payload w).1.sessions ≡ w.sessions
unfolding check_signature
check_signature-sessions hmac channel signature payload w = ground arith

module _ (hmac : String → String → String) where
  wecom_sessions :
      (payload : Dict) (w : World) → (Wecom.verify_inbound hmac payload w).1.sessions ≡ w.sessions
  unfolding Wecom.verify_inbound
  wecom_sessions payload w = by_signature _
    where
      by_source :
          (signature : Value) (r : Result {0} Unit)
          → (elim r as (λ _. Result {0} Unit × World) [
            | err e ↦ (err e, w)
            | ok u ↦ check_signature hmac "wecom" (str signature) payload w
          ]).1.sessions
            ≡ w.sessions
      by_source signature (err e) = refl
      by_source signature (ok u) = check_signature-sessions hmac "wecom" (str signature) payload w

      by_signature :
          (o : Option Value)
          → (elim o as (λ _. Result {0} Unit × World) [
            | none ↦ (ok tt, w)
            | some signature ↦
                elim (Wecom.check_source
                  (is_true (get "require_source_validation" payload))
                  (Wecom.lower_source payload)
                  (allowed_sources Wecom.wecom_sources (get "allowed_sources" payload))) [
                    | err e ↦ (err e, w)
                    | ok u ↦ check_signature hmac "wecom" (str signature) payload w
                  ]
          ]).1.sessions
            ≡ w.sessions
      by_signature none = refl
      by_signature (some signature) = by_source signature _

  feishu_sessions :
      (payload : Dict) (w : World) → (Feishu.verify_inbound hmac payload w).1.sessions ≡ w.sessions
  unfolding Feishu.verify_inbound
  feishu_sessions payload w = by_signature _
    where
      by_signature :
          (o : Option Value)
          → (elim o as (λ _. Result {0} Unit × World) [
            | none ↦ (ok tt, w)
            | some signature ↦ check_signature hmac "feishu" (str signature) payload w
          ]).1.sessions
            ≡ w.sessions
      by_signature none = refl
      by_signature (some signature) =
          check_signature-sessions hmac "feishu" (str signature) payload w

wecom_metadata : (payload : Dict) → LeavesWindow (Wecom.inbound_metadata payload)
unfolding Wecom.inbound_metadata has
wecom_metadata payload = record { ids = refl; events = refl; count = refl }

wecom_leaves :
    (payload : Dict) (inbound : InboundEnvelope)
    → Wecom.build_inbound payload ≡ ok inbound
    → LeavesWindow inbound.metadata
unfolding Wecom.build_inbound
wecom_leaves payload inbound h =
    let same : Wecom.inbound_metadata payload ≡ inbound.metadata = ground arith in
    subst LeavesWindow same (wecom_metadata payload)

feishu_metadata : (p : Feishu.Parts) → LeavesWindow (Feishu.inbound_metadata p)
unfolding Feishu.inbound_metadata has
feishu_metadata p = record { ids = refl; events = refl; count = refl }

feishu_envelope :
    (p : Feishu.Parts) (inbound : InboundEnvelope)
    → Feishu.envelope_of p ≡ ok inbound
    → LeavesWindow inbound.metadata
unfolding Feishu.envelope_of
feishu_envelope p inbound h =
    let same : Feishu.inbound_metadata p ≡ inbound.metadata = ground arith in
    subst LeavesWindow same (feishu_metadata p)

-- What is built of a section is built of some dict.
with_section-ok :
    (key : String) (d : Dict) (f : Dict → Result InboundEnvelope) (inbound : InboundEnvelope)
    → with_section key d f ≡ ok inbound
    → (e : Dict) × (f e ≡ ok inbound)
unfolding with_section
with_section-ok key d f inbound = by_section (section key d)
  where
    by_section :
        (r : Result Dict)
        → elim r as (λ _. Result InboundEnvelope) [ err e ↦ err e | ok e ↦ f e ] ≡ ok inbound
        → (e : Dict) × (f e ≡ ok inbound)
    by_section (err e) h = absurd (ground arith)
    by_section (ok e) h = (e, h)

feishu_leaves :
    (payload : Dict) (inbound : InboundEnvelope)
    → Feishu.build_inbound payload ≡ ok inbound
    → LeavesWindow inbound.metadata
unfolding Feishu.build_inbound
feishu_leaves payload inbound h =
    let (event, h1) = with_section-ok "event" payload _ inbound h in
    let (sender, h2) = with_section-ok "sender" event _ inbound h1 in
    let (sender_id, h3) = with_section-ok "sender_id" sender _ inbound h2 in
    let (message, h4) = with_section-ok "message" event _ inbound h3 in
    feishu_envelope
      (record { payload = payload; event = event; sender_id = sender_id; message = message })
      inbound h4

telegram_metadata :
    (payload message chat : Dict) → LeavesWindow (Telegram.inbound_metadata payload message chat)
unfolding Telegram.inbound_metadata has
telegram_metadata payload message chat = record { ids = refl; events = refl; count = refl }

telegram_envelope :
    (payload message chat : Dict) (inbound : InboundEnvelope)
    → Telegram.envelope_of payload message chat ≡ ok inbound
    → LeavesWindow inbound.metadata
unfolding Telegram.envelope_of
telegram_envelope payload message chat inbound h =
    let same : Telegram.inbound_metadata payload message chat ≡ inbound.metadata = ground arith in
    subst LeavesWindow same (telegram_metadata payload message chat)

telegram_leaves :
    (payload : Dict) (inbound : InboundEnvelope)
    → Telegram.build_inbound payload ≡ ok inbound
    → LeavesWindow inbound.metadata
unfolding Telegram.build_inbound
telegram_leaves payload inbound h =
    let (message, h1) = with_section-ok "message" payload _ inbound h in
    let (chat, h2) = with_section-ok "chat" message _ inbound h1 in
    telegram_envelope payload message chat inbound h2

pub wecom_adapter-Laws : (hmac : String → String → String) → AdapterLaws (wecom_adapter hmac)
unfolding wecom_adapter
wecom_adapter-Laws hmac = record { sessions = wecom_sessions hmac; leaves = wecom_leaves }

pub feishu_adapter-Laws : (hmac : String → String → String) → AdapterLaws (feishu_adapter hmac)
unfolding feishu_adapter
feishu_adapter-Laws hmac = record { sessions = feishu_sessions hmac; leaves = feishu_leaves }

pub telegram_adapter-Laws : AdapterLaws telegram_adapter
unfolding Telegram.accept_inbound
telegram_adapter-Laws = record { sessions = λ payload w. refl; leaves = telegram_leaves }
