-- ===== src/Channels/Feishu.antt =====
-- channel_adapters/feishu_adapter/adapter.py: `FeishuAdapter`.
use support_agent_platform.Shared.{
  String, ◌<>◌, Option, none, some, [], ◌∷◌, ◌==◌, if◌then◌else◌, Value, Dict, text, obj, end,
  entry, get, Result, ok, err, Exec,
}
use support_agent_platform.Shared.Str.{str}
use support_agent_platform.Storage.Models.{InboundEnvelope, OutboundEnvelope}
use support_agent_platform.Storage.World.{World}
use support_agent_platform.Channels.Payload.{
  ChannelAdapter, first_truthy, text_of, value_of, is_true, required, with_section,
}
use support_agent_platform.Channels.Signatures.{check_signature}

unfoldable pub verify_inbound : (String → String → String) → Dict → Exec World (Unit {0})
unfolding check_signature first_truthy str
verify_inbound hmac payload w = elim (first_truthy (get "signature" payload ∷ [])) [
  | none ↦ (ok tt, w)
  | some signature ↦ check_signature hmac "feishu" (str signature) payload w
]

-- `payload.get("event", {}).get("message", {}).get("message_id")`, or the event's identifier.
unfoldable pub idempotency_key : Dict → Result (Option String)
unfolding with_section first_truthy str
idempotency_key payload = with_section "event" payload λ event.
    with_section "message" event λ message.
      ok (elim (first_truthy (get "message_id" message ∷ get "event_id" payload ∷ [])) [
        | none ↦ none
        | some id ↦ some ("feishu:" <> str id)
      ])

-- The parts of a payload that a message is made of.
pub record Parts : Type 0 where
  pub payload : Dict
  pub event : Dict
  pub sender_id : Dict
  pub message : Dict

abbrev pub session_of : Parts → String
session_of p =
    text_of
      (get "open_id" p.sender_id ∷ get "union_id" p.sender_id ∷ get "session_id" p.payload ∷ [])

abbrev pub message_of : Parts → String
message_of p = text_of (get "text" p.message ∷ get "text" p.payload ∷ [])

abbrev inbox_of : Parts → String
inbox_of p = elim (first_truthy (get "inbox" p.payload ∷ get "chat_id" p.event ∷ [])) [
  | none ↦ "feishu.default"
  | some v ↦ str v
]

abbrev external_id : Parts → Value
external_id p = elim (first_truthy (get "message_id" p.message ∷ [])) [
  | some id ↦ id
  | none ↦ value_of (get "event_id" p.payload)
]

unfoldable pub inbound_metadata : Parts → Dict
unfolding first_truthy str text_of
inbound_metadata p = entry "message_id" (value_of (get "message_id" p.message)) (
    entry "event_id" (value_of (get "event_id" p.payload)) (
      entry "tenant_key" (value_of (get "tenant_key" p.payload)) (
        entry "inbox" (text (inbox_of p)) (
          entry "conversation_id" (text (session_of p)) (
            entry "external_message_id" (external_id p) (
              entry "contract_version" (text "feishu.v2") (
                entry "idempotency_key_source"
                  (text (
                    if is_true (get "message_id" p.message)
                    then "message.message_id"
                    else "event_id"))
                  end)))))))

unfoldable pub envelope_of : Parts → Result InboundEnvelope
unfolding text_of inbound_metadata
envelope_of p =
    if session_of p == ""
    then err (
        required "feishu" "missing_session_id" "sender_id/session_id"
          ("event.sender.sender_id.open_id" ∷ "session_id" ∷ []))
    else if message_of p == ""
    then err (
        required "feishu" "missing_message_text" "message.text/text"
          ("event.message.text" ∷ "text" ∷ []))
    else ok (record {
      channel = "feishu";
      session_id = session_of p;
      message_text = message_of p;
      metadata = inbound_metadata p;
    })

unfoldable pub build_inbound : Dict → Result InboundEnvelope
unfolding with_section envelope_of
build_inbound payload = with_section "event" payload λ event. with_section "sender" event λ sender.
    with_section "sender_id" sender λ sender_id. with_section "message" event λ message.
      envelope_of
        (record { payload = payload; event = event; sender_id = sender_id; message = message })

unfoldable pub build_outbound : OutboundEnvelope → Dict
build_outbound e = entry "receive_id" (text e.session_id) (
    entry "msg_type" (text "text") (
      entry "content" (obj (entry "text" (text e.body) end))
        (entry "metadata" (obj e.metadata) end)))

unfoldable pub feishu_adapter : (String → String → String) → ChannelAdapter
unfolding verify_inbound idempotency_key build_inbound build_outbound
feishu_adapter hmac = record {
  channel = "feishu";
  verify_inbound = verify_inbound hmac;
  idempotency_key = idempotency_key;
  build_inbound = build_inbound;
  build_outbound = build_outbound;
}
