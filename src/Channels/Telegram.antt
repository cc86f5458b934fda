-- ===== src/Channels/Telegram.antt =====
-- channel_adapters/telegram_adapter/adapter.py: `TelegramAdapter`. It does not override
-- `verify_inbound` of the base class, which accepts every payload.
use support_agent_platform.Shared.{
  String, ◌<>◌, Option, none, some, [], ◌∷◌, ◌==◌, if◌then◌else◌, Value, Dict, null, text, obj, end,
  entry, get, Result, ok, err, Exec,
}
use support_agent_platform.Shared.Str.{str, str_or}
use support_agent_platform.Storage.Models.{InboundEnvelope, OutboundEnvelope}
use support_agent_platform.Storage.World.{World}
use support_agent_platform.Channels.Payload.{
  ChannelAdapter, text_of, value_of, required, with_section,
}

-- `BaseChannelAdapter.verify_inbound`.
unfoldable pub accept_inbound : Dict → Exec World (Unit {0})
accept_inbound payload w = (ok tt, w)

-- A value that is not null.
abbrev pub present : Option Value → Option Value
present (some null) = none
present v = v

-- The identifier of the update, or the chat and the message.
unfoldable pub idempotency_key : Dict → Result (Option String)
unfolding with_section str
idempotency_key payload = elim (present (get "update_id" payload)) [
  | some id ↦ ok (some ("telegram:" <> str id))
  | none ↦ with_section "message" payload λ message. with_section "chat" message λ chat.
      ok (elim (present (get "message_id" message)) [
        | none ↦ none
        | some id ↦ elim (present (get "id" chat)) [
          | none ↦ none
          | some chat_id ↦ some ("telegram:" <> str chat_id <> ":" <> str id)
        ]
      ])
]

module _ (payload message chat : Dict) where
  abbrev pub session_of : String
  session_of = text_of (get "id" chat ∷ get "session_id" payload ∷ [])

  abbrev pub message_of : String
  message_of = text_of (get "text" message ∷ get "text" payload ∷ [])

  abbrev external_id : Value
  external_id = elim (present (get "update_id" payload)) [
    | some id ↦ id
    | none ↦ value_of (get "message_id" message)
  ]

  abbrev key_source : String
  key_source = elim (present (get "update_id" payload)) [
    | some id ↦ "update_id"
    | none ↦ "message.message_id"
  ]

  unfoldable pub inbound_metadata : Dict
  unfolding str_or text_of
  inbound_metadata = entry "update_id" (value_of (get "update_id" payload)) (
      entry "message_id" (value_of (get "message_id" message)) (
        entry "username" (value_of (get "username" chat)) (
          entry "inbox" (text (str_or (get "inbox" payload) "telegram.default")) (
            entry "conversation_id" (text session_of) (
              entry "external_message_id" external_id (
                entry "contract_version" (text "telegram.v2")
                  (entry "idempotency_key_source" (text key_source) end)))))))

  unfoldable pub envelope_of : Result InboundEnvelope
  unfolding text_of inbound_metadata
  envelope_of =
      if session_of == ""
      then err (
          required "telegram" "missing_session_id" "chat.id/session_id"
            ("message.chat.id" ∷ "session_id" ∷ []))
      else if message_of == ""
      then err (
          required "telegram" "missing_message_text" "message.text/text"
            ("message.text" ∷ "text" ∷ []))
      else ok (record {
        channel = "telegram";
        session_id = session_of;
        message_text = message_of;
        metadata = inbound_metadata;
      })

unfoldable pub build_inbound : Dict → Result InboundEnvelope
unfolding with_section envelope_of
build_inbound payload =
    with_section "message" payload
      λ message. with_section "chat" message λ chat. envelope_of payload message chat

unfoldable pub build_outbound : OutboundEnvelope → Dict
build_outbound e =
    entry "chat_id" (text e.session_id)
      (entry "text" (text e.body) (entry "metadata" (obj e.metadata) end))

abbrev pub telegram_adapter : ChannelAdapter
telegram_adapter = record {
  channel = "telegram";
  verify_inbound = accept_inbound;
  idempotency_key = idempotency_key;
  build_inbound = build_inbound;
  build_outbound = build_outbound;
}
