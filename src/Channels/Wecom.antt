-- ===== src/Channels/Wecom.antt =====
-- channel_adapters/wecom_adapter/adapter.py: `WeComAdapter`.
use support_agent_platform.Shared.{
  String, ◌<>◌, Bool, Option, none, some, List, [], ◌∷◌, map, ◌==◌, if◌then◌else◌, contains, Value,
  Dict, text, arr, obj, end, entry, get, truthy, to_items, Error, Result, ok, err, Exec,
}
use support_agent_platform.Shared.Sort.{sort_in, sort_texts}
use support_agent_platform.Shared.Text.{lower}
use support_agent_platform.Shared.Str.{str, str_or, of_option}
use support_agent_platform.Storage.Models.{InboundEnvelope, OutboundEnvelope}
use support_agent_platform.Storage.World.{World}
use support_agent_platform.Core.Sla.Rules.{distinct}
use support_agent_platform.Channels.Payload.{
  ChannelAdapter, first_truthy, text_of, value_of, is_true, refusal, required, extract_source,
  allowed_sources,
}
use support_agent_platform.Channels.Signatures.{check_signature}

abbrev pub wecom_sources : List String
wecom_sources = "wecom" ∷ "wecom_bridge" ∷ "openclaw_replay" ∷ []

-- `_extract_source`, in lower case.
unfoldable pub lower_source : Dict → Option String
unfolding extract_source lower
lower_source payload = elim (extract_source payload) [ none ↦ none | some s ↦ some (lower s) ]

abbrev pub untrusted : String → String → List String → Error
untrusted channel source allowed =
    refusal channel "invalid_source" (channel <> " source is not trusted: " <> source)
      (entry "allowed_sources" (arr (to_items (map text (sort_texts (distinct [] allowed))))) end)

-- The checks of the source, which a signed payload passes first.
unfoldable pub check_source : Bool → Option String → List String → Result (Unit {0})
unfolding sort_in distinct
check_source needed none allowed =
    if needed
    then err (refusal "wecom" "missing_source" "wecom source validation requires source" end)
    else ok tt
check_source needed (some s) allowed =
    if contains allowed s then ok tt else err (untrusted "wecom" s allowed)

unfoldable pub verify_inbound : (String → String → String) → Dict → Exec World (Unit {0})
unfolding check_source lower_source allowed_sources check_signature first_truthy str truthy
verify_inbound hmac payload w =
    elim (first_truthy (get "signature" payload ∷ get "msg_signature" payload ∷ [])) [
      | none ↦ (ok tt, w)
      | some signature ↦
          elim (check_source (is_true (get "require_source_validation" payload))
            (lower_source payload)
            (allowed_sources wecom_sources (get "allowed_sources" payload))) [
              | err e ↦ (err e, w)
              | ok u ↦ check_signature hmac "wecom" (str signature) payload w
            ]
    ]

-- The identifier of the message, or its sender and time.
unfoldable pub idempotency_key : Dict → Option String
unfolding first_truthy str
idempotency_key payload = elim (first_truthy (get "MsgId" payload ∷ [])) [
  | some id ↦ some ("wecom:" <> str id)
  | none ↦ elim (first_truthy (get "session_id" payload ∷ get "FromUserName" payload ∷ [])) [
    | none ↦ none
    | some session ↦ elim (first_truthy (get "CreateTime" payload ∷ [])) [
      | none ↦ none
      | some time ↦ some ("wecom:" <> str session <> ":" <> str time)
    ]
  ]
]

abbrev pub session_of : Dict → String
session_of payload = text_of (get "session_id" payload ∷ get "FromUserName" payload ∷ [])

abbrev pub message_of : Dict → String
message_of payload = text_of (get "Content" payload ∷ get "text" payload ∷ [])

-- `msg_id or payload.get("CreateTime")`, whatever the second is.
abbrev external_id : Dict → Value
external_id payload = elim (first_truthy (get "MsgId" payload ∷ [])) [
  | some id ↦ id
  | none ↦ value_of (get "CreateTime" payload)
]

unfoldable pub inbound_metadata : Dict → Dict
unfolding first_truthy str_or lower_source
inbound_metadata payload = entry "msg_id" (value_of (get "MsgId" payload)) (
    entry "agent_id" (value_of (get "AgentID" payload)) (
      entry "create_time" (value_of (get "CreateTime" payload)) (
        entry "inbox" (text (str_or (get "inbox" payload) "wecom.default")) (
          entry "conversation_id" (text (session_of payload)) (
            entry "external_message_id" (external_id payload) (
              entry "contract_version" (text "wecom.v2") (
                entry "idempotency_key_source"
                  (text
                    (if is_true (get "MsgId" payload) then "MsgId" else "FromUserName+CreateTime"))
                  (entry "source" (of_option (lower_source payload)) end))))))))

unfoldable pub build_inbound : Dict → Result InboundEnvelope
unfolding text_of inbound_metadata
build_inbound payload =
    if session_of payload == ""
    then err (
        required "wecom" "missing_session_id" "FromUserName/session_id"
          ("FromUserName" ∷ "session_id" ∷ []))
    else if message_of payload == ""
    then err (required "wecom" "missing_message_text" "Content/text" ("Content" ∷ "text" ∷ []))
    else ok (record {
      channel = "wecom";
      session_id = session_of payload;
      message_text = message_of payload;
      metadata = inbound_metadata payload;
    })

unfoldable pub build_outbound : OutboundEnvelope → Dict
build_outbound e = entry "touser" (text e.session_id) (
    entry "msgtype" (text "text") (
      entry "text" (obj (entry "content" (text e.body) end))
        (entry "metadata" (obj e.metadata) end)))

unfoldable pub wecom_adapter : (String → String → String) → ChannelAdapter
unfolding verify_inbound idempotency_key build_inbound build_outbound
wecom_adapter hmac = record {
  channel = "wecom";
  verify_inbound = verify_inbound hmac;
  idempotency_key = λ payload. ok (idempotency_key payload);
  build_inbound = build_inbound;
  build_outbound = build_outbound;
}
