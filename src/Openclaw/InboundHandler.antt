-- ===== src/Openclaw/InboundHandler.antt =====
-- openclaw_adapter/channel_router.py and inbound_handler.py: from a payload of a channel to a message.
-- What is written to the trace log is left out.
pub mod Admitted
pub mod Verdicts
pub mod Signed
use support_agent_platform.Shared.{
  String, ◌<>◌, Option, none, some, List, [], ◌∷◌, map, ◌==◌, if◌then◌else◌, ℤ, Dict, int, text,
  end, entry, get, merge, Result, ok, err, value_error, Exec, pure, lift, ◌>>=◌, ◌>>◌,
}
use support_agent_platform.Shared.Sort.{sort_in, sort_texts}
use support_agent_platform.Shared.Text.{lower, prefix}
use support_agent_platform.Shared.Str.{str_or, of_option}
use support_agent_platform.Shared.Words.{join}
use support_agent_platform.Storage.Models.{InboundEnvelope, SessionBinding}
use support_agent_platform.Storage.World.{World, new_uuid}
use support_agent_platform.Channels.Payload.{ChannelAdapter}
use support_agent_platform.Openclaw.SessionMapper.{get_or_create, get_binding, replay_count_of}
use support_agent_platform.Openclaw.ReplayGuard
use support_agent_platform.Openclaw.ReplayGuard.{enforce}
use support_agent_platform.Openclaw.SignatureValidator.{validate}

-- `ChannelRouter`, whose names are in lower case.
abbrev pub ChannelRouter : Type 0
ChannelRouter = List (String × ChannelAdapter)

unfoldable pub find_adapter : String → ChannelRouter → Option ChannelAdapter
find_adapter name [] = none
find_adapter name ((channel, adapter) ∷ router) =
    if channel == name then some adapter else find_adapter name router

-- `resolve`; the channels that the error names are sorted.
unfoldable pub resolve : ChannelRouter → String → Result ChannelAdapter
unfolding find_adapter lower join sort_in
resolve router channel = elim (find_adapter (lower channel) router) [
  | some adapter ↦ ok adapter
  | none ↦ err (
      value_error (
        "Unsupported channel '"
        <> channel
        <> "'. Supported: "
        <> join ", " (sort_texts (map (λ (row : String × ChannelAdapter). row.0) router))))
]

-- `str(payload.get("trace_id") or metadata.get("trace_id") or new_trace_id())`.
unfoldable pub trace_id_of : Dict → Dict → Exec World String
unfolding str_or prefix
trace_id_of payload metadata w =
    let known = str_or (get "trace_id" payload) (str_or (get "trace_id" metadata) "") in
    let drawn = (do hex ← new_uuid; pure ("trace_" <> prefix 16 hex)) in
    if known == "" then drawn w else (ok known, w)

-- The adapter's key, or the identifier of the message.
unfoldable pub key_of : Option String → Dict → Option String
unfolding str_or
key_of key metadata =
    let external = str_or (get "external_message_id" metadata) "" in
    let other = if external == "" then none else some external in
    elim key [ none ↦ other | some k ↦ if k == "" then other else some k ]

-- The metadata that the message brings to its session.
abbrev pub session_metadata : InboundEnvelope → String → String → Dict
session_metadata inbound trace_id inbox =
    merge
      (entry "channel" (text inbound.channel)
        (entry "trace_id" (text trace_id) (entry "inbox" (text inbox) end)))
      inbound.metadata

abbrev pub inbox_of : InboundEnvelope → String
inbox_of inbound = str_or (get "inbox" inbound.metadata) (inbound.channel <> ".default")

-- The message with what its session knows.
unfoldable pub enriched :
    InboundEnvelope → String → Option String → SessionBinding → ℤ → InboundEnvelope
unfolding str_or
enriched inbound trace_id key binding replays = record inbound {
  metadata = merge inbound.metadata (
      entry "trace_id" (text trace_id) (
        entry "inbox" (text (inbox_of inbound)) (
          entry "thread_id" (text binding.thread_id) (
            entry "ticket_id" (of_option binding.ticket_id) (
              entry "idempotency_key" (of_option key) (entry "replay_count" (int replays) end))))));
}

abbrev pub latest : Option SessionBinding → SessionBinding → SessionBinding
latest none b = b
latest (some c) b = c

-- The session, the replay guard, and the message with its session.
unfoldable pub admit_keyed : InboundEnvelope → String → Option String → Exec World InboundEnvelope
unfolding enriched
admit_keyed inbound trace_id key = do
  binding ← get_or_create inbound.session_id (session_metadata inbound trace_id (inbox_of inbound))
  decision ← ReplayGuard.evaluate inbound.channel inbound.session_id key (some trace_id)
  enforce decision
  refreshed ← get_binding inbound.session_id
  replays ← lift (replay_count_of (latest refreshed binding).metadata)
  pure (enriched inbound trace_id key (latest refreshed binding) replays)

-- From the envelope on.
unfoldable pub admit_inbound : ChannelAdapter → Dict → InboundEnvelope → Exec World InboundEnvelope
unfolding trace_id_of key_of
admit_inbound adapter payload inbound = do
  trace_id ← trace_id_of payload inbound.metadata
  key ← lift (adapter.idempotency_key payload)
  admit_keyed inbound trace_id (key_of key inbound.metadata)

unfoldable pub handle : ChannelRouter → String → Dict → Exec World InboundEnvelope
unfolding resolve validate admit_inbound
handle router channel payload = do
  adapter ← lift (resolve router channel)
  validate channel adapter payload
  inbound ← lift (adapter.build_inbound payload)
  admit_inbound adapter payload inbound
