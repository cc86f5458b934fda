-- ===== src/Openclaw/Gateway.antt =====
-- openclaw_adapter/gateway.py: `OpenClawGateway`. What it writes to the trace log is left out.
use support_agent_platform.Shared.{
  String, ◌<>◌, ◌||◌, none, some, ◌==◌, if◌then◌else◌, pos, Dict, get, ChannelAdapterError, Result,
  ok, err, runtime_error, adapter_error, Exec, pure, lift, ◌>>=◌, ◌>>◌,
}
use support_agent_platform.Shared.Text.{begins_with}
use support_agent_platform.Shared.Str.{str, str_or}
use support_agent_platform.Storage.Models.{InboundEnvelope, OutboundEnvelope}
use support_agent_platform.Storage.World.{World}
use support_agent_platform.Openclaw.SessionMapper.{set_ticket_id}
use support_agent_platform.Openclaw.OutboundSender.{
  Outcome, delivered, failed, unreachable, rendered, send,
}
use support_agent_platform.Openclaw.InboundHandler.{ChannelRouter, resolve, handle}

-- What `receive` returns.
pub data Response : Type 0 where
  accepted : String → InboundEnvelope → Dict → Response
  refused : String → String → ChannelAdapterError → Response

-- `_map_error_status`.
unfoldable pub map_error_status : String → String
unfolding begins_with
map_error_status code =
    if code == "duplicate_webhook"
    then "duplicate_ignored"
    else if begins_with "missing_" code || begins_with "invalid_" code
    then "invalid_payload"
    else "error"

-- The end of the sender's loop as a result.
unfoldable pub sent : Outcome → Result Dict
sent (delivered payload n) = ok payload
sent (failed e n) = err (adapter_error e)
sent unreachable = err (runtime_error "unreachable")

-- `OutboundSender.send` with its default of two retries, over an adapter that renders.
unfoldable pub send_outbound : ChannelRouter → OutboundEnvelope → Result Dict
unfolding sent resolve send
send_outbound router e = elim (resolve router e.channel) [
  | err error ↦ err error
  | ok adapter ↦ sent (send e.channel (λ n. rendered (adapter.build_outbound e)) (pos 2))
]

-- The reply that acknowledges a message.
abbrev pub acknowledgement : InboundEnvelope → OutboundEnvelope
acknowledgement inbound = record {
  channel = inbound.channel;
  session_id = inbound.session_id;
  body = "[gateway-ack] " <> inbound.message_text;
  metadata = inbound.metadata;
}

-- `str(metadata.get("trace_id", ""))`.
abbrev trace_of : Dict → String
trace_of metadata = elim (get "trace_id" metadata) [ none ↦ "" | some v ↦ str v ]

-- The body of the `try` block.
unfoldable pub attempt : ChannelRouter → String → Dict → Exec World Response
unfolding str send_outbound
attempt router channel payload = do
  inbound ← handle router channel payload
  outbound ← lift (send_outbound router (acknowledgement inbound))
  pure (accepted (trace_of inbound.metadata) inbound outbound)

-- `except ChannelAdapterError`: any other exception goes on.
unfoldable pub recovered : Dict → Result Response → Result Response
unfolding str_or map_error_status
recovered payload (err (adapter_error e)) =
    ok (refused (map_error_status e.code) (str_or (get "trace_id" payload) "") e)
recovered payload r = r

unfoldable pub receive : ChannelRouter → String → Dict → Exec World Response
unfolding attempt recovered
receive router channel payload w =
    let (r, v) = attempt router channel payload w in (recovered payload r, v)

unfoldable pub bind_ticket : String → String → Dict → Exec World (Unit {0})
bind_ticket session_id ticket_id metadata = do set_ticket_id session_id ticket_id metadata; pure tt
