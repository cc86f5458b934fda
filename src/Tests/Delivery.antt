-- ===== src/Tests/Delivery.antt =====
-- Messages that are sent to a channel.
use support_agent_platform.Shared.{
  ℕ, ◌≡◌, refl, false, eqb, if◌then◌else◌, pos, end, ChannelAdapterError,
}
use support_agent_platform.Openclaw.RetryManager
use support_agent_platform.Openclaw.OutboundSender.{
  Rendering, rendered, refused, delivered, send, Sends, send-Sends,
}

abbrev busy : ChannelAdapterError
busy = record {
  channel = "wecom";
  code = "HTTP_BUSY";
  message = "later";
  retryable = false;
  context = end;
}

-- The first rendering fails with a temporary error.
abbrev render : ℕ → Rendering
render n = if eqb n 1 then refused busy else rendered end

sent : send "wecom" render (pos 2) ≡ delivered end 2
unfolding send RetryManager.decide
sent = refl

send-Sends_example : Sends "wecom" render 3 1 (send "wecom" render (pos 2))
send-Sends_example = send-Sends "wecom" render 2
