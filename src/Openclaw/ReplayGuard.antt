-- ===== src/Openclaw/ReplayGuard.antt =====
-- openclaw_adapter/replay_guard.py: `ReplayGuard`. What it writes to the trace log is left out.
use support_agent_platform.Shared.{
  String, ◌<>◌, Bool, true, false, Option, none, some, ◌==◌, if◌then◌else◌, ℤ, pos, end, entry,
  Error, ok, err, adapter_error, Exec, pure, lift, ◌>>=◌,
}
use support_agent_platform.Shared.Str.{of_option}
use support_agent_platform.Storage.Models.{SessionBinding}
use support_agent_platform.Storage.World.{World}
use support_agent_platform.Openclaw.SessionMapper.{record_idempotency_key, replay_count_of}

pub record ReplayDecision : Type 0 where
  pub channel : String
  pub session_id : String
  pub idempotency_key : Option String
  pub accepted : Bool
  pub replay_count : ℤ
  pub reason : Option String

-- `not idempotency_key`.
abbrev pub is_missing : Option String → Bool
is_missing none = true
is_missing (some key) = key == ""

abbrev pub key_or_empty : Option String → String
key_or_empty none = ""
key_or_empty (some key) = key

unfoldable pub decide : String → String → String → Bool → SessionBinding → Exec World ReplayDecision
decide channel session_id key accepted binding = do
  replays ← lift (replay_count_of binding.metadata)
  pure (record {
    channel = channel;
    session_id = session_id;
    idempotency_key = some key;
    accepted = accepted;
    replay_count = replays;
    reason = if accepted then none else some "duplicate_webhook";
  })

unfoldable pub evaluate :
    String → String → Option String → Option String → Exec World ReplayDecision
evaluate channel session_id key trace_id w =
    let checked = (do
      (accepted, binding) ←
          record_idempotency_key session_id (key_or_empty key) trace_id (some channel) 50
      decide channel session_id (key_or_empty key) accepted binding) in
    if is_missing key
    then (
      ok (record {
        channel = channel;
        session_id = session_id;
        idempotency_key = none;
        accepted = true;
        replay_count = pos 0;
        reason = some "missing_idempotency_key";
      }),
      w,
    )
    else checked w

abbrev optional_text : Option String → String
optional_text none = "None"
optional_text (some s) = s

-- The error that refuses a repeated message.
abbrev pub duplicate_webhook : String → Option String → Error
duplicate_webhook channel key = adapter_error (record {
  channel = channel;
  code = "duplicate_webhook";
  message = "duplicate inbound webhook: " <> optional_text key;
  retryable = false;
  context = entry "idempotency_key" (of_option key) end;
})

unfoldable pub enforce : ReplayDecision → Exec World Unit
enforce d w =
    if d.accepted then (ok tt, w) else (err (duplicate_webhook d.channel d.idempotency_key), w)
