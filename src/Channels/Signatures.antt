-- ===== src/Channels/Signatures.antt =====
-- channel_adapters/wecom_adapter/adapter.py and feishu_adapter/adapter.py: the signature of a payload.
-- `hmac.new(secret, message, sha256).hexdigest()` is an argument.
use Prim.Native.Char.{code}
use support_agent_platform.Shared.{
  ℕ, ◌+◌, ◌-◌, ◌/◌, String, ◌<>◌, Bool, true, ◌&&◌, ◌||◌, none, some, ◌==◌, ltb, leb, if◌then◌else◌,
  ℤ, pos, negsuc, Dict, end, get, Result, ok, err, type_error, Exec, lift, ◌>>=◌,
}
use support_agent_platform.Shared.Str.{str_or}
use support_agent_platform.Shared.Number.{parse_int}
use support_agent_platform.Storage.World.{World, now}
use support_agent_platform.Channels.Payload.{refusal}

unfoldable pub is_ascii : String → Bool
is_ascii String.[] = true
is_ascii (String.◌∷◌ c s) = ltb (code c) 128 && is_ascii s

-- `abs(seconds - n)`.
unfoldable pub distance : ℕ → ℤ → ℕ
distance seconds (pos n) = if leb n seconds then seconds - n else n - seconds
distance seconds (negsuc n) = seconds + n + 1

abbrev pub field : String → Dict → String
field key payload = str_or (get key payload) ""

-- The digest that a payload with these fields must carry.
abbrev pub expected : (String → String → String) → Dict → String
expected hmac payload =
    hmac (field "secret" payload) (field "timestamp" payload <> ":" <> field "nonce" payload)

module _ (channel : String) where
  -- `hmac.compare_digest` refuses texts that are not ASCII.
  unfoldable pub compare_digest : String → String → Result (Unit {0})
  unfolding is_ascii
  compare_digest signature digest =
      if is_ascii signature && is_ascii digest
      then (if signature == digest
          then ok tt
          else err (refusal channel "invalid_signature" (channel <> " signature mismatch") end))
      else err (type_error "comparing strings with non-ASCII characters is not supported")

  -- The time that a payload states, where the fields of a signature are there.
  unfoldable pub timestamp_of : Dict → Result ℤ
  unfolding parse_int str_or
  timestamp_of payload =
      if field "secret" payload == ""
        || field "timestamp" payload == ""
        || field "nonce" payload == ""
      then err (
          refusal channel "missing_signature_fields"
            (channel <> " signature verification requires secret/timestamp/nonce") end)
      else elim (parse_int (field "timestamp" payload)) [
        | none ↦
            err (refusal channel "invalid_timestamp" ("invalid " <> channel <> " timestamp") end)
        | some ts ↦ ok ts
      ]

module _ (hmac : String → String → String) (channel : String) where
  -- The time must be near, and the digest must be that of the fields.
  unfoldable pub check_at : ℕ → ℤ → String → Dict → Result (Unit {0})
  unfolding compare_digest distance
  check_at seconds ts signature payload =
      if ltb 300 (distance seconds ts)
      then err (
          refusal channel "replay_window_exceeded" (channel <> " timestamp exceeds replay window")
            end)
      else compare_digest channel signature (expected hmac payload)

  unfoldable pub check_signature : String → Dict → Exec World (Unit {0})
  unfolding timestamp_of check_at
  check_signature signature payload = do
    ts ← lift (timestamp_of channel payload)
    time ← now
    lift (check_at (time / 1000000) ts signature payload)
