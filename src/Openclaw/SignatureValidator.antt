-- ===== src/Openclaw/SignatureValidator.antt =====
-- openclaw_adapter/signature_validator.py: `SignatureValidator.validate`.
use support_agent_platform.Shared.{
  String, ◌<>◌, Bool, true, false, not, ◌&&◌, ◌||◌, Option, none, some, List, [], ◌∷◌, map, ◌==◌,
  if◌then◌else◌, contains, Dict, text, arr, end, entry, get, to_items, Result, ok, err, Exec, pure,
  lift, ◌>>=◌, ◌>>◌,
}
use support_agent_platform.Shared.Sort.{sort_in, sort_texts}
use support_agent_platform.Storage.World.{World}
use support_agent_platform.Core.Sla.Rules.{distinct}
use support_agent_platform.Channels.Payload.{
  ChannelAdapter, is_true, refusal, extract_source, allowed_sources,
}

pub record SignatureValidationResult : Type 0 where
  pub channel : String
  pub signature_checked : Bool
  pub signature_valid : Bool
  pub source_checked : Bool
  pub source_valid : Bool
  pub signature_required : Bool
  pub source : Option String

-- `_DEFAULT_ALLOWED_SOURCES.get(channel, set())`.
unfoldable pub default_sources : String → List String
default_sources channel =
    if channel == "wecom"
    then "wecom" ∷ "wecom_bridge" ∷ "openclaw_replay" ∷ []
    else if channel == "feishu"
    then "feishu" ∷ "openclaw_replay" ∷ []
    else if channel == "telegram"
    then "telegram" ∷ "openclaw_replay" ∷ []
    else []

abbrev pub has_signature : Dict → Bool
has_signature payload = is_true (get "signature" payload)

abbrev pub asks_source : Dict → Bool
asks_source payload = has_signature payload || is_true (get "require_source_validation" payload)

abbrev pub needs_signature : Dict → Bool
needs_signature payload = is_true (get "require_signature" payload)

-- Whether the source is checked, where it may be; a check that fails is an error.
unfoldable pub source_among : String → Option String → List String → Result Bool
unfolding sort_in distinct
source_among channel source [] = ok false
source_among channel none (a ∷ allowed) =
    err (refusal channel "missing_source" (channel <> " source validation requires source") end)
source_among channel (some s) (a ∷ allowed) =
    if s == ""
    then err
        (refusal channel "missing_source" (channel <> " source validation requires source") end)
    else if contains (a ∷ allowed) s
    then ok true
    else err (
        refusal channel "invalid_source" (channel <> " source is not trusted: " <> s) (
          entry "allowed_sources"
            (arr (to_items (map text (sort_texts (distinct [] (a ∷ allowed)))))) end))

unfoldable pub check_source : String → Dict → Result Bool
unfolding source_among extract_source allowed_sources default_sources
check_source channel payload =
    if asks_source payload
    then source_among channel (extract_source payload)
        (allowed_sources (default_sources channel) (get "allowed_sources" payload))
    else ok false

module _ (channel : String) (adapter : ChannelAdapter) where
  -- The signature, after the source.
  unfoldable pub check_signature : Dict → Exec World (Unit {0})
  check_signature payload w =
      if needs_signature payload && not (has_signature payload)
      then (err (refusal channel "missing_signature" (channel <> " signature is required") end), w)
      else if has_signature payload
      then adapter.verify_inbound payload w
      else (ok tt, w)

  unfoldable pub validate : Dict → Exec World SignatureValidationResult
  unfolding check_source check_signature extract_source
  validate payload = do
    checked ← lift (check_source channel payload)
    check_signature payload
    pure (record {
      channel = channel;
      signature_checked = has_signature payload;
      signature_valid = true;
      source_checked = checked;
      source_valid = true;
      signature_required = needs_signature payload;
      source = extract_source payload;
    })
