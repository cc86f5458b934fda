-- ===== src/Channels/Payload.antt =====
-- channel_adapters/base.py: `BaseChannelAdapter`, and how the adapters read a payload.
use support_agent_platform.Shared.{
  String, ◌<>◌, Bool, false, Option, none, some, List, [], ◌∷◌, map, ◌==◌, if◌then◌else◌, Value,
  Dict, null, text, arr, obj, end, entry, get, truthy, of_items, to_items, Error, attribute_error,
  Result, ok, err, adapter_error, Exec,
}
use support_agent_platform.Shared.Str.{str, optional_str}
use support_agent_platform.Shared.Text.{strip, lower}
use support_agent_platform.Shared.Words.{split_comma}
use support_agent_platform.Storage.Models.{InboundEnvelope, OutboundEnvelope}
use support_agent_platform.Storage.World.{World}

-- What an adapter does; the checks of a signature read the clock.
pub record ChannelAdapter : Type 0 where
  pub channel : String
  pub verify_inbound : Dict → Exec World (Unit {0})
  pub idempotency_key : Dict → Result (Option String)
  pub build_inbound : Dict → Result InboundEnvelope
  pub build_outbound : OutboundEnvelope → Dict

-- `a or b or ...`, where some value counts as true.
unfoldable pub first_truthy : List (Option Value) → Option Value
unfolding truthy
first_truthy [] = none
first_truthy (none ∷ values) = first_truthy values
first_truthy (some v ∷ values) = if truthy v then some v else first_truthy values

-- `str(a or b or ... or "")`.
unfoldable pub text_of : List (Option Value) → String
unfolding first_truthy str
text_of values = elim (first_truthy values) [ none ↦ "" | some v ↦ str v ]

-- `d.get(key, {})`, of which an entry is read next.
unfoldable pub section : String → Dict → Result Dict
section key d = elim (get key d) [
  | none ↦ ok end
  | some (obj e) ↦ ok e
  | some v ↦ err (attribute_error "object has no attribute 'get'")
]

unfoldable pub with_section : {A : Type 0} → String → Dict → (Dict → Result A) → Result A
unfolding section
with_section key d f = elim (section key d) [ err e ↦ err e | ok e ↦ f e ]

-- `bool(d.get(key))`.
abbrev pub is_true : Option Value → Bool
is_true none = false
is_true (some v) = truthy v

abbrev pub value_of : Option Value → Value
value_of none = null
value_of (some v) = v

-- The error of an adapter, which is not to be tried again.
abbrev pub refusal : String → String → String → Dict → Error
refusal channel code message context = adapter_error (record {
  channel = channel;
  code = code;
  message = message;
  retryable = false;
  context = context;
})

-- A payload without a session, or without a text, is refused.
abbrev pub required : String → String → String → List String → Error
required channel code fields paths =
    refusal channel code (channel <> " inbound payload missing " <> fields)
      (entry "required_fields" (arr (to_items (map text paths))) end)

abbrev pub or_default : List String → List String → List String
or_default default [] = default
or_default default (s ∷ texts) = s ∷ texts

-- `_extract_source`, in the validator's form: the first entry that is not blank, stripped.
unfoldable pub extract_source : Dict → Option String
unfolding optional_str
extract_source payload = elim (optional_str (get "source" payload)) [
  | some s ↦ some s
  | none ↦ elim (optional_str (get "source_name" payload)) [
    | some s ↦ some s
    | none ↦ optional_str (get "origin" payload)
  ]
]

-- The trimmed texts of a list, in lower case, without the blank ones.
unfoldable pub trimmed : List String → List String
unfolding strip lower
trimmed [] = []
trimmed (s ∷ texts) =
    let rest = trimmed texts in if strip s == "" then rest else lower (strip s) ∷ rest

-- `_resolve_allowed_sources`: the sources that the payload names, or the default ones.
unfoldable pub allowed_sources : List String → Option Value → List String
unfolding trimmed split_comma str
allowed_sources default (some (text s)) = or_default default (trimmed (split_comma s))
allowed_sources default (some (arr items)) = or_default default (trimmed (map str (of_items items)))
allowed_sources default _ = default
