-- ===== src/Tests/Ingress.antt =====
-- Messages at the ingress.
use support_agent_platform.Shared.{
  String, ◌<>◌, ◌≡◌, refl, ◌≢◌, ◌↔◌, true, false, some, [], ◌∷◌, ne_of_test, Dict, null, text, end,
  entry, get, truthy, ok,
}
use support_agent_platform.Shared.Text.{strip}
use support_agent_platform.Storage.Models.{InboundEnvelope}
use support_agent_platform.Storage.World.{World}
use support_agent_platform.Channels.Signatures.{check_signature}
use support_agent_platform.Channels.Authentic.{
  Authentic, Signed, check_signature-Authentic, feishu_adapter-SignatureLaws,
}
use support_agent_platform.Channels.Laws.{feishu_adapter-Laws}
use support_agent_platform.Channels.Feishu.{feishu_adapter}
use support_agent_platform.Channels.Telegram.{accept_inbound, telegram_adapter}
use support_agent_platform.Openclaw.Window.Deliveries.{AllTrack, AllTrack-empty, advance}
use support_agent_platform.Openclaw.SignatureValidator.{SignatureValidationResult, validate}
use support_agent_platform.Openclaw.InboundHandler.{ChannelRouter, resolve, key_of, handle}
use support_agent_platform.Openclaw.InboundHandler.Admitted.{Judged, with_session, delivery}
use support_agent_platform.Openclaw.InboundHandler.Verdicts.{handle-verdict}
use support_agent_platform.Openclaw.InboundHandler.Signed.{handle_signed}
use support_agent_platform.Tests.Stores.{empty}

-- A digest that is the secret and the message.
abbrev digest : String → String → String
digest secret message = secret <> "/" <> message

abbrev router : ChannelRouter
router = ("feishu", feishu_adapter digest) ∷ ("telegram", telegram_adapter) ∷ []

-- A signed message of feishu; the clock stands at the second 0.
abbrev payload : Dict
payload = entry "session_id" (text "s-1") (
    entry "text" (text "hello") (
      entry "event_id" (text "e-1") (
        entry "source" (text "feishu") (
          entry "secret" (text "k") (
            entry "timestamp" (text "7")
              (entry "nonce" (text "n") (entry "signature" (text "k/7:n") end)))))))

abbrev validated : SignatureValidationResult
validated = record {
  channel = "feishu";
  signature_checked = true;
  signature_valid = true;
  source_checked = true;
  source_valid = true;
  signature_required = false;
  source = some "feishu";
}

abbrev after : World
after = record empty { reads = 1 }

abbrev built : InboundEnvelope
built = record {
  channel = "feishu";
  session_id = "s-1";
  message_text = "hello";
  metadata = entry "message_id" null (
      entry "event_id" (text "e-1") (
        entry "tenant_key" null (
          entry "inbox" (text "feishu.default") (
            entry "conversation_id" (text "s-1") (
              entry "external_message_id" (text "e-1") (
                entry "contract_version" (text "feishu.v2")
                  (entry "idempotency_key_source" (text "event_id") end)))))));
}

is_built : (feishu_adapter digest).build_inbound payload ≡ ok built
unfolding feishu_adapter get
is_built = refl

is_resolved : resolve router "feishu" ≡ ok (feishu_adapter digest)
unfolding resolve
is_resolved = refl

is_validated : validate "feishu" (feishu_adapter digest) payload empty ≡ (ok validated, after)
unfolding validate feishu_adapter get
is_validated = refl

is_keyed : (feishu_adapter digest).idempotency_key payload ≡ ok (some "feishu:e-1")
unfolding feishu_adapter get
is_keyed = refl

is_chosen : key_of (some "feishu:e-1") built.metadata ≡ some "feishu:e-1"
unfolding key_of
is_chosen = refl

nonblank : strip "feishu:e-1" ≢ ""
unfolding strip
nonblank = ne_of_test "feishu:e-1" "" refl

tracked : AllTrack (λ id. []) empty
tracked = AllTrack-empty empty refl

came_through :
    (trace_id : String) × (let out = handle router "feishu" payload empty in
      Judged built trace_id "feishu:e-1" false out.0 out.1
      × AllTrack (advance (λ id. []) (delivery built trace_id "feishu:e-1")) out.1)
came_through =
    handle-verdict router "feishu" (feishu_adapter digest) (feishu_adapter-Laws digest) payload
      empty after validated built (some "feishu:e-1") "feishu:e-1" (λ id. []) is_resolved
      is_validated is_built is_keyed is_chosen nonblank tracked

handle-verdict_example :
    (trace_id : String) × (let out = handle router "feishu" payload empty in
      Judged built trace_id "feishu:e-1" false out.0 out.1
      × AllTrack (advance (λ id. []) (delivery built trace_id "feishu:e-1")) out.1)
handle-verdict_example =
    handle-verdict router "feishu" (feishu_adapter digest) (feishu_adapter-Laws digest) payload
      empty after validated built (some "feishu:e-1") "feishu:e-1" (λ id. []) is_resolved
      is_validated is_built is_keyed is_chosen nonblank tracked

handle_signed_example : Signed digest 0 payload
unfolding get truthy
handle_signed_example =
    handle_signed "feishu" (feishu_adapter digest) payload empty digest router
      (with_session built came_through.0 "feishu:e-1" came_through.1.0.0 came_through.1.0.1.0)
      (feishu_adapter-SignatureLaws digest) is_resolved refl came_through.1.0.1.1.1.1

check_signature-Authentic_example :
    ((check_signature digest "feishu" "k/7:n" payload empty).0 ≡ ok tt)
    ↔ Authentic digest 0 "k/7:n" payload
check_signature-Authentic_example = check_signature-Authentic digest "feishu" "k/7:n" payload empty

-- The adapter of telegram takes any signature.
telegram_takes_any :
    (validate "telegram" telegram_adapter
      (entry "source" (text "telegram") (entry "signature" (text "anything") end))
      empty).0
    ≡ ok (record {
      channel = "telegram";
      signature_checked = true;
      signature_valid = true;
      source_checked = true;
      source_valid = true;
      signature_required = false;
      source = some "telegram";
    })
unfolding validate get truthy accept_inbound
telegram_takes_any = refl
