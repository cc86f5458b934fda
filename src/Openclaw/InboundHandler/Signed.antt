-- ===== src/Openclaw/InboundHandler/Signed.antt =====
-- openclaw_adapter/inbound_handler.py and signature_validator.py: which signed messages come through.
use support_agent_platform.Shared.{
  ◌/◌, String, ◌≡◌, refl, inl, inr, Bool, true, false, ◌&&◌, ◌||◌, arith, Bool-cases, Dict, Result,
  ok, err, Exec, pure, proceed, ◌>>=◌, ◌>>◌,
}
use support_agent_platform.Storage.Models.{InboundEnvelope}
use support_agent_platform.Storage.World.{World}
use support_agent_platform.Channels.Payload.{ChannelAdapter, extract_source}
use support_agent_platform.Channels.Authentic.{Signed, SignatureLaws}
use support_agent_platform.Openclaw.SignatureValidator.{
  SignatureValidationResult, has_signature, needs_signature, validate, check_signature,
  check_source,
}
use support_agent_platform.Openclaw.InboundHandler.{ChannelRouter, resolve, handle}

-- What returned went through its first part.
bind_returned :
    {A B : Type 0} (m : Exec World A) (f : A → Exec World B) (w : World) (b : B)
    → ((m >>= f) w).0 ≡ ok b
    → (a : A) × ((m w).0 ≡ ok a)
bind_returned {A} {B} m f w b h = by_result (m w).0 refl h
  where
    by_result :
        (r : Result A) → (m w).0 ≡ r → (proceed r f (m w).1).0 ≡ ok b → (a : A) × ((m w).0 ≡ ok a)
    by_result (ok a) e k = (a, e)
    by_result (err e') e k = absurd (ground arith)

and_false : (b : Bool) → (b && false) ≡ false
and_false true = refl
and_false false = refl

module _ (channel : String) (adapter : ChannelAdapter) (payload : Dict) (w : World) where
  -- The result of a signature's check, where the validation returns.
  checked :
      (c : SignatureValidationResult)
      → (validate channel adapter payload w).0 ≡ ok c
      → (check_signature channel adapter payload w).0 ≡ ok tt
  unfolding validate
  checked c h = by_source (check_source channel payload) h
    where
      then_signature : Bool → Exec World SignatureValidationResult
      then_signature b = do
        check_signature channel adapter payload
        pure (record {
          channel = channel;
          signature_checked = has_signature payload;
          signature_valid = true;
          source_checked = b;
          source_valid = true;
          signature_required = needs_signature payload;
          source = extract_source payload;
        })

      by_source :
          (r : Result Bool)
          → (proceed r then_signature w).0 ≡ ok c
          → (check_signature channel adapter payload w).0 ≡ ok tt
      by_source (err e) k = absurd (ground arith)
      by_source (ok b) k = (bind_returned (check_signature channel adapter payload) _ w c k).1

  -- A payload that asks for a signature, or has one, must have one that the adapter accepts.
  accepted :
      (has_signature payload || needs_signature payload) ≡ true
      → (check_signature channel adapter payload w).0 ≡ ok tt
      → (has_signature payload ≡ true) × ((adapter.verify_inbound payload w).0 ≡ ok tt)
  unfolding check_signature
  accepted asked h = elim (Bool-cases (has_signature payload)) [
    | inl e ↦ (e, rw (check_signature, e, and_false (needs_signature payload)) at h)
    | inr e ↦ absurd (ground arith)
  ]

  -- Whatever message comes through an adapter that checks signatures, as those of wecom and feishu do:
  -- if its payload has a signature, or requires one, it has one that is authentic when the message
  -- is handled.
  pub handle_signed :
      (hmac : String → String → String) (router : ChannelRouter) (inbound : InboundEnvelope)
      → SignatureLaws hmac adapter
      → resolve router channel ≡ ok adapter
      → (has_signature payload || needs_signature payload) ≡ true
      → (handle router channel payload w).0 ≡ ok inbound
      → Signed hmac (w.clock w.reads / 1000000) payload
  unfolding handle
  handle_signed hmac router inbound laws resolved asked returned =
      let after = rw (handle, resolved) at returned in
      let (c, validated) = bind_returned (validate channel adapter payload) _ w inbound after in
      let (carried, verified) = accepted asked (checked c validated) in
      laws.signed payload w carried verified
