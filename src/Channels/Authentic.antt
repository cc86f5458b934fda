-- ===== src/Channels/Authentic.antt =====
-- channel_adapters/wecom_adapter/adapter.py and feishu_adapter/adapter.py: what an accepted signature
-- says.
use support_agent_platform.Shared.{
  ℕ, suc, ◌/◌, ◌≤◌, String, ◌≡◌, refl, ◌≢◌, ◌↔◌, inl, inr, true, false, Option, some, List, [], ◌∷◌,
  arith, ◌==◌, eq_iff, ltb, Option-cases, ne_of_test, test_of_ne, ==_refl, ℤ, Value, Dict, get,
  Result, ok, err, proceed,
}
use support_agent_platform.Shared.Str.{str}
use support_agent_platform.Shared.Number.{parse_int}
use support_agent_platform.Storage.World.{World}
use support_agent_platform.Channels.Payload.{ChannelAdapter, first_truthy, is_true}
use support_agent_platform.Channels.Signatures.{
  field, expected, distance, compare_digest, timestamp_of, check_at, check_signature, is_ascii,
}
use support_agent_platform.Channels.Wecom
use support_agent_platform.Channels.Wecom.{wecom_adapter}
use support_agent_platform.Channels.Feishu
use support_agent_platform.Channels.Feishu.{feishu_adapter}

-- A payload is signed at a time in seconds: it has the three fields, states a time that is no more
-- than 300 seconds away, and its signature is the digest of the fields under its secret.
pub record Authentic (hmac : String → String → String) (seconds : ℕ) (signature : String)
    (payload : Dict) : Type 0 where
  pub secret : field "secret" payload ≢ ""
  pub timestamp : field "timestamp" payload ≢ ""
  pub nonce : field "nonce" payload ≢ ""
  pub stated : ℤ
  pub reads : parse_int (field "timestamp" payload) ≡ some stated
  pub near : distance seconds stated ≤ 300
  pub matches : signature ≡ expected hmac payload
  pub ascii : is_ascii signature ≡ true

module _ (hmac : String → String → String) (channel signature : String) (payload : Dict) where
  -- What a payload with a time that can be read has.
  record Stated (ts : ℤ) : Type 0 where
    secret : (field "secret" payload == "") ≡ false
    timestamp : (field "timestamp" payload == "") ≡ false
    nonce : (field "nonce" payload == "") ≡ false
    reads : parse_int (field "timestamp" payload) ≡ some ts

  timestamp_of-ok : (ts : ℤ) → timestamp_of channel payload ≡ ok ts → Stated ts
  unfolding timestamp_of
  timestamp_of-ok ts h = ground arith

  check_at-ok :
      (seconds : ℕ) (ts : ℤ)
      → check_at hmac channel seconds ts signature payload ≡ ok tt
      → (distance seconds ts ≤ 300)
        × (signature ≡ expected hmac payload)
        × (is_ascii signature ≡ true)
  unfolding check_at compare_digest
  check_at-ok seconds ts h =
      (ground arith, ground (arith, eq_iff signature (expected hmac payload)), ground arith)

  check_signature_sound :
      (w : World)
      → (check_signature hmac channel signature payload w).0 ≡ ok tt
      → Authentic hmac (w.clock w.reads / 1000000) signature payload
  unfolding check_signature
  check_signature_sound w = by_time (timestamp_of channel payload) refl
    where
      by_time :
          (r : Result ℤ)
          → timestamp_of channel payload ≡ r
          → (proceed r
              (λ ts v. (
                check_at hmac channel (v.clock v.reads / 1000000) ts signature payload,
                record v { reads = suc v.reads },
              ))
              w).0
            ≡ ok tt
          → Authentic hmac (w.clock w.reads / 1000000) signature payload
      by_time (err e) read h = absurd (ground arith)
      by_time (ok ts) read h =
          let p = timestamp_of-ok ts read in
          let (near, matches, ascii) = check_at-ok (w.clock w.reads / 1000000) ts h in
          record {
            secret = ne_of_test (field "secret" payload) "" p.secret;
            timestamp = ne_of_test (field "timestamp" payload) "" p.timestamp;
            nonce = ne_of_test (field "nonce" payload) "" p.nonce;
            stated = ts;
            reads = p.reads;
            near = near;
            matches = matches;
            ascii = ascii;
          }

  check_signature_complete :
      (w : World)
      → Authentic hmac (w.clock w.reads / 1000000) signature payload
      → (check_signature hmac channel signature payload w).0 ≡ ok tt
  unfolding check_signature timestamp_of check_at compare_digest
  check_signature_complete w a =
      let no_secret = test_of_ne (field "secret" payload) "" a.secret in
      let no_time = test_of_ne (field "timestamp" payload) "" a.timestamp in
      let no_nonce = test_of_ne (field "nonce" payload) "" a.nonce in
      let near : ltb 300 (distance (w.clock w.reads / 1000000) a.stated) ≡ false =
        ground (arith, a.near) in
      rw (no_secret, no_time, no_nonce, a.reads, near, ← a.matches, a.ascii, ==_refl signature) refl

  -- The check of a signature accepts exactly the payloads that are authentic at the time when it reads
  -- the clock. Both the digest's secret and its fields are those of the payload itself.
  pub check_signature-Authentic :
      (w : World)
      → ((check_signature hmac channel signature payload w).0 ≡ ok tt)
        ↔ Authentic hmac (w.clock w.reads / 1000000) signature payload
  check_signature-Authentic w = (check_signature_sound w, check_signature_complete w)

-- A payload that has a signature and is authentic.
pub record Signed (hmac : String → String → String) (seconds : ℕ) (payload : Dict) : Type 0 where
  pub signature : Value
  pub carried : get "signature" payload ≡ some signature
  pub authentic : Authentic hmac seconds (str signature) payload

-- An adapter that accepts only authentic ones of the payloads that carry a signature.
pub record SignatureLaws (hmac : String → String → String) (adapter : ChannelAdapter) : Type 0 where
  pub signed :
      (payload : Dict) (w : World)
      → is_true (get "signature" payload) ≡ true
      → (adapter.verify_inbound payload w).0 ≡ ok tt
      → Signed hmac (w.clock w.reads / 1000000) payload

first_truthy-signature :
    (payload : Dict) (others : List (Option Value))
    → is_true (get "signature" payload) ≡ true
    → (s : Value) × (get "signature" payload ≡ some s)
      × (first_truthy (get "signature" payload ∷ others) ≡ some s)
unfolding first_truthy
first_truthy-signature payload others h = elim (Option-cases (get "signature" payload)) [
  | inl e ↦ absurd (ground arith)
  | inr (s, e) ↦ (s, e, rw e (ground arith))
]

module _ (hmac : String → String → String) where
  feishu_signed :
      (payload : Dict) (w : World)
      → is_true (get "signature" payload) ≡ true
      → (Feishu.verify_inbound hmac payload w).0 ≡ ok tt
      → Signed hmac (w.clock w.reads / 1000000) payload
  unfolding Feishu.verify_inbound
  feishu_signed payload w h accepted =
      let (s, carried, chosen) = first_truthy-signature payload [] h in
      record {
        signature = s;
        carried = carried;
        authentic =
            check_signature_sound hmac "feishu" (str s) payload w
              (rw (Feishu.verify_inbound, chosen) at accepted);
      }

  wecom_signed :
      (payload : Dict) (w : World)
      → is_true (get "signature" payload) ≡ true
      → (Wecom.verify_inbound hmac payload w).0 ≡ ok tt
      → Signed hmac (w.clock w.reads / 1000000) payload
  unfolding Wecom.verify_inbound
  wecom_signed payload w h accepted =
      let (s, carried, chosen) =
        first_truthy-signature payload (get "msg_signature" payload ∷ []) h in
      record {
        signature = s;
        carried = carried;
        authentic =
            check_signature_sound hmac "wecom" (str s) payload w
              (by_source s _ (rw (Wecom.verify_inbound, chosen) at accepted));
      }
    where
      by_source :
          (s : Value) (r : Result {0} Unit)
          → (elim r as (λ _. Result {0} Unit × World) [
            | err e ↦ (err e, w)
            | ok u ↦ check_signature hmac "wecom" (str s) payload w
          ]).0
            ≡ ok tt
          → (check_signature hmac "wecom" (str s) payload w).0 ≡ ok tt
      by_source s (err e) k = absurd (ground arith)
      by_source s (ok u) k = k

pub feishu_adapter-SignatureLaws :
    (hmac : String → String → String) → SignatureLaws hmac (feishu_adapter hmac)
unfolding feishu_adapter
feishu_adapter-SignatureLaws hmac = record { signed = feishu_signed hmac }

pub wecom_adapter-SignatureLaws :
    (hmac : String → String → String) → SignatureLaws hmac (wecom_adapter hmac)
unfolding wecom_adapter
wecom_adapter-SignatureLaws hmac = record { signed = wecom_signed hmac }
