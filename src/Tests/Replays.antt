-- ===== src/Tests/Replays.antt =====
-- Deliveries to two sessions.
use support_agent_platform.Shared.{
  String, ◌≡◌, refl, ◌≢◌, none, some, List, [], ◌∷◌, arith, ne_of_test, ok, err,
}
use support_agent_platform.Shared.Text.{strip}
use support_agent_platform.Openclaw.ReplayGuard.{duplicate_webhook}
use support_agent_platform.Openclaw.SessionMapper.{record_idempotency_key}
use support_agent_platform.Openclaw.Window.{slide}
use support_agent_platform.Openclaw.Window.Step.{Recorded, record_idempotency_key-Recorded}
use support_agent_platform.Openclaw.Window.Deliveries.{
  Delivery, admit, admit_all, admit-verdict, verdicts, admit_all-verdicts, AllTrack-empty, AllTrack,
}
use support_agent_platform.Openclaw.Window.Recent.{admit_redelivery}
use support_agent_platform.Tests.Stores.{empty}

abbrev message : String → String → Delivery
message session_id key = record {
  channel = "wecom";
  session_id = session_id;
  key = key;
  trace_id = none;
}

nonblank : strip "m-1" ≢ ""
unfolding strip
nonblank = ne_of_test "m-1" "" refl

tracked : AllTrack (λ id. []) empty
tracked = AllTrack-empty empty refl

-- The second message of the first session repeats its key; the other session has a key of its own.
abbrev ds : List Delivery
ds = message "s-1" "m-1" ∷ message "s-2" "m-1" ∷ message "s-1" "m-1" ∷ []

verdicts_of_ds :
    verdicts (λ id. []) ds ≡ ok tt ∷ ok tt ∷ err (duplicate_webhook "wecom" (some "m-1")) ∷ []
unfolding verdicts slide
verdicts_of_ds = refl

admit_all-verdicts_example : (admit_all ds empty).0 ≡ verdicts (λ id. []) ds
admit_all-verdicts_example =
    admit_all-verdicts ds (λ id. []) empty (nonblank, (nonblank, (nonblank, tt))) tracked

admit_redelivery_example :
    (admit
      (record { channel = "feishu"; session_id = "s-1"; key = "m-1"; trace_id = none })
      (admit_all (message "s-2" "m-1" ∷ []) (admit (message "s-1" "m-1") empty).1).1).0
    ≡ err (duplicate_webhook "feishu" (some "m-1"))
admit_redelivery_example =
    admit_redelivery (message "s-1" "m-1") (message "s-2" "m-1" ∷ []) "feishu" none (λ id. []) empty
      nonblank (nonblank, tt) tracked
      (admit-verdict (message "s-1" "m-1") empty (λ id. []) nonblank tracked).0 (omega arith)

record_idempotency_key-Recorded_example :
    Recorded 50 "s-1" "m-1" [] empty
      (record_idempotency_key "s-1" "m-1" none (some "wecom") 50 empty)
record_idempotency_key-Recorded_example =
    record_idempotency_key-Recorded "s-1" "m-1" none (some "wecom") 50 empty [] nonblank
      (tracked "s-1")
