-- ===== src/Openclaw/Window/Recent.antt =====
-- openclaw_adapter/replay_guard.py: how long a key is remembered.
use support_agent_platform.Shared.{
  ℕ, zero, suc, ◌+◌, ◌-◌, ◌≤◌, ◌<◌, String, ◌≡◌, refl, sym, ap, subst, ◌∙◌, ◌≢◌, inl, inr, true,
  false, Option, some, List, [], ◌∷◌, ◌++◌, arith, ◌==◌, if◌then◌else◌, Bool-cases, ==_refl, length,
  drop, length-append, length-drop, contains, ok, err,
}
use support_agent_platform.Shared.Text.{strip}
use support_agent_platform.Storage.World.{World}
use support_agent_platform.Openclaw.ReplayGuard.{duplicate_webhook}
use support_agent_platform.Openclaw.Window.{slide}
use support_agent_platform.Openclaw.Window.Deliveries.{
  Delivery, Windows, AllKeyed, AllTrack, admit, admit_all, admit-verdict, advance, verdict,
}

drop-empty : (n : ℕ) → drop {A = String} n [] ≡ []
drop-empty zero = refl
drop-empty (suc n) = refl

drop-drop : (m n : ℕ) (xs : List String) → drop m (drop n xs) ≡ drop (n + m) xs
drop-drop m zero xs = ap (λ i. drop i xs) (omega arith)
drop-drop m (suc n) [] = drop-empty m ∙ sym (drop-empty (suc n + m))
drop-drop m (suc n) (x ∷ xs) =
    drop-drop m n xs ∙ ap (λ i. drop i (x ∷ xs)) {x = suc (n + m)} (omega arith)

drop-append : (n : ℕ) (xs ys : List String) → n ≤ length xs → drop n (xs ++ ys) ≡ drop n xs ++ ys
drop-append zero xs ys h = refl
drop-append (suc n) [] ys h = absurd (omega arith)
drop-append (suc n) (x ∷ xs) ys h = drop-append n xs ys (omega arith)

contains-append :
    (xs : List String) (k j : String) → contains xs k ≡ true → contains (xs ++ j ∷ []) k ≡ true
contains-append [] k j h = absurd (ground arith)
contains-append (x ∷ xs) k j h = ground (arith, contains-append xs k j)

contains-last : (xs : List String) (k : String) → contains (xs ++ k ∷ []) k ≡ true
contains-last [] k = rw ==_refl refl
contains-last (x ∷ xs) k = ground (arith, contains-last xs k)

-- A longer end of a list holds what a shorter end holds.
contains-drop :
    (m n : ℕ) (xs : List String) (k : String)
    → m ≤ n
    → contains (drop n xs) k ≡ true
    → contains (drop m xs) k ≡ true
contains-drop zero zero xs k h c = c
contains-drop zero (suc n) [] k h c = c
contains-drop zero (suc n) (x ∷ xs) k h c = ground (arith, contains-drop 0 n xs k (omega arith))
contains-drop (suc m) zero xs k h c = absurd (omega arith)
contains-drop (suc m) (suc n) [] k h c = c
contains-drop (suc m) (suc n) (x ∷ xs) k h c = contains-drop m n xs k (omega arith) c

-- The key is among the last n of the window.
abbrev Recent : ℕ → String → List String → Type 0
Recent n k xs = contains (drop (length xs - n) xs) k ≡ true

drop-slide :
    (limit n : ℕ) (j : String) (xs : List String)
    → n < limit
    → contains xs j ≡ false
    → drop (length (slide limit j xs) - suc n) (slide limit j xs)
      ≡ drop (length xs - n) xs ++ j ∷ []
unfolding slide
drop-slide zero n j xs h fresh = absurd (omega arith)
drop-slide (suc l) n j xs h fresh =
    let ys = xs ++ j ∷ [] in
    let i = length ys - suc l in
    rw fresh (
      drop-drop (length (drop i ys) - suc n) i ys
      ∙ ap (λ m. drop m ys) (omega (arith, length-drop {0} i ys, length-append {0} xs (j ∷ [])))
      ∙ drop-append (length xs - n) xs (j ∷ []) (omega arith))

Recent-slide :
    (limit n : ℕ) (j k : String) (xs : List String)
    → n < limit
    → Recent n k xs
    → Recent (suc n) k (slide limit j xs)
unfolding slide
Recent-slide limit n j k xs h r = elim (Bool-cases (contains xs j)) [
  | inl known ↦ rw known (contains-drop (length xs - suc n) (length xs - n) xs k (omega arith) r)
  | inr fresh ↦
      subst (λ ys. contains ys k ≡ true) (sym (drop-slide limit n j xs h fresh))
        (contains-append (drop (length xs - n) xs) k j r)
]

-- A key that was just accepted is the last.
Recent-accepted :
    (limit : ℕ) (k : String) (xs : List String)
    → 0 < limit
    → contains xs k ≡ false
    → Recent 1 k (slide limit k xs)
Recent-accepted limit k xs h fresh =
    subst (λ ys. contains ys k ≡ true) (sym (drop-slide limit 0 k xs h fresh))
      (contains-last (drop (length xs - 0) xs) k)

-- The deliveries to a session.
abbrev pub deliveries_to : String → List Delivery → ℕ
deliveries_to id [] = 0
deliveries_to id (d ∷ ds) =
    if d.session_id == id then suc (deliveries_to id ds) else deliveries_to id ds

-- The windows after a sequence of deliveries.
abbrev pub advance_all : Windows → List Delivery → Windows
advance_all windows [] = windows
advance_all windows (d ∷ ds) = advance_all (advance windows d) ds

Recent-advance_all :
    (id k : String) (ds : List Delivery) (windows : Windows) (n : ℕ)
    → n + deliveries_to id ds ≤ 50
    → Recent n k (windows id)
    → Recent (n + deliveries_to id ds) k (advance_all windows ds id)
Recent-advance_all id k [] windows n h r = subst (λ m. Recent m k (windows id)) (omega arith) r
Recent-advance_all id k (d ∷ ds) windows n h r = elim (Bool-cases (d.session_id == id)) [
  | inl here ↦ rw here (
      subst (λ m. Recent m k (advance_all (advance windows d) ds id)) (omega arith)
        (Recent-advance_all id k ds (advance windows d) (suc n) (ground arith)
          (rw here (Recent-slide 50 n d.key k (windows id) (ground arith) r))))
  | inr away ↦ rw away (Recent-advance_all id k ds (advance windows d) n (ground arith) (rw away r))
]

AllTrack-admit_all :
    (ds : List Delivery) (windows : Windows) (w : World)
    → AllKeyed ds
    → AllTrack windows w
    → AllTrack (advance_all windows ds) (admit_all ds w).1
unfolding admit_all
AllTrack-admit_all [] windows w keyed t = t
AllTrack-admit_all (d ∷ ds) windows w keyed t =
    AllTrack-admit_all ds (advance windows d) (admit d w).1 keyed.1
      (admit-verdict d w windows keyed.0 t).1

accepted_was_new :
    (windows : Windows) (d : Delivery)
    → verdict windows d ≡ ok tt
    → contains (windows d.session_id) d.key ≡ false
accepted_was_new windows d h = elim (Bool-cases (contains (windows d.session_id) d.key)) [
  | inl e ↦ absurd (ground arith)
  | inr e ↦ e
]

-- At most once: a message whose key is accepted is refused as a duplicate when it is delivered
-- again, over whatever channel, if fewer than 50 other messages came to its session in between,
-- whatever came to the other sessions; no key is blank, and each session holds a window at the
-- start.
pub admit_redelivery :
    (d : Delivery) (ds : List Delivery) (channel : String) (trace_id : Option String)
    (windows : Windows) (w : World)
    → strip d.key ≢ ""
    → AllKeyed ds
    → AllTrack windows w
    → (admit d w).0 ≡ ok tt
    → deliveries_to d.session_id ds < 50
    → (admit
        (record { channel = channel; session_id = d.session_id; key = d.key; trace_id = trace_id })
        (admit_all ds (admit d w).1).1).0
      ≡ err (duplicate_webhook channel (some d.key))
admit_redelivery d ds channel trace_id windows w blank keyed t accepted few =
    let (judged, t1) = admit-verdict d w windows blank t in
    let fresh = accepted_was_new windows d (sym judged ∙ accepted) in
    let now_ = Recent-accepted 50 d.key (windows d.session_id) (omega arith) fresh in
    let after =
      Recent-advance_all d.session_id d.key ds (advance windows d) 1 (omega arith)
        (rw (==_refl d.session_id) now_) in
    let known = advance_all (advance windows d) ds d.session_id in
    let again : Delivery = record {
      channel = channel;
      session_id = d.session_id;
      key = d.key;
      trace_id = trace_id;
    } in
    let (refused, _) =
      admit-verdict again (admit_all ds (admit d w).1).1 (advance_all (advance windows d) ds) blank
        (AllTrack-admit_all ds (advance windows d) (admit d w).1 keyed t1) in
    refused
    ∙ rw
        (contains-drop 0 (length known - (1 + deliveries_to d.session_id ds)) known d.key
          (omega arith) after)
        refl
