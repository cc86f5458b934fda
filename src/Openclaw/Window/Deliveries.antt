-- ===== src/Openclaw/Window/Deliveries.antt =====
-- openclaw_adapter/replay_guard.py: deliveries to any number of sessions, in any order, against the
-- windows of the sessions.
use support_agent_platform.Shared.{
  String, ◌≡◌, refl, sym, ap, subst, ◌≢◌, inl, inr, Bool, true, false, not, Option, none, some,
  List, [], ◌∷◌, ◌==◌, eq_iff, if◌then◌else◌, Bool-cases, ne_of_test, test_of_ne, contains, ℤ, pos,
  end, get, Result, ok, err, Exec, ◌>>=◌,
}
use support_agent_platform.Shared.Text.{strip}
use support_agent_platform.Storage.Models.{SessionBinding}
use support_agent_platform.Storage.World.{World}
use support_agent_platform.Openclaw.SessionMapper.{
  find_binding, iterate, replay_count_of, record_idempotency_key,
}
use support_agent_platform.Openclaw.Bindings.{metadata_of}
use support_agent_platform.Openclaw.ReplayGuard.{duplicate_webhook, decide, evaluate, enforce}
use support_agent_platform.Openclaw.Window.{slide, Tracks}
use support_agent_platform.Openclaw.Window.Kept.{read_stored}
use support_agent_platform.Openclaw.Window.Step.{record_idempotency_key-Recorded}

-- What the inbound handler asks of the guard for one message.
pub record Delivery : Type 0 where
  pub channel : String
  pub session_id : String
  pub key : String
  pub trace_id : Option String

-- `evaluate`, then `enforce`.
unfoldable pub admit : Delivery → Exec World Unit
admit d = do decision ← evaluate d.channel d.session_id (some d.key) d.trace_id; enforce decision

-- The results of a sequence of deliveries, refused ones included.
unfoldable pub admit_all : List Delivery → World → List {0} (Result {0} Unit) × World
admit_all [] w = ([], w)
admit_all (d ∷ ds) w = let (r, v) = admit d w in let (rs, u) = admit_all ds v in (r ∷ rs, u)

-- The specification: a window of each session.
abbrev pub Windows : Type 0
Windows = String → List String

-- A delivery is refused where its key is in the window of its session.
abbrev pub verdict : Windows → Delivery → Result {0} Unit
verdict windows d =
    if contains (windows d.session_id) d.key
    then err (duplicate_webhook d.channel (some d.key))
    else ok tt

abbrev pub advance : Windows → Delivery → Windows
advance windows d id = if d.session_id == id then slide 50 d.key (windows id) else windows id

unfoldable pub verdicts : Windows → List Delivery → List {0} (Result {0} Unit)
verdicts windows [] = []
verdicts windows (d ∷ ds) = verdict windows d ∷ verdicts (advance windows d) ds

-- Every session holds its window.
abbrev pub AllTrack : Windows → World → Type 0
AllTrack windows w = (id : String) → Tracks (windows id) (metadata_of id w)

abbrev pub AllKeyed : List Delivery → Type 0
AllKeyed [] = Unit
AllKeyed (d ∷ ds) = (strip d.key ≢ "") × AllKeyed ds

same_metadata :
    (j : String) (v w : World)
    → find_binding j v.sessions ≡ find_binding j w.sessions
    → metadata_of j v ≡ metadata_of j w
same_metadata j v w e =
    ap (λ (o : Option SessionBinding). elim o [ none ↦ end | some b ↦ b.metadata ]) e

module _ (d : Delivery) (w : World) where
  abbrev recorded_out : Result (Bool × SessionBinding) × World
  recorded_out = record_idempotency_key d.session_id d.key d.trace_id (some d.channel) 50 w

  key_there : (key : String) → strip key ≢ "" → (key == "") ≡ false
  unfolding strip
  key_there key blank = test_of_ne key "" (λ e. blank (rw e refl))

  admit_lem :
      (b : Bool) (c : SessionBinding) (z : ℤ)
      → strip d.key ≢ ""
      → recorded_out.0 ≡ ok (b, c)
      → replay_count_of c.metadata ≡ ok z
      → admit d w
        ≡ (if b then ok tt else err (duplicate_webhook d.channel (some d.key)), recorded_out.1)
  unfolding admit evaluate decide enforce
  admit_lem true c z blank returned counted = rw (key_there d.key blank, returned, counted) refl
  admit_lem false c z blank returned counted = rw (key_there d.key blank, returned, counted) refl

  -- One delivery: the verdict, and the windows after it.
  pub admit-verdict :
      (windows : Windows)
      → strip d.key ≢ ""
      → AllTrack windows w
      → ((admit d w).0 ≡ verdict windows d) × AllTrack (advance windows d) (admit d w).1
  admit-verdict windows blank t =
      let r =
        record_idempotency_key-Recorded d.session_id d.key d.trace_id (some d.channel) 50 w
          (windows d.session_id) blank (t d.session_id) in
      let stored = read_stored d.session_id recorded_out.1 r.binding r.stored in
      let run =
        admit_lem (not (contains (windows d.session_id) d.key)) r.binding r.tracks.replays blank
          r.returned
          (subst (λ md. replay_count_of md ≡ ok r.tracks.replays) stored r.tracks.replays_read) in
      (
        elim (Bool-cases (contains (windows d.session_id) d.key)) [
          | inl e ↦ rw (run, e) refl
          | inr e ↦ rw (run, e) refl
        ],
        λ id. rw run (elim (Bool-cases (d.session_id == id)) [
          | inl e ↦ rw e (
              subst (λ i. Tracks (slide 50 d.key (windows i)) (metadata_of i recorded_out.1))
                ((eq_iff d.session_id id).0 e) r.tracks)
          | inr e ↦ rw e (
              subst (Tracks (windows id))
                (sym (
                  same_metadata id recorded_out.1 w
                    (r.others id (λ p. ne_of_test d.session_id id e (sym p)))))
                (t id))
        ]),
      )

  -- A session that a delivery came to has a binding.
  pub admit-stored :
      (windows : Windows)
      → strip d.key ≢ ""
      → AllTrack windows w
      → (b : SessionBinding) × (find_binding d.session_id (admit d w).1.sessions ≡ some b)
  admit-stored windows blank t =
      let r =
        record_idempotency_key-Recorded d.session_id d.key d.trace_id (some d.channel) 50 w
          (windows d.session_id) blank (t d.session_id) in
      let stored = read_stored d.session_id recorded_out.1 r.binding r.stored in
      let run =
        admit_lem (not (contains (windows d.session_id) d.key)) r.binding r.tracks.replays blank
          r.returned
          (subst (λ md. replay_count_of md ≡ ok r.tracks.replays) stored r.tracks.replays_read) in
      (r.binding, rw run r.stored)

-- The replay guard implements the windows: whatever messages come to whatever sessions, in any
-- order, where no key is blank and each session holds its window at the start, every delivery ends
-- as the windows say: refused as a duplicate exactly where its key is among the last 50 keys that
-- its session accepted.
pub admit_all-verdicts :
    (ds : List Delivery) (windows : Windows) (w : World)
    → AllKeyed ds
    → AllTrack windows w
    → (admit_all ds w).0 ≡ verdicts windows ds
unfolding admit_all verdicts
admit_all-verdicts [] windows w keyed t = refl
admit_all-verdicts (d ∷ ds) windows w keyed t =
    let (now_, later) = admit-verdict d w windows keyed.0 t in
    rw (now_, admit_all-verdicts ds (advance windows d) (admit d w).1 keyed.1 later) refl

-- A world without sessions holds empty windows.
pub AllTrack-empty : (w : World) → w.sessions ≡ [] → AllTrack (λ id. []) w
unfolding find_binding iterate replay_count_of get
AllTrack-empty w e id = rw e (record {
  ids = refl;
  nonblank = tt;
  events = [];
  events_read = refl;
  replays = pos 0;
  replays_read = refl;
})
