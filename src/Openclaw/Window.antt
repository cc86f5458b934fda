-- ===== src/Openclaw/Window.antt =====
-- The replay window that openclaw_adapter/session_mapper.py keeps in a session's metadata, and its
-- specification: a list of the keys last accepted.
pub mod Entries
pub mod Kept
pub mod Step
pub mod Deliveries
pub mod Recent
use support_agent_platform.Shared.{
  ℕ, zero, suc, ◌-◌, ◌≤◌, ◌<◌, String, ◌≡◌, refl, ap, ◌≢◌, inl, inr, List, [], ◌∷◌, ◌++◌, map,
  arith, if◌then◌else◌, Bool-cases, test_of_ne, length, drop, take_last, length-drop, contains, ℤ,
  Value, Dict, text, get, ok,
}
use support_agent_platform.Shared.Text.{strip}
use support_agent_platform.Shared.Str.{nonblank_texts}
use support_agent_platform.Openclaw.SessionMapper.{iterate, replay_count_of}

-- A key that is in the window leaves it; another is put at its end, and the window slides.
unfoldable pub slide : ℕ → String → List String → List String
slide limit key seen = if contains seen key then seen else take_last limit (seen ++ key ∷ [])

-- No key of the window is blank.
abbrev pub AllNonblank : List String → Type 0
AllNonblank [] = Unit
AllNonblank (s ∷ seen) = (strip s ≢ "") × AllNonblank seen

-- The metadata of a session holds the window, and can be read by the next delivery.
pub record Tracks (seen : List String) (md : Dict) : Type 0 where
  pub ids : iterate (get "processed_message_ids" md) ≡ ok (map text seen)
  pub nonblank : AllNonblank seen
  pub events : List Value
  pub events_read : iterate (get "replay_events" md) ≡ ok events
  pub replays : ℤ
  pub replays_read : replay_count_of md ≡ ok replays

-- What the filter of blank texts leaves of a window is the window.
pub nonblank_texts-map_text :
    (seen : List String) → AllNonblank seen → nonblank_texts (map text seen) ≡ seen
unfolding nonblank_texts
nonblank_texts-map_text [] h = refl
nonblank_texts-map_text (s ∷ seen) h =
    rw (test_of_ne _ _ h.0) (ap (λ rest. s ∷ rest) (nonblank_texts-map_text seen h.1))

pub AllNonblank-append :
    (xs ys : List String) → AllNonblank xs → AllNonblank ys → AllNonblank (xs ++ ys)
AllNonblank-append [] ys h k = k
AllNonblank-append (x ∷ xs) ys h k = (h.0, AllNonblank-append xs ys h.1 k)

AllNonblank-drop : (n : ℕ) (xs : List String) → AllNonblank xs → AllNonblank (drop n xs)
AllNonblank-drop zero xs h = h
AllNonblank-drop (suc n) [] h = tt
AllNonblank-drop (suc n) (x ∷ xs) h = AllNonblank-drop n xs h.1

pub AllNonblank-take_last :
    (n : ℕ) (xs : List String) → AllNonblank xs → AllNonblank (take_last n xs)
AllNonblank-take_last zero xs h = h
AllNonblank-take_last (suc n) xs h = AllNonblank-drop (length xs - suc n) xs h

pub AllNonblank-slide :
    (limit : ℕ) (key : String) (seen : List String)
    → strip key ≢ ""
    → AllNonblank seen
    → AllNonblank (slide limit key seen)
unfolding slide
AllNonblank-slide limit key seen k h = elim (Bool-cases (contains seen key)) [
  | inl e ↦ rw e h
  | inr e ↦ rw e (
      AllNonblank-take_last limit (seen ++ key ∷ []) (AllNonblank-append seen (key ∷ []) h (k, tt)))
]

-- The window never holds more than its limit.
pub length-slide :
    (limit : ℕ) (key : String) (seen : List String)
    → 0 < limit
    → length seen ≤ limit
    → length (slide limit key seen) ≤ limit
unfolding slide
length-slide zero key seen h k = absurd (omega arith)
length-slide (suc n) key seen h k = elim (Bool-cases (contains seen key)) [
  | inl e ↦ rw e k
  | inr e ↦
      rw e (omega (arith, length-drop {0} (length (seen ++ key ∷ []) - suc n) (seen ++ key ∷ [])))
]
