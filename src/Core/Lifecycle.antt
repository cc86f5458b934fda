-- ===== src/Core/Lifecycle.antt =====
-- The lifecycle of tickets, by which the methods of core/ticket_api.py are judged: the moves
-- between statuses, and how a table of tickets may change.
pub mod Written
pub mod Guards
pub mod Transition
pub mod Actions
pub mod Programs
pub mod Creation
pub mod Merging
pub mod History
pub mod Settling
pub mod Statuses
use support_agent_platform.Shared.{
  String, ◌≡◌, refl, ap, ◌∙◌, ◌≢◌, ◌↔◌, true, Option, none, some, arith, Result, ok, err, Exec,
  proceed, ◌>>=◌,
}
use support_agent_platform.Storage.Models.{Status, opened, pending, escalated, handoff, status_text}
use support_agent_platform.Storage.World.{World, Row}
use support_agent_platform.Storage.Repository.{find_row}
use support_agent_platform.Core.TicketApi.{allowed}

-- The statuses of a ticket that somebody still works on.
pub data IsActive : Status → Type 0 where
  is_opened : IsActive opened
  is_pending : IsActive pending
  is_escalated : IsActive escalated
  is_handoff : IsActive handoff

-- The lifecycle of a ticket, by its moves: work passes between queues and people, a person who has
-- it may give it back, an active ticket is resolved, a resolved one comes back to life, and all but
-- a closed one may be closed.
pub data Edge : Status → Status → Type 0 where
  take_up : {s : Status} → IsActive s → s ≢ pending → Edge s pending
  raise_up : {s : Status} → IsActive s → s ≢ escalated → Edge s escalated
  hand_over : {s : Status} → IsActive s → s ≢ handoff → Edge s handoff
  give_back : Edge pending opened
  resolve : {s : Status} → IsActive s → Edge s Status.resolved
  reopen : Edge Status.resolved opened
  resume : Edge Status.resolved pending
  close : {s : Status} → s ≢ Status.closed → Edge s Status.closed

ruleset edges = (
  is_opened, is_pending, is_escalated, is_handoff, take_up, raise_up, hand_over, give_back, resolve,
  reopen, resume, close,
)

-- The table of the code allows exactly the moves of the lifecycle.
pub allowed-Edge : (s t : Status) → (allowed s t ≡ true) ↔ Edge s t
unfolding allowed
allowed-Edge s t = (to_edge s t, of_edge)
  where
    to_edge : (s t : Status) → allowed s t ≡ true → Edge s t
    to_edge opened opened h = cc
    to_edge s t h = grind (arith, edges)

    of_edge : {s t : Status} → Edge s t → allowed s t ≡ true
    of_edge (take_up is_pending ne) = absurd (ne refl)
    of_edge (take_up a ne) = refl
    of_edge (raise_up is_escalated ne) = absurd (ne refl)
    of_edge (raise_up a ne) = refl
    of_edge (hand_over is_handoff ne) = absurd (ne refl)
    of_edge (hand_over a ne) = refl
    of_edge give_back = refl
    of_edge (resolve is_opened) = refl
    of_edge (resolve a) = refl
    of_edge reopen = refl
    of_edge resume = refl
    of_edge (close {s} ne) = ground arith

-- A status text is reached from another by moves of the lifecycle.
pub data Lifecycle (b : String) : String → Type 0 where
  stay : Lifecycle b b
  move :
      {a : String} (s t : Status)
      → a ≡ status_text s
      → Edge s t
      → Lifecycle b (status_text t)
      → Lifecycle b a

pub Lifecycle-trans : {b c a : String} → Lifecycle b a → Lifecycle c b → Lifecycle c a
Lifecycle-trans stay q = q
Lifecycle-trans (move s t e h p) q = move s t e h (Lifecycle-trans p q)

-- How a row may change: it is never deleted, the status of a new one is reached from open along the
-- table, that of another one from what it was, and a closed row stays exactly as it is.
abbrev pub RowEvolves : Option Row → Option Row → Type 0
RowEvolves none none = Unit
RowEvolves none (some q) = Lifecycle q.status (status_text opened)
RowEvolves (some r) none = ⊥
RowEvolves (some r) (some q) =
    Lifecycle q.status r.status × (r.status ≡ status_text Status.closed → q ≡ r)

pub RowEvolves-refl : (o : Option Row) → RowEvolves o o
RowEvolves-refl none = tt
RowEvolves-refl (some r) = (stay, λ e. refl)

pub RowEvolves-trans : (o p q : Option Row) → RowEvolves o p → RowEvolves p q → RowEvolves o q
RowEvolves-trans none none q h k = k
RowEvolves-trans none (some r) none h k = absurd k
RowEvolves-trans none (some r) (some s) h k = Lifecycle-trans h k.0
RowEvolves-trans (some r) none q h k = absurd h
RowEvolves-trans (some r) (some s) none h k = absurd k
RowEvolves-trans (some r) (some s) (some t) h k =
    (Lifecycle-trans h.0 k.0, λ e. k.1 (ap (λ (x : Row). x.status) (h.1 e) ∙ e) ∙ h.1 e)

-- Every ticket of a world, between two moments.
pub record Evolves (v w : World) : Type 0 where
  pub at : (id : String) → RowEvolves (find_row id v.tickets) (find_row id w.tickets)

pub Evolves-same : {v w : World} → w.tickets ≡ v.tickets → Evolves v w
Evolves-same {v} e = record { at = λ id. rw e (RowEvolves-refl (find_row id v.tickets)) }

pub Evolves-trans : {u v w : World} → Evolves u v → Evolves v w → Evolves u w
Evolves-trans {u} {v} {w} h k = record {
  at = λ id.
      RowEvolves-trans (find_row id u.tickets) (find_row id v.tickets) (find_row id w.tickets)
        (h.at id) (k.at id);
}

-- A method under which tickets evolve, whether it returns or raises.
pub record Keeps {A : Type 0} (m : Exec World A) : Type 0 where
  pub at : (w : World) → Evolves w (m w).1

module _ {A B : Type 0} where
  pub Keeps-bind :
      (m : Exec World A) (f : A → Exec World B)
      → Keeps m
      → ((a : A) → Keeps (f a))
      → Keeps (m >>= f)
  Keeps-bind m f km kf = record { at = λ w. proceeds (m w).0 (m w).1 (km.at w) }
    where
      proceeds : {v : World} (r : Result A) (w : World) → Evolves v w → Evolves v (proceed r f w).1
      proceeds (ok a) w h = Evolves-trans h ((kf a).at w)
      proceeds (err e) w h = h
