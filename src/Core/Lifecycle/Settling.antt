-- ===== src/Core/Lifecycle/Settling.antt =====
-- What a program leaves when it leaves the status of every ticket, and what such a program returns.
use support_agent_platform.Shared.{
  String, ◌≡◌, refl, ◌∙◌, Option, none, some, arith, Dict, Result, ok, err, Exec, pure, ◌>>=◌, ◌>>◌,
}
use support_agent_platform.Shared.Yields
use support_agent_platform.Shared.Yields.{OnOk, Anything}
use support_agent_platform.Storage.Models.{Ticket}
use support_agent_platform.Storage.World.{World, Row}
use support_agent_platform.Storage.Repository.{find_row, row_to_ticket, typed_row, get_ticket}
use support_agent_platform.Storage.EventLog.{append_event}
use support_agent_platform.Core.TicketApi.{require_ticket}
use support_agent_platform.Core.TicketActions.{add_event}
use support_agent_platform.Core.Lifecycle.Transition.{tickets-append_event}

abbrev pub status_of : Option Row → Option String
status_of none = none
status_of (some r) = some r.status

-- Every ticket has the status that it had, and there are the same tickets.
pub record SameStatuses (v w : World) : Type 0 where
  pub at : (id : String) → status_of (find_row id w.tickets) ≡ status_of (find_row id v.tickets)

pub SameStatuses-refl : (w : World) → SameStatuses w w
SameStatuses-refl w = record { at = λ id. refl }

pub SameStatuses-trans : (u v w : World) → SameStatuses u v → SameStatuses v w → SameStatuses u w
SameStatuses-trans u v w h k = record { at = λ id. k.at id ∙ h.at id }

pub SameStatuses-frame : (v w : World) → w.tickets ≡ v.tickets → SameStatuses v w
SameStatuses-frame v w e = record { at = λ id. rw e refl }

-- `m` leaves the statuses, and `Q` holds of what it returns.
abbrev pub Settles : {A : Type 0} → (A → Type 0) → Exec World A → Type 0
Settles Q m = Yields.Yields SameStatuses SameStatuses-refl SameStatuses-trans Q m

pub Settles-bind :
    {A B : Type 0} {Q : A → Type 0} {R : B → Type 0} (m : Exec World A) (f : A → Exec World B)
    → Settles Q m
    → ((a : A) → Q a → Settles R (f a))
    → Settles R (m >>= f)
Settles-bind m f = Yields.Yields-bind SameStatuses SameStatuses-refl SameStatuses-trans m f

pub Settles-then :
    {A B : Type 0} {R : B → Type 0} (m : Exec World A) (n : Exec World B)
    → Settles Anything m
    → Settles R n
    → Settles R (m >> n)
Settles-then m n = Yields.Yields-then SameStatuses SameStatuses-refl SameStatuses-trans m n

pub Settles-pure : {A : Type 0} {Q : A → Type 0} (a : A) → Q a → Settles Q (pure a)
Settles-pure a q = Yields.Yields-pure SameStatuses SameStatuses-refl SameStatuses-trans a q

pub OnOk-Anything : {A : Type 0} (r : Result A) → OnOk Anything r
OnOk-Anything (ok a) = tt
OnOk-Anything (err e) = tt

pub OnOk-each : {A : Type 0} {Q : A → Type 0} (r : Result A) → ((a : A) → r ≡ ok a → Q a) → OnOk Q r
OnOk-each (ok a) h = h a refl
OnOk-each (err e) h = tt

pub handoff_state-row_to_ticket :
    (r : Row) (t : Ticket) → row_to_ticket r ≡ ok t → t.handoff_state ≡ r.handoff_state
unfolding row_to_ticket typed_row
handoff_state-row_to_ticket r t h = ground arith

-- A program that writes no ticket.
pub Settles-frame :
    {A : Type 0} (m : Exec World A)
    → ((w : World) → (m w).1.tickets ≡ w.tickets)
    → Settles Anything m
Settles-frame m e = record {
  state = λ w. SameStatuses-frame w (m w).1 (e w);
  result = λ w. OnOk-Anything (m w).0;
}

pub append_event-Settles :
    (id event_type actor_type actor_id : String) (payload : Dict)
    → Settles Anything (append_event id event_type actor_type actor_id payload)
append_event-Settles id event_type actor_type actor_id payload =
    Settles-frame _ (tickets-append_event id event_type actor_type actor_id payload)

pub add_event-Settles :
    (id event_type actor_type actor_id : String) (payload : Dict)
    → Settles Anything (add_event id event_type actor_type actor_id payload)
unfolding add_event
add_event-Settles id event_type actor_type actor_id payload =
    append_event-Settles id event_type actor_type actor_id payload

pub require_ticket-Settles : (id : String) → Settles Anything (require_ticket id)
unfolding require_ticket get_ticket
require_ticket-Settles id = Settles-frame (require_ticket id) (λ w. ground arith)
