-- ===== src/Core/Lifecycle/Transition.antt =====
-- What `_transition_status` and the event log do to the table of tickets.
use support_agent_platform.Shared.{
  String, ◌≡◌, refl, sym, ap, ◌∙◌, ◌≢◌, inl, inr, Bool, true, false, ◌||◌, Option, none, some, List,
  [], ◌∷◌, ◌++◌, arith, eq_iff, Bool-cases, Dict, Result, ok, err, pure, proceed, ◌>>◌,
}
use support_agent_platform.Storage.Models.{Ticket, Status, Stage, status_text}
use support_agent_platform.Storage.World.{World, Row}
use support_agent_platform.Storage.Columns.{Update, set_columns, set_column, has_stage}
use support_agent_platform.Storage.Repository
use support_agent_platform.Storage.Repository.{
  find_row, update_rows, row_to_ticket, found_ticket, get_ticket, reload_ticket, write_columns,
  reject_unknown,
}
use support_agent_platform.Storage.EventLog.{append_event, store_event, insert_event}
use support_agent_platform.Storage.Literals.{status-row_to_ticket}
use support_agent_platform.Storage.Rows.{set_columns-append}
use support_agent_platform.Core.TicketApi.{
  allowed, same_status, require_ticket, normalize_status, assert_transition_allowed,
  transition_updates, transition_payload, transition_status,
}
use support_agent_platform.Core.Lifecycle.{
  allowed-Edge, Lifecycle, stay, move, Evolves, Evolves-same, Evolves-trans,
}
-- An event is no change of a ticket.
use support_agent_platform.Core.Lifecycle.Written.{
  Written, update_ticket-Written, IsOpen, Evolves-Written, IsOpen-Written,
}

pub tickets-append_event :
    (id event_type actor_type actor_id : String) (payload : Dict) (w : World)
    → (append_event id event_type actor_type actor_id payload w).1.tickets ≡ w.tickets
unfolding append_event store_event insert_event
tickets-append_event id event_type actor_type actor_id payload w = ground arith

-- The last columns that a transition writes are its status and, at most, its stage.
status-transition_updates :
    (s : Status) (l : Stage) (extra : List Update) (r : Row)
    → (set_columns (transition_updates s l extra) r).status ≡ status_text s
unfolding transition_updates
status-transition_updates s l extra r =
    elim (Bool-cases (has_stage (extra ++ Update.status (status_text s) ∷ []))) [
      | inl e ↦ rw (e, set_columns-append) (unfold set_columns set_column in refl)
      | inr e ↦
          rw (e, set_columns-append, set_columns-append) (unfold set_columns set_column in refl)
    ]

-- The log entry after a write changes no ticket, whether or not the write raised.
tickets-logged :
    (r : Result Ticket) (id event_type actor_type actor_id : String) (payload : Dict) (w : World)
    → (proceed r
        (λ t. append_event id event_type actor_type actor_id payload >> pure t)
        w).1.tickets
      ≡ w.tickets
tickets-logged (err e) id event_type actor_type actor_id payload w = refl
tickets-logged (ok t) id event_type actor_type actor_id payload w =
    after_append (append_event id event_type actor_type actor_id payload w).0
      (append_event id event_type actor_type actor_id payload w).1
      (tickets-append_event id event_type actor_type actor_id payload w)
  where
    after_append :
        {A : Type 0} (r : Result A) (v : World)
        → v.tickets ≡ w.tickets
        → (proceed r (λ _. pure {S = World} t) v).1.tickets ≡ w.tickets
    after_append (ok a) v h = h
    after_append (err e) v h = h

-- `_transition_status` seen from the table: nothing, or one move of the lifecycle, written.
pub data Transitioned (id : String) (new_status : String) (v w : World) : Type 0 where
  refused : w.tickets ≡ v.tickets → Transitioned id new_status v w
  moved :
      (r : Row) (s t : Status) (updates : List Update) (u : World)
      → find_row id v.tickets ≡ some r
      → r.status ≡ status_text s
      → normalize_status new_status ≡ ok t
      → (same_status t s || allowed s t) ≡ true
      → ((q : Row) → (set_columns updates q).status ≡ status_text t)
      → Written id updates v u
      → w.tickets ≡ u.tickets
      → Transitioned id new_status v w

transition_status-Transitioned :
    (id new_status actor_id event_type : String) (extra : List Update) (payload : Dict) (w : World)
    → Transitioned id new_status w
        (transition_status id new_status actor_id event_type extra payload w).1
unfolding transition_status require_ticket assert_transition_allowed
transition_status-Transitioned id new_status actor_id event_type extra payload w =
    by_row (find_row id w.tickets) refl
  where
    after : World
    after = (transition_status id new_status actor_id event_type extra payload w).1

    by_test :
        (r : Row) (c : Ticket) (t : Status)
        → find_row id w.tickets ≡ some r
        → row_to_ticket r ≡ ok c
        → normalize_status new_status ≡ ok t
        → (b : Bool) → (same_status t c.status || allowed c.status t) ≡ b
        → Transitioned id new_status w after
    by_test r c t found read normal true test =
        let updates = transition_updates t c.lifecycle_stage extra in
        let (result, u) = Repository.update_ticket id updates w in
        moved r c.status t updates u found (status-row_to_ticket r c read) normal test
          (status-transition_updates t c.lifecycle_stage extra) (update_ticket-Written id updates w)
          (ground (
            arith,
            tickets-logged result id event_type "agent" actor_id
                (transition_payload c.status t payload) u,
          ))
    by_test r c t found read normal false test = refused (ground arith)

    by_status :
        (r : Row) (c : Ticket)
        → find_row id w.tickets ≡ some r
        → row_to_ticket r ≡ ok c
        → (s : Result Status) → normalize_status new_status ≡ s
        → Transitioned id new_status w after
    by_status r c found read (ok t) normal = by_test r c t found read normal _ refl
    by_status r c found read (err e) normal = refused (ground arith)

    by_ticket :
        (r : Row)
        → find_row id w.tickets ≡ some r
        → (c : Result Ticket) → row_to_ticket r ≡ c
        → Transitioned id new_status w after
    by_ticket r found (ok c) read = by_status r c found read (normalize_status new_status) refl
    by_ticket r found (err e) read = refused (ground arith)

    by_row : (o : Option Row) → find_row id w.tickets ≡ o → Transitioned id new_status w after
    by_row none found = refused (ground arith)
    by_row (some r) found = by_ticket r found (row_to_ticket r) refl

same_status-eq : (s t : Status) → same_status s t ≡ true → status_text s ≡ status_text t
unfolding same_status
same_status-eq s t h = (eq_iff (status_text s) (status_text t)).0 h

-- An allowed move, or none, of a row that is at `s`.
Lifecycle-test :
    (s t : Status) (a b : String)
    → a ≡ status_text s
    → b ≡ status_text t
    → (same_status t s || allowed s t) ≡ true
    → Lifecycle b a
Lifecycle-test s t a b p q h = elim (Bool-cases (same_status t s)) [
  | inl e ↦ rw (p, q, same_status-eq t s e) stay
  | inr e ↦ move s t p ((allowed-Edge s t).0 (ground arith)) (rw q stay)
]

module _ (id new_status actor_id event_type : String) (extra : List Update) (payload : Dict)
    (w : World) where
  -- A transition of a row that is not closed moves it along the table.
  pub transition_status-Evolves :
      IsOpen id w
      → Evolves w (transition_status id new_status actor_id event_type extra payload w).1
  transition_status-Evolves open_row =
      evolves (transition_status-Transitioned id new_status actor_id event_type extra payload w)
    where
      evolves : {v : World} → Transitioned id new_status w v → Evolves w v
      evolves (refused e) = Evolves-same e
      evolves (moved r s t updates u found at_s normal test at_t written e) =
          Evolves-trans
            (Evolves-Written id updates w u
              (λ q h. Lifecycle-test s t q.status _ (ground arith) (at_t q) test) open_row written)
            (Evolves-same e)

  -- It stays open if the new status is not closed.
  pub transition_status-IsOpen :
      ((t : Status)
        → normalize_status new_status ≡ ok t
        → status_text t ≢ status_text Status.closed)
      → IsOpen id w
      → IsOpen id (transition_status id new_status actor_id event_type extra payload w).1
  transition_status-IsOpen still open_row =
      is_open (transition_status-Transitioned id new_status actor_id event_type extra payload w)
    where
      is_open : {v : World} → Transitioned id new_status w v → IsOpen id v
      is_open (refused e) = λ r h. open_row r (ap (find_row id) (sym e) ∙ h)
      is_open (moved r s t updates u found at_s normal test at_t written e) = λ q h.
          IsOpen-Written id updates w u (λ x c. still t normal (sym (at_t x) ∙ c)) open_row written
            q (ap (find_row id) (sym e) ∙ h)
