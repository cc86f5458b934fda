-- ===== src/Core/Lifecycle/Actions.antt =====
-- Every method of core/ticket_api.py that writes keeps to the lifecycle.
use support_agent_platform.Shared.{
  String, ◌≡◌, refl, sym, ap, ◌∙◌, ◌≢◌, inl, inr, Option, none, some, List, arith, ◌==◌, eq_iff,
  Bool-cases, Dict, text, obj, end, entry, Result, ok, err, Exec, pure, gets, proceed, ◌>>=◌, ◌>>◌,
}
use support_agent_platform.Shared.Str.{of_option}
use support_agent_platform.Storage.Models.{Ticket, Status, Priority, status_text}
use support_agent_platform.Storage.World.{World, now}
use support_agent_platform.Storage.Columns.{Update, status_update, without_status}
use support_agent_platform.Storage.Repository
use support_agent_platform.Storage.Repository.{
  find_row, row_to_ticket, found_ticket, get_ticket, insert_ticket, choose_id, reload_ticket,
}
use support_agent_platform.Storage.EventLog.{append_event}
use support_agent_platform.Storage.Rows.{status-set_columns, status_update-without_status}
use support_agent_platform.Core.TicketJson.{updates_json}
use support_agent_platform.Core.TicketApi.{
  same_status, normalize_status, transition_status, plain_update, route_update, update_ticket,
  merge_metadata,
}
use support_agent_platform.Core.TicketActions.{
  assign_ticket, resolve_ticket, escalate_ticket, close_ticket, resolve_first, close_updates,
  reason_or_default, Closing,
}
use support_agent_platform.Core.Lifecycle.{
  stay, Evolves, Evolves-same, Evolves-trans, Keeps, Keeps-bind,
}
use support_agent_platform.Core.Lifecycle.Written.{update_ticket-Written, IsOpen, Evolves-Written}
use support_agent_platform.Core.Lifecycle.Transition.{
  tickets-append_event, transition_status-Evolves, transition_status-IsOpen,
}
use support_agent_platform.Core.Lifecycle.Guards.{guarded}

pub Keeps-frame :
    {A : Type 0} (m : Exec World A) → ((w : World) → (m w).1.tickets ≡ w.tickets) → Keeps m
Keeps-frame m same = record { at = λ w. Evolves-same (same w) }

pub append_event-Keeps :
    (id event_type actor_type actor_id : String) (payload : Dict)
    → Keeps (append_event id event_type actor_type actor_id payload)
append_event-Keeps id event_type actor_type actor_id payload =
    Keeps-frame _ (tickets-append_event id event_type actor_type actor_id payload)

-- The updates that stay after the status is taken out leave the status of a row.
plain_update-Evolves :
    (id : String) (updates : List Update) (actor_id : String) (w : World)
    → status_update updates ≡ none
    → IsOpen id w
    → Evolves w (plain_update id updates actor_id w).1
unfolding plain_update
plain_update-Evolves id updates actor_id w none_given open_row =
    logged (Repository.update_ticket id updates w).0 (Repository.update_ticket id updates w).1 (
      Evolves-Written id updates w _ (λ r h. rw (status-set_columns updates r none_given) stay)
        open_row (update_ticket-Written id updates w))
  where
    logs : Ticket → Exec World Ticket
    logs t = do
      iso ← gets (λ (v : World). v.isoformat)
      append_event id "ticket_updated" "agent" actor_id
          (entry "updates" (obj (updates_json iso updates)) end)
      pure t

    logged : (r : Result Ticket) (u : World) → Evolves w u → Evolves w (proceed r logs u).1
    logged (err e) u h = h
    logged (ok t) u h = Evolves-trans h (
        (Keeps-bind _ _ (append_event-Keeps id "ticket_updated" "agent" actor_id _)
            (λ _. Keeps-frame _ (λ v. refl))).at
          u)

route_update-Evolves :
    (requested : Option String) (t : Ticket) (id : String) (merged : List Update)
    (actor_id : String) (w : World)
    → status_update merged ≡ requested
    → IsOpen id w
    → Evolves w (route_update requested t id merged actor_id w).1
unfolding route_update
route_update-Evolves none t id merged actor_id w e open_row =
    plain_update-Evolves id merged actor_id w e open_row
route_update-Evolves (some s) t id merged actor_id w e open_row =
    elim (Bool-cases (s == status_text t.status)) [
      | inl same ↦ rw same (
          plain_update-Evolves id (without_status merged) actor_id w
            (status_update-without_status merged) open_row)
      | inr other ↦ rw other (transition_status-Evolves id s actor_id _ _ _ w open_row)
    ]

pub update_ticket-Keeps :
    (id : String) (updates : List Update) (actor_id : String)
    → Keeps (update_ticket id updates actor_id)
unfolding update_ticket
update_ticket-Keeps id updates actor_id = record {
  at =
      guarded Evolves (λ w v. Evolves-same) id _
        λ t w open_row.
          route_update-Evolves _ t id (merge_metadata t.metadata updates) actor_id w refl open_row;
}

pub assign_ticket-Keeps :
    (id assignee actor_id : String) → Keeps (assign_ticket id assignee actor_id)
unfolding assign_ticket
assign_ticket-Keeps id assignee actor_id = record {
  at =
      guarded Evolves (λ w v. Evolves-same) id _
        λ t w open_row. transition_status-Evolves id _ actor_id _ _ _ w open_row;
}

pub escalate_ticket-Keeps :
    (id actor_id reason : String) (p : Priority) → Keeps (escalate_ticket id actor_id reason p)
unfolding escalate_ticket
escalate_ticket-Keeps id actor_id reason p = record {
  at =
      guarded Evolves (λ w v. Evolves-same) id _
        λ t w open_row.
          Evolves-trans (Evolves-same refl)
            (transition_status-Evolves id _ actor_id _ _ _ _ open_row);
}

pub resolve_ticket-Keeps :
    (id actor_id note : String) (code : Option String)
    → Keeps (resolve_ticket id actor_id note code)
unfolding resolve_ticket
resolve_ticket-Keeps id actor_id note code = record {
  at =
      guarded Evolves (λ w v. Evolves-same) id _
        λ t w open_row.
          Evolves-trans (Evolves-same refl)
            (transition_status-Evolves id _ actor_id _ _ _ _ open_row);
}

-- "resolved" is the text of a status other than closed.
resolved_text :
    (t : Status) → normalize_status "resolved" ≡ ok t → status_text t ≢ status_text Status.closed
unfolding normalize_status status_text
resolved_text t h = ground (arith, eq_iff "resolved" "closed")

-- An open row evolves, and is open still.
abbrev Advances : String → World → World → Type 0
Advances id w v = IsOpen id w → Evolves w v × IsOpen id v

Advances-frame : (id : String) (w v : World) → v.tickets ≡ w.tickets → Advances id w v
Advances-frame id w v e open_row =
    (Evolves-same e, λ r h. open_row r (ap (find_row id) (sym e) ∙ h))

resolve_ticket-Advances :
    (id actor_id note : String) (code : Option String) (w : World)
    → Advances id w (resolve_ticket id actor_id note code w).1
unfolding resolve_ticket
resolve_ticket-Advances id actor_id note code =
    guarded (Advances id) (Advances-frame id) id _ λ t w open_row _. (
      Evolves-trans (Evolves-same refl) (transition_status-Evolves id _ actor_id _ _ _ _ open_row),
      transition_status-IsOpen id _ actor_id _ _ _ _ resolved_text open_row,
    )

resolve_first-Advances :
    (s : Status) (id actor_id note : String) (code : Option String) (w : World)
    → Advances id w (resolve_first s id actor_id note code w).1
unfolding resolve_first
resolve_first-Advances s id actor_id note code w open_row =
    elim (Bool-cases (same_status s Status.resolved)) [
      | inl e ↦ rw e (Advances-frame id w w refl open_row)
      | inr e ↦ rw e (
          kept (resolve_ticket id actor_id note code w).0 (resolve_ticket id actor_id note code w).1
            (resolve_ticket-Advances id actor_id note code w open_row))
    ]
  where
    kept :
        (r : Result Ticket) (v : World)
        → Evolves w v × IsOpen id v
        → Evolves w (proceed r (λ _. pure tt) v).1
          × IsOpen id (proceed {B = Unit {0}} r (λ _. pure tt) v).1
    kept (ok t) v h = h
    kept (err e) v h = h

pub close_ticket-Keeps :
    (id actor_id note : String) (c : Closing) → Keeps (close_ticket id actor_id note c)
unfolding close_ticket
close_ticket-Keeps id actor_id note c = record {
  at =
      guarded Evolves (λ w v. Evolves-same) id _
        λ t w open_row.
          closes (resolve_first t.status id actor_id note c.resolution_code w).0
            (resolve_first t.status id actor_id note c.resolution_code w).1
            (resolve_first-Advances t.status id actor_id note c.resolution_code w open_row);
}
  where
    finish : Exec World Ticket
    finish = do
      time ← now
      transition_status id "closed" actor_id "ticket_closed" (close_updates note c time) (
          entry "resolution_note" (text note) (
            entry "resolution_code" (of_option c.resolution_code)
              (entry "close_reason" (text (reason_or_default c.close_reason)) end)))

    closes :
        {w : World} (r : Result (Unit {0})) (v : World)
        → Evolves w v × IsOpen id v
        → Evolves w (proceed r (λ _. finish) v).1
    closes (err e) v h = h.0
    closes (ok u) v h =
        Evolves-trans h.0
          (Evolves-trans (Evolves-same refl) (transition_status-Evolves id _ actor_id _ _ _ _ h.1))
