-- ===== src/Core/Lifecycle/Statuses.antt =====
-- Programs of calls of core/ticket_api.py that leave the status of every ticket.
use support_agent_platform.Shared.{
  ℕ, String, ◌≡◌, refl, ap, ◌∙◌, ◌⊎◌, inl, inr, true, false, Option, none, some, List, [], ◌∷◌,
  arith, ◌==◌, eq_iff, Bool-cases, ne_of_test, Dict, obj, end, entry, Exec, pure, gets, ◌>>◌,
}
use support_agent_platform.Shared.Yields.{OnOk, Anything}
use support_agent_platform.Storage.Models.{Ticket}
use support_agent_platform.Storage.World.{World, Row}
use support_agent_platform.Storage.Columns.{Update, set_columns, status_update, unknown_fields}
use support_agent_platform.Storage.Repository
use support_agent_platform.Storage.Repository.{
  find_row, update_rows, row_to_ticket, typed_row, reload_ticket, write_columns, reject_unknown,
  found_ticket, get_ticket,
}
use support_agent_platform.Storage.EventLog.{append_event}
use support_agent_platform.Storage.Rows.{
  find_row-update_self, find_row-update_ne, ticket_id-set_columns, status-set_columns,
}
use support_agent_platform.Core.TicketApi.{
  require_ticket, ensure_not_closed, update_ticket, route_update, plain_update, merge_metadata,
}
use support_agent_platform.Core.TicketJson.{updates_json}
use support_agent_platform.Core.Lifecycle.Written.{
  Written, written, unchanged, changed, update_ticket-Written,
}
use support_agent_platform.Core.Lifecycle.Settling.{
  status_of, SameStatuses, SameStatuses-frame, Settles, Settles-bind, Settles-then, Settles-pure,
  OnOk-each, handoff_state-row_to_ticket, Settles-frame, append_event-Settles,
  require_ticket-Settles,
}

-- An update without a status.
module _ (id : String) (us : List Update) (quiet : status_update us ≡ none) where
  SameStatuses-Written : (v w : World) → Written id us v w → SameStatuses v w
  SameStatuses-Written v w (unchanged e) = SameStatuses-frame v w e
  SameStatuses-Written v w (changed r time found e) = record {
    at = λ j. at_row j (Bool-cases (j == id));
  }
    where
      at_row :
          (j : String)
          → ((j == id) ≡ true) ⊎ ((j == id) ≡ false)
          → status_of (find_row j w.tickets) ≡ status_of (find_row j v.tickets)
      at_row j (inl same) =
          rw
            (
              (eq_iff j id).0 same,
              e,
              find_row-update_self (written us time) (ticket_id-set_columns us) id v.tickets r
                  found,
              found,
            )
            (ap some (status-set_columns us r quiet))
      at_row j (inr other) =
          rw
            (
              e,
              find_row-update_ne (written us time) (ticket_id-set_columns us) id j v.tickets
                  (ne_of_test j id other),
            )
            refl

  module _ (state : String) (sets : (r : Row) → (set_columns us r).handoff_state ≡ state) where
    handoff_state-row :
        (r : Row)
        → r.handoff_state ≡ state
        → OnOk (λ (t : Ticket). t.handoff_state ≡ state) (row_to_ticket r)
    handoff_state-row r h =
        OnOk-each (row_to_ticket r) (λ t e. handoff_state-row_to_ticket r t e ∙ h)

    returned :
        (w : World)
        → OnOk (λ (t : Ticket). t.handoff_state ≡ state) (Repository.update_ticket id us w).0
    unfolding Repository.update_ticket reject_unknown write_columns reload_ticket find_row
        update_rows
    returned w = by_fields (unknown_fields us) refl
      where
        by_row :
            (o : Option Row)
            → find_row id w.tickets ≡ o
            → unknown_fields us ≡ []
            → OnOk (λ (t : Ticket). t.handoff_state ≡ state) (Repository.update_ticket id us w).0
        by_row none e h = rw (h, e) tt
        by_row (some r) e h =
            rw
              (
                h,
                e,
                find_row-update_self (written us (w.clock w.reads)) (ticket_id-set_columns us) id
                    w.tickets r e,
              )
              (handoff_state-row (written us (w.clock w.reads) r) (sets r))

        by_fields :
            (keys : List String)
            → unknown_fields us ≡ keys
            → OnOk (λ (t : Ticket). t.handoff_state ≡ state) (Repository.update_ticket id us w).0
        by_fields [] h = by_row (find_row id w.tickets) refl h
        by_fields (k ∷ keys) h = rw h tt

    written-Settles :
        Settles (λ (t : Ticket). t.handoff_state ≡ state) (Repository.update_ticket id us)
    written-Settles = record {
      state = λ w.
          SameStatuses-Written w (Repository.update_ticket id us w).1
            (update_ticket-Written id us w);
      result = returned;
    }

    plain_update-Settles :
        (actor_id : String)
        → Settles (λ (t : Ticket). t.handoff_state ≡ state) (plain_update id us actor_id)
    unfolding plain_update
    plain_update-Settles actor_id =
        Settles-bind (Repository.update_ticket id us) _ written-Settles λ t h.
          Settles-bind (gets (λ (w : World). w.isoformat)) (logs t) (Settles-frame _ (λ w. refl))
            λ iso _.
              Settles-then _ (pure t) (append_event-Settles id _ _ actor_id _) (Settles-pure t h)
      where
        logs : Ticket → (ℕ → String) → Exec World Ticket
        logs t iso = do
          append_event id "ticket_updated" "agent" actor_id
              (entry "updates" (obj (updates_json iso us)) end)
          pure t

ensure_not_closed-Settles : (t : Ticket) → Settles Anything (ensure_not_closed t)
unfolding ensure_not_closed
ensure_not_closed-Settles t = Settles-frame (ensure_not_closed t) (λ w. ground arith)

status_update-merge :
    (d : Dict) (us : List Update) → status_update (merge_metadata d us) ≡ status_update us
unfolding status_update merge_metadata
status_update-merge d [] = refl
status_update-merge d (Update.status s ∷ us) = refl
status_update-merge d (u ∷ us) = ground (arith, status_update-merge d us)

-- An update without a status, whose columns give the handoff state that is meant.
pub update_ticket-Settles :
    (id : String) (us : List Update) (actor_id state : String)
    → status_update us ≡ none
    → ((d : Dict) (r : Row) → (set_columns (merge_metadata d us) r).handoff_state ≡ state)
    → Settles (λ (t : Ticket). t.handoff_state ≡ state) (update_ticket id us actor_id)
unfolding update_ticket route_update
update_ticket-Settles id us actor_id state quiet sets =
    Settles-bind (require_ticket id) _ (require_ticket-Settles id) λ t _.
      Settles-then (ensure_not_closed t) _ (ensure_not_closed-Settles t) (
        routed t (merge_metadata t.metadata us) (status_update-merge t.metadata us ∙ quiet)
          (sets t.metadata))
  where
    plain_route :
        (t : Ticket) (merged : List Update)
        → status_update merged ≡ none
        → ((r : Row) → (set_columns merged r).handoff_state ≡ state)
        → Settles
            (λ (t' : Ticket). t'.handoff_state ≡ state)
            (route_update none t id merged actor_id)
    plain_route t merged e k = plain_update-Settles id merged e state k actor_id

    routed :
        (t : Ticket) (merged : List Update)
        → status_update merged ≡ none
        → ((r : Row) → (set_columns merged r).handoff_state ≡ state)
        → Settles
            (λ (t' : Ticket). t'.handoff_state ≡ state)
            (route_update (status_update merged) t id merged actor_id)
    routed t merged e k = rw e (plain_route t merged e k)
