-- ===== src/Core/Outcomes/Updates.antt =====
-- core/ticket_api.py: `update_ticket` without a change of the status, and the events that are added
-- after an operation.
use support_agent_platform.Shared.{
  ℕ, zero, suc, String, ◌≡◌, refl, ◌∙◌, ◌≢◌, none, some, List, [], ◌∷◌, ◌++◌, Dict, obj, end, entry,
  get, ok,
}
use support_agent_platform.Shared.Text.{strip}
use support_agent_platform.Shared.Str.{str_or}
use support_agent_platform.Storage.Models.{Status, Priority, Stage, TicketEvent}
use support_agent_platform.Storage.World.{World, Row}
use support_agent_platform.Storage.Literals.{IsReadable}
use support_agent_platform.Core.TicketJson.{updates_json}
use support_agent_platform.Core.Outcomes.{
  updated_row, updated_world, next_event, logged_world, IsFresh, append_event-IsFresh,
  require_ticket-IsReadable, update_ticket-IsReadable,
}
use support_agent_platform.Core.Outcomes.Rows.{same_status-closed}
use support_agent_platform.Storage.Columns.{Update, unknown_fields, set_columns, status_update}
use support_agent_platform.Storage.Repository.{typed_row, find_row, idempotency_key_of}
use support_agent_platform.Storage.EventLog.{find_event, event_id_of}
use support_agent_platform.Core.TicketApi.{
  merge_metadata, route_update, plain_update, update_ticket, ensure_not_closed,
}

unknown_fields-merge_metadata :
    (d : Dict) (us : List Update) → unknown_fields (merge_metadata d us) ≡ unknown_fields us
unfolding unknown_fields merge_metadata
unknown_fields-merge_metadata d [] = refl
unknown_fields-merge_metadata d (Update.other key ∷ us) = cc (unknown_fields-merge_metadata d us)
unknown_fields-merge_metadata d (_ ∷ us) = unknown_fields-merge_metadata d us

status_update-merge_metadata :
    (d : Dict) (us : List Update) → status_update (merge_metadata d us) ≡ status_update us
unfolding status_update merge_metadata
status_update-merge_metadata d [] = refl
status_update-merge_metadata d (Update.status s ∷ us) = refl
status_update-merge_metadata d (_ ∷ us) = status_update-merge_metadata d us

-- Each of the next identifiers of events is new when it is drawn.
abbrev pub FreshIds : ℕ → (ℕ → String) → ℕ → List TicketEvent → Type 0
FreshIds zero uuid drawn events = Unit
FreshIds (suc n) uuid drawn events =
    (find_event (event_id_of (uuid drawn)) events ≡ none)
    × ((e : TicketEvent)
        → e.event_id ≡ event_id_of (uuid drawn)
        → FreshIds n uuid (suc drawn) (events ++ e ∷ []))

-- The event of an update, in the world after it.
abbrev pub update_event : String → List Update → String → World → TicketEvent
update_event id us actor_id w =
    next_event id "ticket_updated" "agent" actor_id
      (entry "updates" (obj (updates_json w.isoformat us)) end) (updated_world id us w)

module _ (id : String) (w : World) (r : Row) (found : find_row id w.tickets ≡ some r) (p : Priority)
    (s : Status) (l : Stage) (readable : IsReadable r p s l) (fresh : IsFresh w)
    (not_closed : s ≢ Status.closed) (us : List Update) (actor_id : String)
    (no_status : status_update us ≡ none) (known : unknown_fields us ≡ []) (q : Priority)
    (k : Stage)
    (after_readable : IsReadable (set_columns (merge_metadata r.metadata us) r) q s k) where
  abbrev merged : List Update
  merged = merge_metadata r.metadata us

  pub update_ticket_lem : update_ticket id us actor_id w ≡ (
    ok (typed_row (updated_row merged w r) q s k),
    logged_world (update_event id merged actor_id w) (updated_world id merged w),
  )
  unfolding update_ticket route_update plain_update typed_row ensure_not_closed idempotency_key_of
      str_or strip get
  update_ticket_lem =
      rw
        (
          require_ticket-IsReadable id w r found p s l readable,
          same_status-closed s not_closed,
          status_update-merge_metadata r.metadata us,
          no_status,
          update_ticket-IsReadable id w r found merged q s k
              (unknown_fields-merge_metadata r.metadata us ∙ known) after_readable,
          append_event-IsFresh id "ticket_updated" "agent" actor_id
              (entry "updates" (obj (updates_json w.isoformat merged)) end)
              (updated_world id merged w) fresh refl,
        )
        refl
