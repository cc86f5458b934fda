-- ===== src/Core/Hitl/Decided.antt =====
-- core/hitl/approval_runtime.py: what an approval and a rejection write.
use support_agent_platform.Shared.{
  suc, String, ◌≡◌, refl, sym, ◌≢◌, none, some, List, ◌++◌, test_of_ne, ==_refl, Dict, merge,
  IsKeyed, Result, ok,
}
use support_agent_platform.Storage.Models.{Ticket, TicketEvent, Status, Priority, Stage}
use support_agent_platform.Storage.World.{World, Row}
use support_agent_platform.Storage.Columns.{Update, unknown_fields, set_columns, status_update}
use support_agent_platform.Storage.Repository.{typed_row, find_row}
use support_agent_platform.Storage.Rows.{
  find_row-update_self, find_row-update_ne, ticket_id-set_columns,
}
use support_agent_platform.Storage.EventLog.{find_event, event_id_of}
use support_agent_platform.Storage.Literals.{IsReadable}
use support_agent_platform.Core.TicketApi.{merge_metadata, update_ticket}
use support_agent_platform.Core.Outcomes.{updated_row, updated_world, logged_world}
use support_agent_platform.Core.Outcomes.Updates.{update_event, update_ticket_lem}
use support_agent_platform.Core.Hitl.PendingActions.{
  PendingAction, load_pending_actions, save_pending_actions, replace_action, find_action,
}
use support_agent_platform.Core.Hitl.RoundTrip.{IsStorable, AllStorable}
use support_agent_platform.Core.Hitl.Replaced.{
  find_action-replace_action, AllStorable-replace_action, load_pending_actions-merge,
}
use support_agent_platform.Core.Hitl.Timeouts.{approval_updates}
use support_agent_platform.Core.Hitl.ApprovalRuntime.{ApprovalDecisionResult}

-- The columns that a decision writes.
abbrev pub decided_row : World → Row → String → String → Dict → Row
decided_row v q handoff last saved = record q {
  handoff_state = handoff;
  last_agent_action = some last;
  metadata = merge q.metadata saved;
  updated_at = v.clock (suc v.reads);
}

-- What a decision returns and leaves: the row of its ticket, the rows of all others as they were, the
-- events that it appends, and the actions that are read back.
pub record Decides (id : String) (w : World) (after : Row) (t : Ticket) (known : List PendingAction)
    (decided : PendingAction) (logged : List TicketEvent)
    (out : Result ApprovalDecisionResult × World) : Type 0 where
  pub returned : out.0 ≡ ok (record { ticket = t; pending_action = decided })
  pub stored : find_row after.ticket_id out.1.tickets ≡ some after
  pub others : (j : String) → j ≢ after.ticket_id → find_row j out.1.tickets ≡ find_row j w.tickets
  pub appended : out.1.events ≡ w.events ++ logged
  pub loaded : (u : World) → load_pending_actions t u ≡ (ok (replace_action known id decided), u)
  pub found : find_action (replace_action known id decided) id ≡ some decided
  pub kept :
      (j : String) → j ≢ id → find_action (replace_action known id decided) j ≡ find_action known j

abbrev pub started : World → World
started v = record v { reads = suc v.reads }

-- The world after the update and its event.
abbrev pub written_world : String → World → Row → List Update → World
written_world actor_id v q us =
    let merged = merge_metadata q.metadata us in
    logged_world (update_event q.ticket_id merged actor_id (started v))
      (updated_world q.ticket_id merged (started v))

module _ (id actor_id : String) (v : World) (q : Row) (p : Priority) (s : Status) (l : Stage)
    (found : find_row q.ticket_id v.tickets ≡ some q) (readable : IsReadable q p s l)
    (not_closed : s ≢ Status.closed) (known : List PendingAction) (storable : AllStorable known)
    (decided : PendingAction) (named : decided.approval_id ≡ id)
    (storable_after : IsStorable decided) (m : Dict) (keyed : IsKeyed m)
    (handoff last : String) where
  abbrev saved : Dict
  saved = save_pending_actions m (replace_action known id decided)

  abbrev written : List Update
  written = approval_updates handoff last saved

  abbrev merged : List Update
  merged = merge_metadata q.metadata written

  abbrev after_update : World
  after_update = written_world actor_id v q written

  abbrev after : Row
  after = decided_row v q handoff last saved

  pub update_written :
      find_event (event_id_of (v.uuid v.drawn)) v.events ≡ none
      → update_ticket q.ticket_id written actor_id (started v)
        ≡ (ok (typed_row after p s l), after_update)
  unfolding typed_row approval_updates merge_metadata unknown_fields status_update set_columns
  update_written fresh =
      update_ticket_lem q.ticket_id (started v) q found p s l readable fresh not_closed written
        actor_id refl refl p l
        (record {
          priority = readable.priority;
          status = readable.status;
          stage = readable.stage;
          times = readable.times;
        })

  pub Decides-written :
      (u : World) (logged : List TicketEvent) (out : Result ApprovalDecisionResult × World)
      → u.tickets ≡ after_update.tickets
      → u.events ≡ v.events ++ logged
      → out ≡ (ok (record { ticket = typed_row after p s l; pending_action = decided }), u)
      → Decides id v after (typed_row after p s l) known decided logged out
  unfolding typed_row approval_updates merge_metadata set_columns
  Decides-written u logged out rows events e = rw e (record {
    returned = refl;
    stored = rw rows (
        find_row-update_self (updated_row merged (started v)) (λ r. ticket_id-set_columns merged r)
          q.ticket_id v.tickets q found);
    others = λ j ne. rw rows (
        find_row-update_ne (updated_row merged (started v)) (λ r. ticket_id-set_columns merged r)
          q.ticket_id j v.tickets ne);
    appended = events;
    loaded = λ v.
        load_pending_actions-merge _ q.metadata m (replace_action known id decided) v refl keyed
          (AllStorable-replace_action id decided storable_after known storable);
    found = rw (find_action-replace_action id decided named known id, ==_refl id) refl;
    kept = λ j ne.
        rw (find_action-replace_action id decided named known j, test_of_ne id j (λ e. ne (sym e)))
          refl;
  })
