-- ===== src/Core/Hitl/Verdicts.antt =====
-- core/hitl/approval_runtime.py: the outcomes of an approval and of a rejection.
use support_agent_platform.Shared.{
  String, ◌<>◌, ◌≡◌, refl, sym, ◌≢◌, true, Option, some, List, [], ◌∷◌, get, IsKeyed, ok,
}
use support_agent_platform.Shared.Text.{strip}
use support_agent_platform.Shared.Str.{str_or}
use support_agent_platform.Storage.Models.{Ticket, Status, Priority, Stage}
use support_agent_platform.Storage.World.{World, Row}
use support_agent_platform.Storage.Columns.{Update}
use support_agent_platform.Storage.Repository.{typed_row, find_row, idempotency_key_of}
use support_agent_platform.Storage.EventLog.{event_id_of}
use support_agent_platform.Storage.Literals.{IsReadable}
use support_agent_platform.Core.TicketJson.{updates_json}
use support_agent_platform.Core.TicketApi.{merge_metadata}
use support_agent_platform.Core.TicketActions.{add_event}
use support_agent_platform.Core.Outcomes.{logged_world, append_event-IsFresh, append_assoc}
use support_agent_platform.Core.Outcomes.Updates.{FreshIds}
use support_agent_platform.Core.Hitl.PendingActions.{
  PendingAction, load_pending_actions, save_pending_actions, replace_action, is_pending,
}
use support_agent_platform.Core.Hitl.RoundTrip.{IsStorable, AllStorable}
use support_agent_platform.Core.Hitl.Timeouts.{
  next_handoff_state, approval_updates, get_pending_action,
}
use support_agent_platform.Core.Hitl.ApprovalRuntime.{
  decision_payload, reject_action, mark_rejected, reject_decided,
}
use support_agent_platform.Core.Hitl.Chosen.{get_pending_action-named}
use support_agent_platform.Core.Hitl.Decided.{
  Decides, started, written_world, update_written, Decides-written,
}
use support_agent_platform.Core.Hitl.DecidedRows.{
  rejected_action, rejected_row, row_event, decision_event,
}

module _ (id actor_id : String) (remark : Option String) (w v : World) (t : Ticket)
    (target : PendingAction) (got : get_pending_action id w ≡ (ok (t, target), v))
    (pending : is_pending target ≡ true) (known : List PendingAction)
    (loads : (u : World) → load_pending_actions t u ≡ (ok known, u)) (storable : AllStorable known)
    (q : Row) (p : Priority) (s : Status) (l : Stage)
    (found : find_row q.ticket_id v.tickets ≡ some q) (readable : IsReadable q p s l)
    (not_closed : s ≢ Status.closed) where
  abbrev pub rejection_updates : List Update
  rejection_updates =
      let actions = replace_action known id (rejected_action v actor_id remark target) in
      approval_updates (next_handoff_state actions target q.handoff_state)
        ("approval_rejected:" <> target.action_type) (save_pending_actions q.metadata actions)

  -- The ticket's row, and the world after a rejection.
  abbrev pub row_rejected : Row
  row_rejected = rejected_row v q known id target (rejected_action v actor_id remark target)

  abbrev pub world_rejected : World
  world_rejected =
      logged_world
        (decision_event v row_rejected id "rejected" "rejected_by" actor_id target remark)
        (written_world actor_id v q rejection_updates)

  pub mark_rejected_lem :
      t ≡ typed_row q p s l
      → IsKeyed q.metadata
      → FreshIds 2 v.uuid v.drawn v.events
      → IsStorable (rejected_action v actor_id remark target)
      → mark_rejected id actor_id remark w ≡ (
        ok (record {
          ticket = typed_row row_rejected p s l;
          pending_action = rejected_action v actor_id remark target;
        }),
        world_rejected,
      )
  unfolding mark_rejected reject_decided reject_action add_event typed_row idempotency_key_of
      decision_payload get str_or strip event_id_of updates_json merge_metadata
  mark_rejected_lem same keyed fresh storable_after =
      rw
        (
          got,
          pending,
          same,
          sym same,
          loads (started v),
          update_written id actor_id v q p s l found readable not_closed known storable
              (rejected_action v actor_id remark target)
              (get_pending_action-named id v t target w got) storable_after q.metadata keyed
              (next_handoff_state
                (replace_action known id (rejected_action v actor_id remark target)) target
                q.handoff_state)
              ("approval_rejected:" <> target.action_type) fresh.0,
          append_event-IsFresh q.ticket_id "approval_decision" "agent" actor_id
              (decision_payload id "rejected" "rejected_by" target actor_id remark)
              (written_world actor_id v q rejection_updates) (fresh.1 _ refl).0 refl,
        )
        refl

  pub mark_rejected-Decides :
      t ≡ typed_row q p s l
      → IsKeyed q.metadata
      → FreshIds 2 v.uuid v.drawn v.events
      → IsStorable (rejected_action v actor_id remark target)
      → let decided = rejected_action v actor_id remark target in
        let after = rejected_row v q known id target decided in
        Decides id v after
          (typed_row after p s l)
          known
          decided
          (row_event v after actor_id
            ∷ decision_event v after id "rejected" "rejected_by" actor_id target remark
            ∷ [])
          (mark_rejected id actor_id remark w)
  unfolding typed_row event_id_of updates_json merge_metadata approval_updates next_handoff_state
  mark_rejected-Decides same keyed fresh storable_after =
      let decided = rejected_action v actor_id remark target in
      Decides-written id actor_id v q p s l found readable not_closed known storable decided
        (get_pending_action-named id v t target w got) storable_after q.metadata keyed
        (next_handoff_state (replace_action known id decided) target q.handoff_state)
        ("approval_rejected:" <> target.action_type) world_rejected _ _ refl
        (append_assoc v.events _ _) (mark_rejected_lem same keyed fresh storable_after)
