-- ===== src/Core/Outcomes/Actions.antt =====
-- core/ticket_api.py: assignment, resolution and escalation of a ticket that can be read.
use support_agent_platform.Shared.{
  String, ◌<>◌, ◌≡◌, refl, ◌≢◌, Option, some, [], ◌∷◌, if◌then◌else◌, text, end, entry, get, put,
  merge, ok,
}
use support_agent_platform.Shared.Text.{strip}
use support_agent_platform.Shared.Str.{str_or, of_option}
use support_agent_platform.Storage.Models.{
  moment, Status, Priority, Stage, status_text, priority_text, stage_text, pending, escalated,
  classified, awaiting_human, parse_status, parse_stage,
}
use support_agent_platform.Storage.World.{World, Row}
use support_agent_platform.Storage.Columns.{Update, unknown_fields, set_columns, has_stage}
use support_agent_platform.Storage.Repository.{typed_row, find_row, idempotency_key_of}
use support_agent_platform.Storage.Literals.{
  reads_times-resolved_at, reads_times-escalated_at, IsReadable, parse_priority-priority_text,
}
use support_agent_platform.Core.TicketApi.{
  ensure_not_closed, transition_updates, transition_payload,
}
use support_agent_platform.Core.TicketActions.{
  is_assigned, assign_ticket, resolve_updates, resolve_ticket, escalate_ticket,
}
use support_agent_platform.Core.Outcomes.{
  IsFresh, Moved, Moved-moved_world, Moved-now, moved_world, require_ticket-IsReadable,
  transition_status-IsReadable,
}
use support_agent_platform.Core.Outcomes.Rows.{
  same_status-closed, can_assign, can_resolve, can_escalate, later_world, assigned_row,
  assignment_event, resolved_row, resolution_event, escalated_row, escalation_event,
}

module _ (id : String) (w : World) (r : Row) (found : find_row id w.tickets ≡ some r) (p : Priority)
    (s : Status) (l : Stage) (readable : IsReadable r p s l) (fresh : IsFresh w)
    (not_closed : s ≢ Status.closed) where
  -- Assignment of a ticket that can be read and is not closed, when the next event's identifier is
  -- new: it succeeds, whatever the status was; the row is as before but for the assignee, the stage
  -- "classified", the last action, the status "pending" and the time; no other row changes, and one
  -- event is appended, which names both statuses and whether there was an assignee before.
  pub assign_ticket-Moved :
      (assignee actor_id : String)
      → Moved id w
          (assigned_row w r assignee)
          (typed_row (assigned_row w r assignee) p pending classified)
          (assignment_event id w r s assignee actor_id ∷ [])
          (assign_ticket id assignee actor_id w)
  unfolding assign_ticket ensure_not_closed transition_updates has_stage set_columns unknown_fields
      stage_text status_text transition_payload typed_row merge get put idempotency_key_of str_or
      strip parse_status parse_stage
  assign_ticket-Moved assignee actor_id =
      let event_type = if is_assigned r.assignee then "ticket_reassigned" else "ticket_assigned" in
      let extra =
        Update.assignee (some assignee)
        ∷ Update.lifecycle_stage "classified"
        ∷ Update.last_agent_action (some ("assign:" <> assignee))
        ∷ [] in
      Moved-moved_world id (transition_updates pending l extra) event_type actor_id _ w r _ _ found
        (rw
          (
            require_ticket-IsReadable id w r found p s l readable,
            same_status-closed s not_closed,
            transition_status-IsReadable id w r found p s l readable fresh pending actor_id
                event_type extra (entry "assignee" (text assignee) end) p classified
                (can_assign s not_closed) refl
                (record {
                  priority = readable.priority;
                  status = refl;
                  stage = refl;
                  times = readable.times;
                })
                refl,
          )
          refl)

  pub resolve_ticket_lem :
      (actor_id note : String) (code : Option String)
      → resolve_ticket id actor_id note code w ≡ (
        ok (typed_row (resolved_row w r note code) p Status.resolved Stage.resolved),
        moved_world id
            (transition_updates Status.resolved l (resolve_updates note code (w.clock w.reads)))
            "ticket_resolved"
            actor_id
            (transition_payload s Status.resolved
              (entry "resolution_note" (text note) (entry "resolution_code" (of_option code) end)))
            (later_world w),
      )
  unfolding resolve_ticket resolve_updates ensure_not_closed transition_updates has_stage
      set_columns unknown_fields stage_text status_text transition_payload typed_row merge get put
      idempotency_key_of str_or strip parse_status parse_stage
  resolve_ticket_lem actor_id note code =
      let extra = resolve_updates note code (w.clock w.reads) in
      rw
        (
          require_ticket-IsReadable id w r found p s l readable,
          same_status-closed s not_closed,
          transition_status-IsReadable id (later_world w) r found p s l readable fresh
              Status.resolved actor_id "ticket_resolved" extra
              (entry "resolution_note" (text note) (entry "resolution_code" (of_option code) end)) p
              Stage.resolved (can_resolve s not_closed) refl
              (record {
                priority = readable.priority;
                status = refl;
                stage = refl;
                times = reads_times-resolved_at r (w.clock w.reads) readable.times;
              })
              refl,
        )
        refl

  -- Resolution of such a ticket succeeds too, whatever the status was.
  pub resolve_ticket-Moved :
      (actor_id note : String) (code : Option String)
      → Moved id w
          (resolved_row w r note code)
          (typed_row (resolved_row w r note code) p Status.resolved Stage.resolved)
          (resolution_event id w r s actor_id note code ∷ [])
          (resolve_ticket id actor_id note code w)
  unfolding resolve_updates transition_updates has_stage set_columns stage_text status_text
      transition_payload merge put
  resolve_ticket-Moved actor_id note code = Moved-now (
      Moved-moved_world id
        (transition_updates Status.resolved l (resolve_updates note code (w.clock w.reads)))
        "ticket_resolved" actor_id _ (later_world w) r _ _ found
        (resolve_ticket_lem actor_id note code))

  -- Escalation of a ticket that can be read and is neither closed nor resolved, when the next event's
  -- identifier is new: it succeeds; the row gets the new priority, the time of escalation, the stage
  -- "awaiting_human", the requested handoff, the high risk and the status "escalated"; no other row
  -- changes, and one event is appended, with both statuses, the reason and the priority.
  pub escalate_ticket-Moved :
      (actor_id reason : String) (new_priority : Priority)
      → s ≢ Status.resolved
      → Moved id w
          (escalated_row w r new_priority)
          (typed_row (escalated_row w r new_priority) new_priority escalated awaiting_human)
          (escalation_event id w r s actor_id reason new_priority ∷ [])
          (escalate_ticket id actor_id reason new_priority w)
  unfolding escalate_ticket ensure_not_closed transition_updates has_stage set_columns
      unknown_fields stage_text status_text transition_payload typed_row merge get put
      idempotency_key_of str_or strip parse_status parse_stage
  escalate_ticket-Moved actor_id reason new_priority not_resolved =
      let extra =
        Update.priority (priority_text new_priority)
        ∷ Update.escalated_at (some (moment (w.clock w.reads)))
        ∷ Update.lifecycle_stage "awaiting_human"
        ∷ Update.handoff_state "requested"
        ∷ Update.risk_level "high"
        ∷ Update.last_agent_action (some "escalate")
        ∷ [] in
      Moved-now (
        Moved-moved_world id (transition_updates escalated l extra) "ticket_escalated" actor_id _
          (later_world w) r _ _ found
          (rw
            (
              require_ticket-IsReadable id w r found p s l readable,
              same_status-closed s not_closed,
              transition_status-IsReadable id (later_world w) r found p s l readable fresh escalated
                  actor_id "ticket_escalated" extra
                  (entry "reason" (text reason)
                    (entry "priority" (text (priority_text new_priority)) end))
                  new_priority awaiting_human (can_escalate s not_closed not_resolved) refl
                  (record {
                    priority = parse_priority-priority_text new_priority;
                    status = refl;
                    stage = refl;
                    times = reads_times-escalated_at r (w.clock w.reads) readable.times;
                  })
                  refl,
            )
            refl))
