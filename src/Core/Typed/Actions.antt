-- ===== src/Core/Typed/Actions.antt =====
-- core/ticket_api.py: assignment, resolution, escalation, closure and creation write literals only.
use support_agent_platform.Shared.{
  ℕ, String, ◌≡◌, refl, inl, inr, Bool, true, false, Option, none, some, List, [], ◌∷◌, Bool-cases,
  Dict, pure, gets,
}
use support_agent_platform.Shared.Elements.{All, All-append}
use support_agent_platform.Storage.Models.{
  moment, Priority, Status, Stage, stage_text, opened, intake, parse_priority,
}
use support_agent_platform.Storage.World.{World}
use support_agent_platform.Storage.Columns.{Update}
use support_agent_platform.Storage.Repository
use support_agent_platform.Storage.Times.{is_read}
use support_agent_platform.Storage.Repository.{get_ticket}
use support_agent_platform.Storage.Literals.{
  is_read-moment, parse_status-status_text, parse_stage-stage_text,
}
use support_agent_platform.Core.TicketApi.{same_status}
use support_agent_platform.Core.TicketActions.{
  Closing, NewTicket, assign_ticket, resolve_updates, resolve_ticket, escalate_ticket,
  close_updates, handoff_update, metadata_update, resolve_first, close_ticket, reason_or_default,
  draft_of, create_ticket, bind_session_ticket, merge_ticket_metadata,
}
use support_agent_platform.Core.Lifecycle.Creation.{tickets-set_ticket_id}
use support_agent_platform.Core.Typed.{
  IsTyped, IsLiteral, KeepsTyped, KeepsTyped-bind, KeepsTyped-then, KeepsTyped-frame,
  create_ticket-typed,
}
use support_agent_platform.Core.Typed.Operations.{
  pure-KeepsTyped, gets-KeepsTyped, append_event-KeepsTyped, typed_rules,
  transition_status-KeepsTyped, update_ticket-KeepsTyped, priority_text-IsLiteral,
  stage_text-IsLiteral,
}

pub assign_ticket-KeepsTyped :
    (id assignee actor_id : String) → KeepsTyped (assign_ticket id assignee actor_id)
unfolding assign_ticket
assign_ticket-KeepsTyped id assignee actor_id =
    search (typed_rules, transition_status-KeepsTyped, stage_text-IsLiteral) depth 14

resolve_updates-IsLiteral :
    (note : String) (code : Option String) (time : ℕ)
    → All IsLiteral (resolve_updates note code time)
unfolding resolve_updates
resolve_updates-IsLiteral note code time =
    (tt, (tt, (tt, (tt, (is_read-moment time, (stage_text-IsLiteral Stage.resolved, (tt, tt)))))))

pub resolve_ticket-KeepsTyped :
    (id actor_id note : String) (code : Option String)
    → KeepsTyped (resolve_ticket id actor_id note code)
unfolding resolve_ticket
resolve_ticket-KeepsTyped id actor_id note code =
    search (typed_rules, transition_status-KeepsTyped, resolve_updates-IsLiteral) depth 14

pub escalate_ticket-KeepsTyped :
    (id actor_id reason : String) (p : Priority) → KeepsTyped (escalate_ticket id actor_id reason p)
unfolding escalate_ticket
escalate_ticket-KeepsTyped id actor_id reason p =
    search
      (
        typed_rules, transition_status-KeepsTyped, priority_text-IsLiteral, stage_text-IsLiteral,
        is_read-moment,
      )
      depth 20

close_updates-IsLiteral :
    (note : String) (c : Closing) (time : ℕ) → All IsLiteral (close_updates note c time)
unfolding close_updates handoff_update metadata_update
close_updates-IsLiteral note c time =
    All-append IsLiteral fixed _ literal
      (All-append IsLiteral _ _ (handoff c.handoff_state) (metadata c.metadata))
  where
    fixed : List Update
    fixed =
        Update.needs_handoff false
        ∷ Update.latest_message note
        ∷ Update.resolution_note (some note)
        ∷ Update.resolution_code c.resolution_code
        ∷ Update.close_reason (some (reason_or_default c.close_reason))
        ∷ Update.closed_at (some (moment time))
        ∷ Update.lifecycle_stage (stage_text Stage.closed)
        ∷ Update.last_agent_action (some "close")
        ∷ []

    literal : All IsLiteral fixed
    literal = (
      tt,
      (tt, (tt, (tt, (tt, (is_read-moment time, (stage_text-IsLiteral Stage.closed, (tt, tt))))))),
    )

    handoff : (o : Option String) → All IsLiteral (handoff_update o)
    handoff none = tt
    handoff (some s) = (tt, tt)

    metadata : (o : Option Dict) → All IsLiteral (metadata_update o)
    metadata none = tt
    metadata (some d) = (tt, tt)

resolve_first-KeepsTyped :
    (s : Status) (id actor_id note : String) (code : Option String)
    → KeepsTyped (resolve_first s id actor_id note code)
unfolding resolve_first
resolve_first-KeepsTyped s id actor_id note code =
    let resolution =
      KeepsTyped-then (resolve_ticket id actor_id note code) (pure tt)
        (resolve_ticket-KeepsTyped id actor_id note code) (pure-KeepsTyped tt) in
    record {
      at = λ w h. elim (Bool-cases (same_status s Status.resolved)) [
        | inl e ↦ rw (resolve_first, e) h
        | inr e ↦ rw (resolve_first, e) (resolution.at w h)
      ];
    }

pub close_ticket-KeepsTyped :
    (id actor_id note : String) (c : Closing) → KeepsTyped (close_ticket id actor_id note c)
unfolding close_ticket
close_ticket-KeepsTyped id actor_id note c =
    search
      (typed_rules, resolve_first-KeepsTyped, transition_status-KeepsTyped, close_updates-IsLiteral)
      depth 16

bind_session_ticket-KeepsTyped :
    (mapped : Bool) (session_id id : String) (metadata : Dict)
    → KeepsTyped (bind_session_ticket mapped session_id id metadata)
unfolding bind_session_ticket
bind_session_ticket-KeepsTyped false session_id id metadata = pure-KeepsTyped tt
bind_session_ticket-KeepsTyped true session_id id metadata =
    KeepsTyped-then _ _ (KeepsTyped-frame _ (tickets-set_ticket_id session_id id metadata))
      (pure-KeepsTyped tt)

draft_of-IsTyped :
    (n : NewTicket) (p : Priority) → parse_priority n.priority ≡ some p → IsTyped (draft_of n).row
unfolding draft_of is_read
draft_of-IsTyped n p h = record {
  priority = (p, h);
  status = (opened, parse_status-status_text opened);
  stage = (intake, parse_stage-stage_text intake);
  times = refl;
}

-- The priority of a new ticket must be a literal: the status and the stage are.
pub create_ticket-KeepsTyped :
    (mapped : Bool) (n : NewTicket) (p : Priority)
    → parse_priority n.priority ≡ some p
    → KeepsTyped (create_ticket mapped n)
unfolding create_ticket
create_ticket-KeepsTyped mapped n p h =
    KeepsTyped-bind (Repository.create_ticket (draft_of n)) _
      (create_ticket-typed (draft_of n) (draft_of-IsTyped n p h))
      λ t. KeepsTyped-bind (gets (λ (w : World). w.isoformat)) _ (gets-KeepsTyped _) λ iso.
        KeepsTyped-then _ _
          (append_event-KeepsTyped t.ticket_id "ticket_created" "system" "ticket-api" _)
          (KeepsTyped-then _ _
            (bind_session_ticket-KeepsTyped mapped n.session_id t.ticket_id n.metadata)
            (pure-KeepsTyped t))

pub merge_ticket_metadata-KeepsTyped :
    (id : String) (patch : Dict) (actor_id : String)
    → KeepsTyped (merge_ticket_metadata id patch actor_id)
unfolding merge_ticket_metadata
merge_ticket_metadata-KeepsTyped id patch actor_id = update_ticket-KeepsTyped id _ actor_id (tt, tt)
