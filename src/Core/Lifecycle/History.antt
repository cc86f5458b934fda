-- ===== src/Core/Lifecycle/History.antt =====
-- Histories of calls of core/ticket_api.py, core/hitl/approval_runtime.py, core/handoff_manager.py,
-- workflows/case_collab_workflow.py and core/tool_router.py, whatever their arguments and whether they raise or not.
use support_agent_platform.Shared.{
  String, ◌≡◌, refl, subst, ◌≢◌, Bool, Option, none, some, List, [], ◌∷◌, Value, Dict, Exec,
}
use support_agent_platform.Storage.Models.{
  Status, status_text, Ticket, Status, Priority, status_text,
}
use support_agent_platform.Storage.World.{World, Row}
use support_agent_platform.Storage.Columns.{Update}
use support_agent_platform.Storage.Repository.{find_row}
use support_agent_platform.Core.TicketApi.{update_ticket}
use support_agent_platform.Core.TicketActions.{
  NewTicket, Closing, create_ticket, assign_ticket, resolve_ticket, escalate_ticket, close_ticket,
  bind_session_ticket, merge_ticket_metadata, add_event,
}
use support_agent_platform.Core.TicketMerge.{
  MergeCall, accept_merge_suggestion, reject_merge_suggestion,
}
use support_agent_platform.Core.Lifecycle.{
  Lifecycle, stay, move, Keeps, RowEvolves, Evolves, Evolves-same, Evolves-trans,
}
use support_agent_platform.Core.Lifecycle.Actions.{
  update_ticket-Keeps, assign_ticket-Keeps, resolve_ticket-Keeps, escalate_ticket-Keeps,
  close_ticket-Keeps,
}
use support_agent_platform.Core.Lifecycle.Creation.{create_ticket-Keeps, bind_session_ticket-Keeps}
use support_agent_platform.Core.Lifecycle.Merging.{
  add_event-Keeps, accept_merge_suggestion-Keeps, reject_merge_suggestion-Keeps,
}
use support_agent_platform.Core.Hitl.ApprovalPolicy.{ApprovalPolicy}
use support_agent_platform.Core.Hitl.Timeouts.{list_pending_actions, list_ticket_actions}
use support_agent_platform.Core.Hitl.ApprovalRuntime.{
  ApprovalRequest, request_approval_if_needed, mark_approved, mark_rejected,
}
use support_agent_platform.Core.Hitl.Decisions.{
  request_approval_if_needed-Keeps, mark_approved-Keeps, mark_rejected-Keeps,
}
use support_agent_platform.Core.Handoff.Manager.{HandoffDecision, mark_handoff, resume}
use support_agent_platform.Core.Handoff.Laws.{mark_handoff-Keeps, resume-Keeps}
use support_agent_platform.Core.ToolRouter.{SearchCall, ToolArgs, execute}
use support_agent_platform.Core.ToolRouter.Keeping.{execute-Keeps}
use support_agent_platform.Workflows.CollabPush.{push_new_ticket}
use support_agent_platform.Workflows.CaseCollab.{handle_command}
use support_agent_platform.Workflows.CaseCollab.Keeping.{
  handle_command-Keeps, push_new_ticket-Keeps,
}
use support_agent_platform.Core.Hitl.Listings.{
  list_pending_actions-Keeps, list_ticket_actions-Keeps,
}

-- The methods of `TicketAPI` that write, and those of `ApprovalRuntime`, `HandoffManager`,
-- `CaseCollabWorkflow` and `ToolRouter` that may; the search of a tool is one that keeps to the
-- lifecycle.
pub data Call : Type 0 where
  creates : Bool → NewTicket → Call
  updates : String → List Update → String → Call
  assigns : String → String → String → Call
  resolves : String → String → String → Option String → Call
  escalates : String → String → String → Priority → Call
  closes : String → String → String → Closing → Call
  binds : Bool → String → String → Dict → Call
  adds_event : String → String → String → String → Dict → Call
  merges_metadata : String → Dict → String → Call
  accepts rejects : MergeCall → Call
  requests_approval : ApprovalPolicy → ApprovalRequest → Call
  approves : String → String → Ticket → Option String → Call
  refuses : String → String → Option String → Call
  lists_approvals : Option String → Call
  lists_actions : String → Call
  hands_off : String → HandoffDecision → Call
  resumes : String → String → String → Option String → Dict → Call
  pushes : String → Call
  commands : String → String → String → ApprovalPolicy → Call
  uses_tool :
      (search_kb : SearchCall → Exec World Value)
      → ((c : SearchCall) → Keeps (search_kb c))
      → Bool
      → String
      → ToolArgs
      → Call

-- The world after a call; an exception leaves what was written before it.
unfoldable pub step : Call → World → World
step (creates mapped n) w = (create_ticket mapped n w).1
step (updates id us actor_id) w = (update_ticket id us actor_id w).1
step (assigns id assignee actor_id) w = (assign_ticket id assignee actor_id w).1
step (resolves id actor_id note code) w = (resolve_ticket id actor_id note code w).1
step (escalates id actor_id reason p) w = (escalate_ticket id actor_id reason p w).1
step (closes id actor_id note c) w = (close_ticket id actor_id note c w).1
step (binds mapped session_id id metadata) w =
    (bind_session_ticket mapped session_id id metadata w).1
step (adds_event id event_type actor_type actor_id payload) w =
    (add_event id event_type actor_type actor_id payload w).1
step (merges_metadata id patch actor_id) w = (merge_ticket_metadata id patch actor_id w).1
step (accepts c) w = (accept_merge_suggestion c w).1
step (rejects c) w = (reject_merge_suggestion c w).1
step (requests_approval policy q) w = (request_approval_if_needed policy q w).1
step (approves id actor_id execution_ticket remark) w =
    (mark_approved id actor_id execution_ticket remark w).1
step (refuses id actor_id remark) w = (mark_rejected id actor_id remark w).1
step (lists_approvals id) w = (list_pending_actions id w).1
step (lists_actions id) w = (list_ticket_actions id w).1
step (hands_off id decision) w = (mark_handoff id decision w).1
step (resumes id actor_id remark approval_id context) w =
    (resume id actor_id remark approval_id context w).1
step (pushes id) w = (push_new_ticket id w).1
step (commands id actor_id line policy) w = (handle_command id actor_id line policy w).1
step (uses_tool search_kb kept mapped tool_name args) w =
    (execute search_kb mapped tool_name args w).1

unfoldable pub run : List Call → World → World
run [] w = w
run (c ∷ calls) w = run calls (step c w)

step-Evolves : (c : Call) (w : World) → Evolves w (step c w)
unfolding step merge_ticket_metadata
step-Evolves (creates mapped n) w = (create_ticket-Keeps mapped n).at w
step-Evolves (updates id us actor_id) w = (update_ticket-Keeps id us actor_id).at w
step-Evolves (assigns id assignee actor_id) w = (assign_ticket-Keeps id assignee actor_id).at w
step-Evolves (resolves id actor_id note code) w = (resolve_ticket-Keeps id actor_id note code).at w
step-Evolves (escalates id actor_id reason p) w = (escalate_ticket-Keeps id actor_id reason p).at w
step-Evolves (closes id actor_id note c) w = (close_ticket-Keeps id actor_id note c).at w
step-Evolves (binds mapped session_id id metadata) w =
    (bind_session_ticket-Keeps mapped session_id id metadata).at w
step-Evolves (adds_event id event_type actor_type actor_id payload) w =
    (add_event-Keeps id event_type actor_type actor_id payload).at w
step-Evolves (merges_metadata id patch actor_id) w = (update_ticket-Keeps id _ actor_id).at w
step-Evolves (accepts c) w = (accept_merge_suggestion-Keeps c).at w
step-Evolves (rejects c) w = (reject_merge_suggestion-Keeps c).at w
step-Evolves (requests_approval policy q) w = (request_approval_if_needed-Keeps policy q).at w
step-Evolves (approves id actor_id execution_ticket remark) w =
    (mark_approved-Keeps id actor_id execution_ticket remark).at w
step-Evolves (refuses id actor_id remark) w = (mark_rejected-Keeps id actor_id remark).at w
step-Evolves (lists_approvals id) w = (list_pending_actions-Keeps id).at w
step-Evolves (lists_actions id) w = (list_ticket_actions-Keeps id).at w
step-Evolves (hands_off id decision) w = (mark_handoff-Keeps id decision).at w
step-Evolves (resumes id actor_id remark approval_id context) w =
    (resume-Keeps id actor_id remark approval_id context).at w
step-Evolves (pushes id) w = (push_new_ticket-Keeps id).at w
step-Evolves (commands id actor_id line policy) w =
    (handle_command-Keeps id actor_id line policy).at w
step-Evolves (uses_tool search_kb kept mapped tool_name args) w =
    (execute-Keeps search_kb mapped kept tool_name args).at w

pub run-Evolves : (calls : List Call) (w : World) → Evolves w (run calls w)
unfolding run
run-Evolves [] w = Evolves-same refl
run-Evolves (c ∷ calls) w = Evolves-trans (step-Evolves c w) (run-Evolves calls (step c w))

-- A status that is reached from a literal's text is a literal's text.
ends_literal :
    {b a : String}
    → Lifecycle b a
    → (t : Status) → a ≡ status_text t
    → (u : Status) × (b ≡ status_text u)
ends_literal stay t e = (t, e)
ends_literal (move s t e h p) u k = ends_literal p t refl

changed :
    {b a : String}
    → Lifecycle b a
    → b ≢ a
    → (s : Status) × ((t : Status) × ((a ≡ status_text s) × (b ≡ status_text t)))
changed stay n = absurd (n refl)
changed (move s t e h p) n = let (u, f) = ends_literal p t refl in (s, (u, (e, f)))

-- What a ticket's row may become: it is there, as it was if it was closed; and its status is what it
-- was, or is a literal's text, as it was before.
pub record Survives (r : Row) (after : Option Row) : Type 0 where
  pub row : Row
  pub there : after ≡ some row
  pub closed_stays : r.status ≡ "closed" → row ≡ r
  pub literal :
      row.status ≢ r.status
      → (s : Status) × ((t : Status) × ((r.status ≡ status_text s) × (row.status ≡ status_text t)))

Survives-RowEvolves : (r : Row) (o : Option Row) → RowEvolves (some r) o → Survives r o
unfolding status_text
Survives-RowEvolves r none h = absurd h
Survives-RowEvolves r (some q) h = record {
  row = q;
  there = refl;
  closed_stays = h.1;
  literal = changed h.0;
}

-- Under any history of calls of the ticket API, the approval runtime, the handoff manager and the
-- tools, of agents' commands and of pushes of new tickets, from any world, whether they raise or not:
-- a ticket that is there is never lost; if its status is "closed", its row stays exactly as it is, in
-- every column; and its status changes only from one of the six literals to another of them. The
-- search of a tool is any that keeps to the lifecycle itself.
pub run-Survives :
    (calls : List Call) (w : World) (id : String) (r : Row)
    → find_row id w.tickets ≡ some r
    → Survives r (find_row id (run calls w).tickets)
run-Survives calls w id r found = Survives-RowEvolves r (find_row id (run calls w).tickets) (
    subst (λ o. RowEvolves o (find_row id (run calls w).tickets)) found
      ((run-Evolves calls w).at id))
