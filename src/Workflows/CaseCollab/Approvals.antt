-- ===== src/Workflows/CaseCollab/Approvals.antt =====
-- workflows/case_collab_workflow.py: an escalation by command waits for an approval.
use support_agent_platform.Shared.{
  String, ◌≡◌, refl, Bool, true, false, Option, none, some, List, [], ◌∷◌, arith, if◌then◌else◌, ℤ,
  Value, Dict, obj, get, ok, Exec, pure, ◌>>=◌,
}
use support_agent_platform.Shared.Str.{str_or}
use support_agent_platform.Shared.Text.{strip}
use support_agent_platform.Shared.Yields.{Anything, OnOk}
use support_agent_platform.Storage.Models.{Ticket}
use support_agent_platform.Storage.World.{World}
use support_agent_platform.Storage.Columns.{set_columns, status_update}
use support_agent_platform.Core.TicketApi.{require_ticket, update_ticket, merge_metadata}
use support_agent_platform.Core.TicketActions.{add_event}
use support_agent_platform.Core.Lifecycle.Settling.{
  SameStatuses, Settles, Settles-bind, Settles-then, Settles-pure, Settles-frame, add_event-Settles,
  require_ticket-Settles,
}
use support_agent_platform.Core.Lifecycle.Statuses.{update_ticket-Settles}
use support_agent_platform.Core.Hitl.ApprovalPolicy
use support_agent_platform.Core.Hitl.ApprovalPolicy.{ApprovalPolicy, ApprovalRequirement}
use support_agent_platform.Core.Hitl.PendingActions.{
  PendingAction, action_of, build_pending_action, load_pending_actions, parse_actions,
  parse_pending_action, time_or_now,
}
use support_agent_platform.Core.Hitl.ApprovalRuntime.{
  ApprovalRequest, ApprovalRequestResult, request_approval, request_approval_if_needed,
}
use support_agent_platform.Workflows.Commands.{parse_command}
use support_agent_platform.Workflows.CaseCollab.{
  CaseCollabAction, ask, escalate_later, escalate, run_command, handle_command,
}

time_or_now-tickets : (v : Option Value) (w : World) → (time_or_now v w).1.tickets ≡ w.tickets
unfolding time_or_now
time_or_now-tickets v w = ground arith

build_pending_action-tickets :
    (id action_type risk actor_id reason : String) (payload context : Dict) (minutes : ℤ)
    (w : World)
    → (build_pending_action id action_type risk actor_id reason payload context minutes w).1.tickets
      ≡ w.tickets
unfolding build_pending_action
build_pending_action-tickets id action_type risk actor_id reason payload context minutes w =
    ground arith

Settles-if :
    {A : Type 0} {Q : A → Type 0} (b : Bool) (m n : Exec World A)
    → Settles Q m
    → Settles Q n
    → Settles Q (λ w. if b then m w else n w)
Settles-if true m n km kn = km
Settles-if false m n km kn = kn

time_or_now-Settles : (v : Option Value) → Settles Anything (time_or_now v)
time_or_now-Settles v = Settles-frame (time_or_now v) (time_or_now-tickets v)

idle : {A : Type 0} (a : A) → Settles Anything (pure {S = World} a)
idle a = Settles-pure a tt

parse_pending_action-Settles :
    (raw : Dict) (id : String) → Settles Anything (parse_pending_action raw id)
unfolding parse_pending_action
parse_pending_action-Settles raw id = Settles-if _ (pure none) parsed (idle none) (
    Settles-bind (time_or_now (get "requested_at" raw)) then_timeout (time_or_now-Settles _)
      λ requested_at _.
        Settles-bind (time_or_now (get "timeout_at" raw)) (build requested_at)
          (time_or_now-Settles _) (λ timeout_at _. idle _))
  where
    build : String → String → Exec World (Option PendingAction)
    build requested_at timeout_at = pure (
        some (
          action_of raw id (strip (str_or (get "approval_id" raw) ""))
            (strip (str_or (get "action_type" raw) "")) requested_at timeout_at))

    then_timeout : String → Exec World (Option PendingAction)
    then_timeout requested_at = time_or_now (get "timeout_at" raw) >>= build requested_at

    parsed : Exec World (Option PendingAction)
    parsed = time_or_now (get "requested_at" raw) >>= then_timeout

parse_actions-Settles :
    (values : List Value) (id : String) → Settles Anything (parse_actions values id)
unfolding parse_actions
parse_actions-Settles [] id = idle []
parse_actions-Settles (obj raw ∷ values) id =
    Settles-bind (parse_pending_action raw id) _ (parse_pending_action-Settles raw id) λ parsed _.
      Settles-bind (parse_actions values id) _ (parse_actions-Settles values id)
        (λ actions _. idle _)
parse_actions-Settles (v ∷ values) id = parse_actions-Settles values id

load_pending_actions-Settles : (t : Ticket) → Settles Anything (load_pending_actions t)
unfolding load_pending_actions
load_pending_actions-Settles t = parse_actions-Settles _ t.ticket_id

-- A request that waits for an approval, and whose ticket says so.
pub record IsWaiting (r : ApprovalRequestResult) : Type 0 where
  pub required : r.requires_approval ≡ true
  pub recorded : (a : PendingAction) × (r.pending_action ≡ some a)
  pub marked : r.ticket.handoff_state ≡ "pending_approval"

request_approval-Settles :
    (q : ApprovalRequest) (t : Ticket) (requirement : ApprovalRequirement)
    → Settles IsWaiting (request_approval q t requirement)
unfolding request_approval status_update merge_metadata set_columns
request_approval-Settles q t requirement =
    Settles-bind (build_pending_action _ _ _ _ _ _ _ _) _
      (Settles-frame _ (build_pending_action-tickets _ _ _ _ _ _ _ _))
      λ action _.
        Settles-bind (load_pending_actions t) _ (load_pending_actions-Settles t) λ actions _.
          Settles-bind (update_ticket q.ticket_id _ q.actor_id) _
            (update_ticket-Settles q.ticket_id _ q.actor_id "pending_approval" refl (λ d r. refl))
            λ updated marked.
              Settles-then (add_event q.ticket_id _ _ q.actor_id _) (pure _)
                (add_event-Settles q.ticket_id _ _ q.actor_id _)
                (Settles-pure _
                  (record { required = refl; recorded = (action, refl); marked = marked }))

-- Every policy asks for an approval of an escalation.
escalation-Settles :
    (policy : ApprovalPolicy) (id actor_id : String) (payload context : Dict)
    → Settles IsWaiting (
        request_approval_if_needed policy (record {
          ticket_id = id;
          action_type = "escalate";
          actor_id = actor_id;
          payload = payload;
          context = context;
          timeout_minutes = none;
        }))
unfolding request_approval_if_needed ApprovalPolicy.evaluate
escalation-Settles policy id actor_id payload context =
    Settles-bind (require_ticket id) _ (require_ticket-Settles id)
      λ t _. request_approval-Settles _ t _

-- What an escalation by command returns.
pub record Waits (a : CaseCollabAction) : Type 0 where
  pub named : a.command ≡ "escalate"
  pub marked : a.ticket.handoff_state ≡ "pending_approval"

module _ (id actor_id line : String) (policy : ApprovalPolicy) where
  ask-Settles :
      (payload preview : Dict)
      → Settles IsWaiting (ask id actor_id line policy "escalate" payload preview)
  unfolding ask
  ask-Settles payload preview =
      Settles-bind (require_ticket id) _ (require_ticket-Settles id)
        λ t _. escalation-Settles policy id actor_id payload _

  escalate_later-Settles :
      (reason : String) (r : ApprovalRequestResult) (a : PendingAction)
      → IsWaiting r
      → Settles Waits (escalate_later id actor_id line reason r a)
  unfolding escalate_later
  escalate_later-Settles reason r a h =
      Settles-then (add_event id _ _ actor_id _) (pure _) (add_event-Settles id _ _ actor_id _)
        (Settles-pure _ (record { named = refl; marked = h.marked }))

  escalate-Settles : (reason : String) → Settles Waits (escalate id actor_id line policy reason)
  unfolding escalate
  escalate-Settles reason =
      Settles-bind (ask id actor_id line policy "escalate" _ _) _ (ask-Settles _ _)
        λ r h. rw (h.required, h.recorded.1) (escalate_later-Settles reason r h.recorded.0 h)

  run_escalation :
      (args : List String) → Settles Waits (run_command id actor_id line policy "escalate" args)
  unfolding run_command
  run_escalation args = escalate-Settles _

  -- Whatever the policy of approvals is, a command that is read as an escalation escalates nothing: it
  -- leaves the status of every ticket, and removes and adds none; and where it returns, its ticket
  -- waits for an approval.
  pub escalation_deferred :
      (args : List String) (w : World)
      → parse_command line ≡ ok ("escalate", args)
      → let end_ = handle_command id actor_id line policy w in
        SameStatuses w end_.1 × OnOk Waits end_.0
  unfolding handle_command
  escalation_deferred args w read =
      let settled = run_escalation args in rw (read, ◌>>=◌) (settled.state w, settled.result w)
