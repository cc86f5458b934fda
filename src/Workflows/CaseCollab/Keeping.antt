-- ===== src/Workflows/CaseCollab/Keeping.antt =====
-- workflows/case_collab_workflow.py: commands and pushes keep to the lifecycle of tickets.
use support_agent_platform.Shared.{
  String, Option, none, some, List, [], ◌∷◌, ◌==◌, Dict, Exec, raise, lift,
}
use support_agent_platform.Shared.Text.{strip, lower}
use support_agent_platform.Storage.Models.{Ticket}
use support_agent_platform.Storage.World.{World}
use support_agent_platform.Core.Lifecycle.{Keeps, Keeps-bind}
use support_agent_platform.Core.KeepsRules.{keeps_rules}
use support_agent_platform.Core.Hitl.ApprovalPolicy.{ApprovalPolicy}
use support_agent_platform.Core.Hitl.PendingActions.{PendingAction}
use support_agent_platform.Core.Hitl.ApprovalRuntime.{ApprovalRequestResult}
use support_agent_platform.Core.Hitl.Decisions.{request_approval_if_needed-Keeps}
use support_agent_platform.Workflows.Commands.{parse_command}
use support_agent_platform.Workflows.CollabPush.{await_claim, build_collab_payload, push_new_ticket}
use support_agent_platform.Workflows.CaseCollab.{
  CaseCollabAction, claim, ask, asked, reassign_now, reassign_later, reassign, escalate_now,
  escalate_later, escalate, close_with, resolve_with, set_state, move_to, noted, with_argument,
  run_command, handle_command,
}
use support_agent_platform.Core.Lifecycle.Programs.{Keeps-if, Keeps-result, Keeps-fails, Keeps-now}

module _ (id actor_id line : String) where
  claim-Keeps : Keeps (claim id actor_id line)
  unfolding claim
  claim-Keeps = search keeps_rules

  ask-Keeps :
      (policy : ApprovalPolicy) (action_type : String) (payload preview : Dict)
      → Keeps (ask id actor_id line policy action_type payload preview)
  unfolding ask
  ask-Keeps policy action_type payload preview =
      search (keeps_rules, request_approval_if_needed-Keeps)

  reassign_now-Keeps : (assignee : String) → Keeps (reassign_now id actor_id line assignee)
  unfolding reassign_now
  reassign_now-Keeps assignee = search keeps_rules

  reassign_later-Keeps :
      (assignee : String) (r : ApprovalRequestResult) (a : PendingAction)
      → Keeps (reassign_later id actor_id line assignee r a)
  unfolding reassign_later
  reassign_later-Keeps assignee r a = search keeps_rules

  escalate_now-Keeps : (reason : String) → Keeps (escalate_now id actor_id line reason)
  unfolding escalate_now
  escalate_now-Keeps reason = search keeps_rules

  escalate_later-Keeps :
      (reason : String) (r : ApprovalRequestResult) (a : PendingAction)
      → Keeps (escalate_later id actor_id line reason r a)
  unfolding escalate_later
  escalate_later-Keeps reason r a = search keeps_rules

  -- What follows a request, with and without an approval.
  decided-Keeps :
      (now_ : Exec World CaseCollabAction) (later : PendingAction → Exec World CaseCollabAction)
      → Keeps now_
      → ((a : PendingAction) → Keeps (later a))
      → (o : Option PendingAction) → Keeps (elim o [ none ↦ now_ | some a ↦ later a ])
  decided-Keeps now_ later kn kl none = kn
  decided-Keeps now_ later kn kl (some a) = kl a

  reassign-Keeps :
      (policy : ApprovalPolicy) (assignee : String)
      → Keeps (reassign id actor_id line policy assignee)
  unfolding reassign
  reassign-Keeps policy assignee =
      Keeps-bind (ask id actor_id line policy "reassign" _ _) _ (ask-Keeps policy "reassign" _ _)
        λ r.
          decided-Keeps (reassign_now id actor_id line assignee)
            (reassign_later id actor_id line assignee r) (reassign_now-Keeps assignee)
            (reassign_later-Keeps assignee r) (asked id actor_id line r)

  escalate-Keeps :
      (policy : ApprovalPolicy) (reason : String) → Keeps (escalate id actor_id line policy reason)
  unfolding escalate
  escalate-Keeps policy reason =
      Keeps-bind (ask id actor_id line policy "escalate" _ _) _ (ask-Keeps policy "escalate" _ _)
        λ r.
          decided-Keeps (escalate_now id actor_id line reason)
            (escalate_later id actor_id line reason r) (escalate_now-Keeps reason)
            (escalate_later-Keeps reason r) (asked id actor_id line r)

  close_with-Keeps : (remark : String) → Keeps (close_with id actor_id line remark)
  unfolding close_with
  close_with-Keeps remark = search keeps_rules

  resolve_with-Keeps : (remark : String) → Keeps (resolve_with id actor_id line remark)
  unfolding resolve_with
  resolve_with-Keeps remark = search keeps_rules

  set_state-Keeps : (state : String) → Keeps (set_state id actor_id line state)
  unfolding set_state
  set_state-Keeps state = search keeps_rules

  move_to-Keeps : (state : String) → Keeps (move_to id actor_id line state)
  unfolding move_to
  move_to-Keeps state =
      Keeps-if _ (set_state id actor_id line state) (raise _) (set_state-Keeps state)
        (Keeps-fails _)

  noted-Keeps :
      (name : String) (args : List String) (act : String → Exec World CaseCollabAction)
      → ((remark : String) → Keeps (act remark))
      → Keeps (noted id actor_id line name args act)
  noted-Keeps name args act k = Keeps-if _ (raise _) (act _) (Keeps-fails _) (k _)

  with_argument-Keeps :
      (message : String) (args : List String) (act : String → Exec World CaseCollabAction)
      → ((arg : String) → Keeps (act arg))
      → Keeps (with_argument id actor_id line message args act)
  with_argument-Keeps message [] act k = Keeps-fails _
  with_argument-Keeps message (arg ∷ args) act k = k arg

  run_command-Keeps :
      (policy : ApprovalPolicy) (command : String) (args : List String)
      → Keeps (run_command id actor_id line policy command args)
  unfolding run_command
  run_command-Keeps policy command args =
      Keeps-if (command == "claim") (claim id actor_id line) _ claim-Keeps (
        Keeps-if (command == "reassign")
          (with_argument id actor_id line _ args (reassign id actor_id line policy)) _
          (with_argument-Keeps _ args (reassign id actor_id line policy) (reassign-Keeps policy))
          (Keeps-if (command == "escalate") (escalate id actor_id line policy _) _
            (escalate-Keeps policy _)
            (Keeps-if (command == "close")
              (noted id actor_id line "close" args (close_with id actor_id line)) _
              (noted-Keeps "close" args (close_with id actor_id line) close_with-Keeps)
              (Keeps-if (command == "resolve")
                (noted id actor_id line "resolve" args (resolve_with id actor_id line)) _
                (noted-Keeps "resolve" args (resolve_with id actor_id line) resolve_with-Keeps)
                (Keeps-if (command == "state")
                  (with_argument id actor_id line _ args
                    (λ arg. move_to id actor_id line (lower (strip arg))))
                  _
                  (with_argument-Keeps _ args (λ arg. move_to id actor_id line (lower (strip arg)))
                    (λ arg. move_to-Keeps (lower (strip arg))))
                  (Keeps-fails _))))))

  pub handle_command-Keeps :
      (policy : ApprovalPolicy) → Keeps (handle_command id actor_id line policy)
  unfolding handle_command
  handle_command-Keeps policy =
      Keeps-bind (lift (parse_command line)) _ (Keeps-result _)
        λ parsed. run_command-Keeps policy parsed.0 parsed.1

await_claim-Keeps : (t : Ticket) → Keeps (await_claim t)
unfolding await_claim
await_claim-Keeps t = search keeps_rules

build_collab_payload-Keeps : (t : Ticket) → Keeps (build_collab_payload t)
unfolding build_collab_payload
build_collab_payload-Keeps t = search (keeps_rules, Keeps-now)

pub push_new_ticket-Keeps : (id : String) → Keeps (push_new_ticket id)
unfolding push_new_ticket
push_new_ticket-Keeps id =
    search (keeps_rules, await_claim-Keeps, build_collab_payload-Keeps) depth 9
