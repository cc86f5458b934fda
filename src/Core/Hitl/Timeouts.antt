-- ===== src/Core/Hitl/Timeouts.antt =====
-- core/hitl/approval_runtime.py: the timeouts of pending actions, and the reads that apply them.
use support_agent_platform.Shared.{
  ℕ, suc, String, ◌<>◌, Option, none, some, List, [], ◌∷◌, ◌++◌, ◌==◌, if◌then◌else◌, select,
  some_of, Dict, text, end, entry, get, ok, err, key_error, Exec, pure, ◌>>=◌, ◌>>◌,
}
use support_agent_platform.Shared.Text.{text_leb}
use support_agent_platform.Shared.Sort.{sort_in}
use support_agent_platform.Shared.Str.{optional_str}
use support_agent_platform.Storage.Models.{Ticket}
use support_agent_platform.Storage.World.{World}
use support_agent_platform.Storage.Columns.{Update}
use support_agent_platform.Storage.Repository
use support_agent_platform.Core.TicketApi.{require_ticket, update_ticket}
use support_agent_platform.Core.TicketActions.{add_event}
use support_agent_platform.Core.Hitl.PendingActions.{
  PendingAction, timeout, load_pending_actions, save_pending_actions, find_action,
  is_action_timed_out, is_pending,
}

-- `_resume_handoff_state`.
unfoldable pub resume_handoff_state : PendingAction → String → String
unfolding optional_str
resume_handoff_state a fallback = elim (optional_str (get "resume_handoff_state" a.context)) [
  | none ↦ fallback
  | some s ↦ s
]

-- The state of the handoff after a decision: resumed when no action is pending any more.
unfoldable pub next_handoff_state : List PendingAction → PendingAction → String → String
unfolding resume_handoff_state
next_handoff_state actions a fallback =
    if some_of is_pending actions then fallback else resume_handoff_state a fallback

-- The updates that a request and a decision write.
unfoldable pub approval_updates : String → String → Dict → List Update
approval_updates handoff_state last_action metadata =
    Update.handoff_state handoff_state
    ∷ Update.last_agent_action (some last_action)
    ∷ Update.metadata metadata
    ∷ []

-- The actions with those that have run out marked so.
unfoldable pub expire : World → ℕ → List PendingAction → List PendingAction
unfolding is_action_timed_out
expire w time [] = []
expire w time (a ∷ actions) =
    (if is_action_timed_out w a time
      then record a {
        status = timeout;
        decided_at = some (w.isoformat time);
        decision_note = some "approval_timeout";
      }
      else a)
    ∷ expire w time actions

-- The last of the actions that have run out.
unfoldable pub last_expired : World → ℕ → List PendingAction → Option PendingAction
unfolding is_action_timed_out
last_expired w time [] = none
last_expired w time (a ∷ actions) =
    let rest = last_expired w time actions in
    elim rest [ some b ↦ some b | none ↦ if is_action_timed_out w a time then some a else none ]

-- The writes of a timeout.
unfoldable pub write_timeouts : Ticket → List PendingAction → PendingAction → Exec World Unit
unfolding next_handoff_state approval_updates
write_timeouts ticket actions latest = do
  update_ticket ticket.ticket_id
      (approval_updates (next_handoff_state actions latest ticket.handoff_state) "approval_timeout"
        (save_pending_actions ticket.metadata actions))
      "approval-runtime"
  add_event ticket.ticket_id "approval_decision" "system" "approval-runtime" (
      entry "approval_id" (text latest.approval_id) (
        entry "action_type" (text latest.action_type)
          (entry "status" (text "timeout") (entry "requested_by" (text latest.requested_by) end))))
  pure tt

-- The timeouts of the actions that were loaded, at a time.
unfoldable pub time_out : Ticket → List PendingAction → ℕ → Exec World Unit
time_out ticket actions time w = elim (last_expired w time actions) [
  | none ↦ (ok tt, w)
  | some latest ↦ write_timeouts ticket (expire w time actions) latest w
]

-- The clock is read only where there are actions.
unfoldable pub time_out_loaded : Ticket → List PendingAction → Exec World Unit
time_out_loaded ticket [] w = (ok tt, w)
time_out_loaded ticket (a ∷ actions) w =
    time_out ticket (a ∷ actions) (w.clock w.reads) (record w { reads = suc w.reads })

-- `_apply_timeouts`.
unfoldable pub apply_timeouts : Ticket → Exec World Unit
apply_timeouts ticket = do actions ← load_pending_actions ticket; time_out_loaded ticket actions

-- `_scan_tickets`, which is `TicketAPI.list_all_tickets`.
unfoldable pub scan_tickets : Exec World (List Ticket)
scan_tickets = Repository.list_tickets none none none 5000 0

-- The ticket after its timeouts, and its actions.
unfoldable pub refresh_actions : Ticket → Exec World (Ticket × List PendingAction)
refresh_actions ticket = do
  apply_timeouts ticket
  refreshed ← require_ticket ticket.ticket_id
  actions ← load_pending_actions refreshed
  pure (refreshed, actions)

-- `sort(key=requested_at, reverse=True)`, which is stable.
abbrev pub sort_recent : List PendingAction → List PendingAction
sort_recent = sort_in (λ (a b : PendingAction). text_leb b.requested_at a.requested_at)

unfoldable pub collect_pending : List Ticket → Exec World (List PendingAction)
collect_pending [] w = (ok [], w)
collect_pending (t ∷ tickets) w =
    let m = (do
      (refreshed, actions) ← refresh_actions t
      rest ← collect_pending tickets
      pure (select is_pending actions ++ rest)) in
    m w

-- The tickets that `list_pending_actions` reads: the one that is named, or all.
unfoldable pub tickets_of : Option String → Exec World (List Ticket)
unfolding scan_tickets
tickets_of none w = scan_tickets w
tickets_of (some id) w =
    let m = (do t ← require_ticket id; pure (t ∷ [])) in if id == "" then scan_tickets w else m w

unfoldable pub list_pending_actions : Option String → Exec World (List PendingAction)
unfolding sort_in
list_pending_actions id = do
  tickets ← tickets_of id
  actions ← collect_pending tickets
  pure (sort_recent actions)

unfoldable pub list_ticket_actions : String → Exec World (List PendingAction)
unfolding sort_in
list_ticket_actions id = do
  ticket ← require_ticket id
  apply_timeouts ticket
  refreshed ← require_ticket id
  actions ← load_pending_actions refreshed
  pure (sort_recent actions)

-- The loop of `get_pending_action`.
unfoldable pub search_action : String → List Ticket → Exec World (Ticket × PendingAction)
unfolding find_action
search_action id [] w = (err (key_error ("approval " <> id <> " not found")), w)
search_action id (t ∷ tickets) w =
    let later = search_action id tickets in
    let m = (do
      (refreshed, actions) ← refresh_actions t
      elim (find_action actions id) [ none ↦ later | some a ↦ pure (refreshed, a) ]) in
    m w

unfoldable pub get_pending_action : String → Exec World (Ticket × PendingAction)
get_pending_action id = do tickets ← scan_tickets; search_action id tickets
