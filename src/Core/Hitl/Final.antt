-- ===== src/Core/Hitl/Final.antt =====
-- core/hitl/approval_runtime.py: a decision that follows another one on the same approval.
use support_agent_platform.Shared.{
  suc, String, ◌<>◌, ◌≡◌, refl, false, Option, none, some, List, [], ◌∷◌, Result, ok, err,
  runtime_error, Exec, pure,
}
use support_agent_platform.Storage.Models.{Ticket, TicketEvent, Status, Priority, Stage}
use support_agent_platform.Storage.World.{World, Row}
use support_agent_platform.Storage.Repository.{typed_row}
use support_agent_platform.Storage.Literals.{IsReadable}
use support_agent_platform.Core.TicketApi.{require_ticket}
use support_agent_platform.Core.Outcomes.{require_ticket-IsReadable}
use support_agent_platform.Core.Hitl.PendingActions.{
  PendingAction, approval_status_text, load_pending_actions, replace_action, find_action,
  is_pending,
}
use support_agent_platform.Core.Hitl.Timeouts.{
  last_expired, time_out, time_out_loaded, apply_timeouts, refresh_actions, scan_tickets,
  search_action, get_pending_action,
}
use support_agent_platform.Core.Hitl.ApprovalRuntime.{
  ApprovalDecisionResult, reject_decided, mark_approved, mark_rejected,
}
use support_agent_platform.Core.Hitl.Decided.{Decides}

abbrev pub later : World → World
later u = record u { reads = suc u.reads }

module _ (id : String) (u : World) (t : Ticket) (actions : List PendingAction)
    (loads : (v : World) → load_pending_actions t v ≡ (ok actions, v)) (decided : PendingAction)
    (chosen : find_action actions id ≡ some decided)
    (unexpired : last_expired (later u) (u.clock u.reads) actions ≡ none)
    (read_back : require_ticket t.ticket_id (later u) ≡ (ok t, later u)) where
  time_out_loaded-unexpired :
      (list : List PendingAction)
      → find_action list id ≡ some decided
      → last_expired (later u) (u.clock u.reads) list ≡ none
      → time_out_loaded t list u ≡ (ok tt, later u)
  unfolding time_out_loaded time_out find_action
  time_out_loaded-unexpired [] h k = cc
  time_out_loaded-unexpired (a ∷ list) h k = rw (time_out, k) refl

  pub get_pending_action-first :
      (tickets : List Ticket)
      → scan_tickets u ≡ (ok (t ∷ tickets), u)
      → get_pending_action id u ≡ (ok (t, decided), later u)
  unfolding get_pending_action search_action refresh_actions apply_timeouts
  get_pending_action-first tickets scanned =
      rw
        (
          scanned,
          loads u,
          time_out_loaded-unexpired actions chosen unexpired,
          read_back,
          loads (later u),
        )
        (go (find_action actions id) chosen)
    where
      go :
          (o : Option PendingAction)
          → o ≡ some decided
          → elim o as (λ _. Exec World (Ticket × PendingAction)) [
            | none ↦ search_action id tickets
            | some a ↦ pure (t, a)
          ]
              (later u)
            ≡ (ok (t, decided), later u)
      go o h = rw h refl

-- The next decision on an approval that was just decided is refused: where a decision has left the
-- action as decided in the ticket that was written, that ticket can be read and is the first that the
-- scan returns, and none of its actions runs out meanwhile, an approval and a rejection both raise that
-- the approval is already decided, whoever makes them and for whichever ticket, and change nothing but
-- the reading of the clock.
pub second_decision_refused :
    {id : String} {v : World} {r : Row} {p : Priority} {s : Status} {l : Stage}
    {known : List PendingAction} {decided : PendingAction} {logged : List TicketEvent}
    {out : Result ApprovalDecisionResult × World}
    (run : Decides id v r (typed_row r p s l) known decided logged out) (actor_id : String)
    (x : Ticket) (remark : Option String) (tickets : List Ticket)
    → is_pending decided ≡ false
    → IsReadable r p s l
    → scan_tickets out.1 ≡ (ok (typed_row r p s l ∷ tickets), out.1)
    → last_expired (later out.1) (out.1.clock out.1.reads) (replace_action known id decided) ≡ none
    → let refusal : Result ApprovalDecisionResult × World = (
      err (
          runtime_error
            ("approval " <> id <> " is already " <> approval_status_text decided.status)),
      later out.1,
    ) in
      (mark_approved id actor_id x remark out.1 ≡ refusal)
      × (mark_rejected id actor_id remark out.1 ≡ refusal)
unfolding mark_approved mark_rejected reject_decided typed_row
second_decision_refused {id} {r = r} {p} {s} {l} {known} {decided} {out = out} run actor_id x remark
      tickets settled readable scanned unexpired =
    let e =
      get_pending_action-first id out.1 (typed_row r p s l) (replace_action known id decided)
        run.loaded decided run.found unexpired
        (require_ticket-IsReadable r.ticket_id (later out.1) r run.stored p s l readable) tickets
        scanned in
    (rw (e, settled) refl, rw (e, settled) refl)
