-- ===== src/Core/Hitl/Chosen.antt =====
-- core/hitl/approval_runtime.py: the action that `get_pending_action` finds has the identifier.
use support_agent_platform.Shared.{
  String, ◌≡◌, refl, Option, none, some, List, [], ◌∷◌, arith, eq_iff, Result, ok, err, Exec, pure,
  proceed,
}
use support_agent_platform.Storage.Models.{Ticket}
use support_agent_platform.Storage.World.{World}
use support_agent_platform.Core.Hitl.PendingActions.{PendingAction, find_action}
use support_agent_platform.Core.Hitl.Timeouts.{
  refresh_actions, scan_tickets, search_action, get_pending_action,
}

find_action-named :
    (actions : List PendingAction) (id : String) (a : PendingAction)
    → find_action actions id ≡ some a
    → a.approval_id ≡ id
unfolding find_action
find_action-named [] id a h = cc
find_action-named (b ∷ actions) id a h =
    ground (arith, eq_iff b.approval_id id, find_action-named actions id a)

module _ (id : String) (v : World) (t : Ticket) (a : PendingAction) where
  abbrev next : List Ticket → Ticket × List PendingAction → Exec World (Ticket × PendingAction)
  next tickets r = elim (find_action r.1 id) [
    | none ↦ search_action id tickets
    | some b ↦ pure (r.0, b)
  ]

  abbrev FindsNamed : List Ticket → Type 0
  FindsNamed tickets =
      (w : World) → search_action id tickets w ≡ (ok (t, a), v) → a.approval_id ≡ id

  search_action-FindsNamed : (tickets : List Ticket) → FindsNamed tickets
  unfolding search_action
  search_action-FindsNamed [] w h = cc
  search_action-FindsNamed (x ∷ tickets) w h =
      go (refresh_actions x w) (search_action-FindsNamed tickets) h
    where
      chosen :
          (r : Ticket) (actions : List PendingAction) (u : World) (o : Option PendingAction)
          → FindsNamed tickets
          → find_action actions id ≡ o
          → elim o as (λ _. Exec World (Ticket × PendingAction)) [
            | none ↦ search_action id tickets
            | some b ↦ pure (r, b)
          ]
              u
            ≡ (ok (t, a), v)
          → a.approval_id ≡ id
      chosen r actions u none later e k = later u k
      chosen r actions u (some b) later e k = find_action-named actions id a (cc (e, k))

      go :
          (o : Result (Ticket × List PendingAction) × World)
          → FindsNamed tickets
          → proceed o.0 (next tickets) o.1 ≡ (ok (t, a), v)
          → a.approval_id ≡ id
      go (ok (r, actions), u) later k = chosen r actions u (find_action actions id) later refl k
      go (err e, u) later k = cc

  pub get_pending_action-named :
      (w : World) → get_pending_action id w ≡ (ok (t, a), v) → a.approval_id ≡ id
  unfolding get_pending_action
  get_pending_action-named w h = go (scan_tickets w) h
    where
      go :
          (o : Result (List Ticket) × World)
          → proceed o.0 (search_action id) o.1 ≡ (ok (t, a), v)
          → a.approval_id ≡ id
      go (ok tickets, u) k = search_action-FindsNamed tickets u k
      go (err e, u) k = cc
