-- ===== src/Core/Hitl/Replaced.antt =====
-- core/hitl/pending_actions.py: the actions after one of them is replaced, and how they are read back.
use support_agent_platform.Shared.{
  String, ◌≡◌, refl, inl, inr, false, ◌&&◌, none, some, List, [], ◌∷◌, ◌++◌, map, arith, ◌==◌,
  eq_iff, if◌then◌else◌, Bool-cases, some_of, Dict, obj, merge, get-put, of_items-to_items, IsKeyed,
  IsKeyed-put, get-merge, ok,
}
use support_agent_platform.Storage.Models.{Ticket}
use support_agent_platform.Storage.World.{World}
use support_agent_platform.Core.Hitl.PendingActions.{
  PendingAction, load_pending_actions, save_pending_actions, substitute, replace_action,
  find_action, as_dict,
}
use support_agent_platform.Core.Hitl.RoundTrip.{IsStorable, AllStorable, parse_actions-as_dict}

module _ (id : String) (a : PendingAction) (same : a.approval_id ≡ id) where
  find_action-substitute :
      (actions : List PendingAction) (j : String)
      → find_action (substitute actions id a) j ≡ (
          if (id == j) && some_of (λ b. b.approval_id == id) actions
          then some a
          else find_action actions j)
  unfolding find_action substitute
  find_action-substitute [] j = ground arith
  find_action-substitute (b ∷ actions) j = ground (
    arith,
    eq_iff id j,
    eq_iff b.approval_id id,
    eq_iff b.approval_id j,
    eq_iff a.approval_id j,
    find_action-substitute actions j,
  )

  find_action-append :
      (actions : List PendingAction) (j : String)
      → find_action (actions ++ a ∷ []) j
        ≡ elim (find_action actions j) [ some b ↦ some b | none ↦ if id == j then some a else none ]
  unfolding find_action
  find_action-append [] j = ground (arith, eq_iff a.approval_id j, eq_iff id j)
  find_action-append (b ∷ actions) j = ground (arith, find_action-append actions j)

  find_action-absent :
      (actions : List PendingAction)
      → some_of (λ b. b.approval_id == id) actions ≡ false
      → find_action actions id ≡ none
  unfolding find_action
  find_action-absent [] h = refl
  find_action-absent (b ∷ actions) h = ground (arith, find_action-absent actions)

  -- The action that replaces one is found under its identifier, and every other identifier finds what
  -- it found before.
  pub find_action-replace_action :
      (actions : List PendingAction) (j : String)
      → find_action (replace_action actions id a) j
        ≡ (if id == j then some a else find_action actions j)
  unfolding replace_action
  find_action-replace_action actions j =
      elim (Bool-cases (some_of (λ b. b.approval_id == id) actions)) [
        | inl e ↦ rw (e, find_action-substitute actions j, e) (ground arith)
        | inr e ↦
            rw
              (
                e,
                find_action-append (substitute actions id a) j,
                find_action-substitute actions j,
                e,
              )
              (ground (arith, eq_iff id j, find_action-absent actions e))
      ]

module _ (id : String) (a : PendingAction) (h : IsStorable a) where
  AllStorable-substitute :
      (actions : List PendingAction) → AllStorable actions → AllStorable (substitute actions id a)
  unfolding substitute
  AllStorable-substitute [] k = tt
  AllStorable-substitute (b ∷ actions) k = elim (Bool-cases (b.approval_id == id)) [
    | inl e ↦ rw e (h, AllStorable-substitute actions k.1)
    | inr e ↦ rw e (k.0, AllStorable-substitute actions k.1)
  ]

  AllStorable-append :
      (actions : List PendingAction) → AllStorable actions → AllStorable (actions ++ a ∷ [])
  AllStorable-append [] k = (h, tt)
  AllStorable-append (b ∷ actions) k = (k.0, AllStorable-append actions k.1)

  pub AllStorable-replace_action :
      (actions : List PendingAction)
      → AllStorable actions
      → AllStorable (replace_action actions id a)
  unfolding replace_action
  AllStorable-replace_action actions k =
      elim (Bool-cases (some_of (λ b. b.approval_id == id) actions)) [
        | inl e ↦ rw e (AllStorable-substitute actions k)
        | inr e ↦ rw e (AllStorable-append _ (AllStorable-substitute actions k))
      ]

IsKeyed-save_pending_actions :
    (d : Dict) (actions : List PendingAction) → IsKeyed d → IsKeyed (save_pending_actions d actions)
unfolding save_pending_actions
IsKeyed-save_pending_actions d actions h =
    IsKeyed-put _ _ _ (IsKeyed-put _ _ _ (IsKeyed-put _ _ _ h))

-- Actions that are saved and merged into other metadata are read back too.
pub load_pending_actions-merge :
    (t : Ticket) (d m : Dict) (actions : List PendingAction) (u : World)
    → t.metadata ≡ merge d (save_pending_actions m actions)
    → IsKeyed m
    → AllStorable actions
    → load_pending_actions t u ≡ (ok actions, u)
unfolding load_pending_actions save_pending_actions
load_pending_actions-merge t d m actions u e keyed h =
    rw
      (
        e,
        get-merge "pending_actions" d (save_pending_actions m actions)
            (IsKeyed-save_pending_actions m actions keyed),
        get-put,
        get-put,
        get-put,
        of_items-to_items (map (λ a. obj (as_dict a)) actions),
      )
      (parse_actions-as_dict actions t.ticket_id u h)
