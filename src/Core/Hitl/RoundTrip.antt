-- ===== src/Core/Hitl/RoundTrip.antt =====
-- core/hitl/pending_actions.py: what is saved is loaded again.
use support_agent_platform.Shared.{
  String, ◌≡◌, refl, ap, false, Option, none, some, List, [], ◌∷◌, map, ◌==◌, text, obj, get,
  truthy, get-put, of_items-to_items, ok,
}
use support_agent_platform.Shared.Text.{strip}
use support_agent_platform.Shared.Str.{str, str_or, optional_str, of_option}
use support_agent_platform.Storage.Models.{Ticket}
use support_agent_platform.Storage.World.{World}
use support_agent_platform.Core.Hitl.PendingActions.{
  PendingAction, ApprovalStatus, pending_approval, approval_status_text, parse_approval_status,
  as_dict, time_or_now, action_of, parse_pending_action, cons_some, parse_actions,
  load_pending_actions, save_pending_actions,
}

-- A text without white space around it, that is not empty.
pub record IsClean (s : String) : Type 0 where
  pub there : (s == "") ≡ false
  pub stripped : strip s ≡ s

abbrev pub IsCleanOption : Option String → Type 0
IsCleanOption none = Unit
IsCleanOption (some s) = IsClean s

-- An action that comes back as it was saved.
pub record IsStorable (a : PendingAction) : Type 0 where
  pub approval_id : IsClean a.approval_id
  pub action_type : IsClean a.action_type
  pub ticket_id : (a.ticket_id == "") ≡ false
  pub risk_level : (a.risk_level == "") ≡ false
  pub requested_by : (a.requested_by == "") ≡ false
  pub requested_at : (a.requested_at == "") ≡ false
  pub timeout_at : (a.timeout_at == "") ≡ false
  pub reason : (a.reason == "") ≡ false
  pub approved_by : IsCleanOption a.approved_by
  pub rejected_by : IsCleanOption a.rejected_by
  pub decided_at : IsCleanOption a.decided_at
  pub decision_note : IsCleanOption a.decision_note

abbrev pub AllStorable : List PendingAction → Type 0
AllStorable [] = Unit
AllStorable (a ∷ actions) = IsStorable a × AllStorable actions

str_or-text : (s default : String) → (s == "") ≡ false → str_or (some (text s)) default ≡ s
unfolding str_or str truthy
str_or-text s default h = rw h refl

optional_str-of_option :
    (o : Option String) → IsCleanOption o → optional_str (some (of_option o)) ≡ o
unfolding optional_str str
optional_str-of_option none h = refl
optional_str-of_option (some s) h = rw (h.stripped, h.there) refl

parse-approval_status_text :
    (s : ApprovalStatus)
    → parse_approval_status
        (strip (str_or (some (text (approval_status_text s))) "pending_approval"))
      ≡ s
unfolding parse_approval_status approval_status_text strip str_or str truthy
parse-approval_status_text pending_approval = refl
parse-approval_status_text _ = refl

time_or_now-text :
    (s : String) (w : World) → (s == "") ≡ false → time_or_now (some (text s)) w ≡ (ok s, w)
unfolding time_or_now
time_or_now-text s w h = rw (str_or-text s "" h, h) refl

module _ (a : PendingAction) (ticket_id : String) (h : IsStorable a) where
  action_of-as_dict :
      action_of (as_dict a) ticket_id a.approval_id a.action_type a.requested_at a.timeout_at ≡ a
  unfolding action_of as_dict get
  action_of-as_dict =
      rw
        (
          str_or-text a.ticket_id ticket_id h.ticket_id,
          str_or-text a.risk_level "high" h.risk_level,
          parse-approval_status_text a.status,
          str_or-text a.requested_by "unknown" h.requested_by,
          str_or-text a.reason a.action_type h.reason,
          optional_str-of_option a.approved_by h.approved_by,
          optional_str-of_option a.rejected_by h.rejected_by,
          optional_str-of_option a.decided_at h.decided_at,
          optional_str-of_option a.decision_note h.decision_note,
        )
        refl

  parse-as_dict : (w : World) → parse_pending_action (as_dict a) ticket_id w ≡ (ok (some a), w)
  unfolding parse_pending_action as_dict get
  parse-as_dict w =
      rw
        (
          str_or-text a.approval_id "" h.approval_id.there,
          str_or-text a.action_type "" h.action_type.there,
          h.approval_id.stripped,
          h.action_type.stripped,
          h.approval_id.there,
          h.action_type.there,
          time_or_now-text a.requested_at w h.requested_at,
          time_or_now-text a.timeout_at w h.timeout_at,
        )
        (ap (λ b. (ok (some b), w)) action_of-as_dict)

pub parse_actions-as_dict :
    (actions : List PendingAction) (ticket_id : String) (w : World)
    → AllStorable actions
    → parse_actions (map (λ a. obj (as_dict a)) actions) ticket_id w ≡ (ok actions, w)
unfolding parse_actions cons_some
parse_actions-as_dict [] ticket_id w h = refl
parse_actions-as_dict (a ∷ actions) ticket_id w h =
    rw (parse-as_dict a ticket_id h.0 w, parse_actions-as_dict actions ticket_id w h.1) refl

-- What `save_pending_actions` writes into the metadata of a ticket, `load_pending_actions` reads back,
-- every action as it was and in the same order, without a reading of the clock, if their texts are not
-- empty and those that are stripped have no white space around them.
pub load_pending_actions-save :
    (t : Ticket) (actions : List PendingAction) (w : World)
    → AllStorable actions
    → load_pending_actions (record t { metadata = save_pending_actions t.metadata actions }) w
      ≡ (ok actions, w)
unfolding load_pending_actions save_pending_actions
load_pending_actions-save t actions w h =
    rw (get-put, get-put, get-put, of_items-to_items (map (λ a. obj (as_dict a)) actions))
      (parse_actions-as_dict actions t.ticket_id w h)
