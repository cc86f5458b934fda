-- ===== src/Core/Hitl/PendingActions.antt =====
-- core/hitl/pending_actions.py: the pending actions that a ticket's metadata holds.
use support_agent_platform.Shared.{
  ℕ, ◌+◌, ◌*◌, String, ◌<>◌, Bool, true, false, ◌&&◌, ◌||◌, Option, none, some, List, [], ◌∷◌, ◌++◌,
  map, ◌==◌, leb, eqb, if◌then◌else◌, some_of, first, ℤ, Value, Dict, bool, text, arr, obj, end,
  entry, get, put, of_items, to_items, ok, Exec, pure, gets, ◌>>=◌,
}
use Prim.Native.Char.{code}
use support_agent_platform.Shared.Text.{strip, prefix}
use support_agent_platform.Shared.Str.{str_or, optional_str, of_option}
use support_agent_platform.Shared.Int.{at_least_zero}
use support_agent_platform.Storage.Models.{Ticket}
use support_agent_platform.Storage.World.{World, now, new_uuid}

pub data ApprovalStatus : Type 0 where
  pending_approval approved rejected timeout : ApprovalStatus

unfoldable pub approval_status_text : ApprovalStatus → String
approval_status_text pending_approval = "pending_approval"
approval_status_text approved = "approved"
approval_status_text rejected = "rejected"
approval_status_text timeout = "timeout"

-- Another text reads as pending.
unfoldable pub parse_approval_status : String → ApprovalStatus
parse_approval_status s =
    if s == "approved"
    then approved
    else if s == "rejected"
    then rejected
    else if s == "timeout"
    then timeout
    else pending_approval

pub record PendingAction : Type 0 where
  pub approval_id : String
  pub ticket_id : String
  pub action_type : String
  pub risk_level : String
  pub status : ApprovalStatus
  pub requested_by : String
  pub requested_at : String
  pub timeout_at : String
  pub reason : String
  pub payload : Dict
  pub context : Dict
  pub approved_by : Option String
  pub rejected_by : Option String
  pub decided_at : Option String
  pub decision_note : Option String

unfoldable pub as_dict : PendingAction → Dict
unfolding approval_status_text
as_dict a = entry "approval_id" (text a.approval_id) (
    entry "ticket_id" (text a.ticket_id) (
      entry "action_type" (text a.action_type) (
        entry "risk_level" (text a.risk_level) (
          entry "status" (text (approval_status_text a.status)) (
            entry "requested_by" (text a.requested_by) (
              entry "requested_at" (text a.requested_at) (
                entry "timeout_at" (text a.timeout_at) (
                  entry "reason" (text a.reason) (
                    entry "payload" (obj a.payload) (
                      entry "context" (obj a.context) (
                        entry "approved_by" (of_option a.approved_by) (
                          entry "rejected_by" (of_option a.rejected_by) (
                            entry "decided_at" (of_option a.decided_at)
                              (entry "decision_note" (of_option a.decision_note) end))))))))))))))

-- A minute is 60 000 000 microseconds.
unfoldable pub build_pending_action :
    String → String → String → String → String → Dict → Dict → ℤ → Exec World PendingAction
unfolding prefix
build_pending_action ticket_id action_type risk_level requested_by reason payload context
      timeout_minutes =
    do
      time ← now
      iso ← gets (λ (w : World). w.isoformat)
      hex ← new_uuid
      pure (record {
        approval_id = "apr_" <> prefix 12 hex;
        ticket_id = ticket_id;
        action_type = action_type;
        risk_level = risk_level;
        status = pending_approval;
        requested_by = requested_by;
        requested_at = iso time;
        timeout_at = iso (time + at_least_zero timeout_minutes * 60000000);
        reason = reason;
        payload = payload;
        context = context;
        approved_by = none;
        rejected_by = none;
        decided_at = none;
        decision_note = none;
      })

-- `str(raw.get(key) or datetime.now(UTC).isoformat())`: the clock is read where the entry is empty.
unfoldable pub time_or_now : Option Value → Exec World String
unfolding str_or
time_or_now v w =
    let written = str_or v "" in
    let read = (do time ← now; gets (λ (w' : World). w'.isoformat time)) in
    if written == "" then read w else (ok written, w)

-- `dict(d) if isinstance(d, dict) else {}`.
abbrev pub dict_of : Option Value → Dict
dict_of (some (obj d)) = d
dict_of _ = end

unfoldable pub action_of : Dict → String → String → String → String → String → PendingAction
unfolding str_or strip optional_str parse_approval_status
action_of raw ticket_id approval_id action_type requested_at timeout_at = record {
  approval_id = approval_id;
  ticket_id = str_or (get "ticket_id" raw) ticket_id;
  action_type = action_type;
  risk_level = str_or (get "risk_level" raw) "high";
  status = parse_approval_status (strip (str_or (get "status" raw) "pending_approval"));
  requested_by = str_or (get "requested_by" raw) "unknown";
  requested_at = requested_at;
  timeout_at = timeout_at;
  reason = str_or (get "reason" raw) action_type;
  payload = dict_of (get "payload" raw);
  context = dict_of (get "context" raw);
  approved_by = optional_str (get "approved_by" raw);
  rejected_by = optional_str (get "rejected_by" raw);
  decided_at = optional_str (get "decided_at" raw);
  decision_note = optional_str (get "decision_note" raw);
}

-- `_parse_pending_action` of a dict.
unfoldable pub parse_pending_action : Dict → String → Exec World (Option PendingAction)
unfolding strip str_or
parse_pending_action raw ticket_id w =
    let approval_id = strip (str_or (get "approval_id" raw) "") in
    let action_type = strip (str_or (get "action_type" raw) "") in
    let parsed = (do
      requested_at ← time_or_now (get "requested_at" raw)
      timeout_at ← time_or_now (get "timeout_at" raw)
      pure (some (action_of raw ticket_id approval_id action_type requested_at timeout_at))) in
    if approval_id == "" || action_type == "" then (ok none, w) else parsed w

unfoldable pub cons_some : Option PendingAction → List PendingAction → List PendingAction
cons_some none actions = actions
cons_some (some a) actions = a ∷ actions

-- A value that is no dict is left out.
unfoldable pub parse_actions : List Value → String → Exec World (List PendingAction)
parse_actions [] ticket_id w = (ok [], w)
parse_actions (obj raw ∷ values) ticket_id w =
    let m = (do
      parsed ← parse_pending_action raw ticket_id
      actions ← parse_actions values ticket_id
      pure (cons_some parsed actions)) in
    m w
parse_actions (_ ∷ values) ticket_id w = parse_actions values ticket_id w

-- `isinstance(raw, list)`.
abbrev pub elements : Option Value → List Value
elements (some (arr items)) = of_items items
elements _ = []

unfoldable pub load_pending_actions : Ticket → Exec World (List PendingAction)
load_pending_actions t = parse_actions (elements (get "pending_actions" t.metadata)) t.ticket_id

abbrev pub is_pending : PendingAction → Bool
is_pending a = elim a.status [ pending_approval ↦ true | _ ↦ false ]

-- The identifier of the last pending action.
unfoldable pub latest_pending : List PendingAction → Option String
latest_pending [] = none
latest_pending (a ∷ actions) =
    let rest = latest_pending actions in
    elim rest [ some id ↦ some id | none ↦ if is_pending a then some a.approval_id else none ]

unfoldable pub save_pending_actions : Dict → List PendingAction → Dict
unfolding as_dict latest_pending put
save_pending_actions metadata actions =
    put "latest_pending_approval_id" (of_option (latest_pending actions)) (
      put "approval_required" (bool (some_of is_pending actions))
        (put "pending_actions" (arr (to_items (map (λ a. obj (as_dict a)) actions))) metadata))

unfoldable pub find_action : List PendingAction → String → Option PendingAction
find_action actions id = first (λ a. a.approval_id == id) actions

unfoldable pub substitute : List PendingAction → String → PendingAction → List PendingAction
substitute [] id next_action = []
substitute (a ∷ actions) id next_action =
    (if a.approval_id == id then next_action else a) ∷ substitute actions id next_action

unfoldable pub replace_action : List PendingAction → String → PendingAction → List PendingAction
unfolding substitute
replace_action actions id next_action =
    let updated = substitute actions id next_action in
    if some_of (λ a. a.approval_id == id) actions then updated else updated ++ next_action ∷ []

-- `s.replace("Z", "+00:00")`.
unfoldable pub with_offset : String → String
with_offset String.[] = String.[]
with_offset (String.◌∷◌ c s) =
    let rest = with_offset s in if eqb (code c) 90 then "+00:00" <> rest else String.◌∷◌ c rest

-- `is_action_timed_out` at a time. A text that is no time never times out.
unfoldable pub is_action_timed_out : World → PendingAction → ℕ → Bool
unfolding with_offset
is_action_timed_out w a time = is_pending a && elim (w.fromisoformat (with_offset a.timeout_at)) [
  | none ↦ false
  | some limit ↦ leb limit time
]
