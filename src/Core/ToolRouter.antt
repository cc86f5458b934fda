-- ===== src/Core/ToolRouter.antt =====
-- core/tool_router.py: `ToolRouter`, which checks the arguments of a tool and runs it. What
-- `search_kb` gives is an argument.
pub mod Keeping
pub mod Checks
pub mod Refusals
pub mod Priorities
use support_agent_platform.Shared.{
  String, ◌<>◌, Bool, Option, none, some, List, [], ◌∷◌, ◌==◌, if◌then◌else◌, ℤ, pos, Value, Dict,
  null, get, Result, ok, err, value_error, Exec, pure, lift, ◌>>=◌, ◌>>◌,
}
use support_agent_platform.Shared.Str.{str, int_of}
use support_agent_platform.Shared.Text.{strip}
use support_agent_platform.Storage.World.{World}
use support_agent_platform.Storage.Columns.{Update}
use support_agent_platform.Core.Tools.{
  str_at, create_ticket_tool, update_ticket_tool, assign_ticket_tool, close_case, escalate_case,
}

pub record ToolExecutionResult : Type 0 where
  pub tool_name : String
  pub output : Value

-- The arguments of a call. The entry "updates" is held apart, as columns; an entry that is false is
-- the empty list.
pub record ToolArgs : Type 0 where
  pub fields : Dict
  pub updates : List Update

-- `_require_str`, on the value at the key.
unfoldable pub checked_str : String → Option Value → Result String
unfolding str strip
checked_str field none = err (value_error ("Missing required field: " <> field))
checked_str field (some null) = err (value_error ("Missing required field: " <> field))
checked_str field (some v) =
    let s = strip (str v) in
    if s == "" then err (value_error ("Field '" <> field <> "' cannot be empty")) else ok s

unfoldable pub require_str : String → Dict → Result String
unfolding checked_str
require_str field args = checked_str field (get field args)

-- `for field in required: self._require_str(args, field)`.
unfoldable pub require_all : List String → Dict → Result (Unit {0})
unfolding require_str
require_all [] args = ok tt
require_all (field ∷ fields) args = elim (require_str field args) [
  | err e ↦ err e
  | ok s ↦ require_all fields args
]

abbrev pub ticket_fields : List String
ticket_fields = "channel" ∷ "session_id" ∷ "thread_id" ∷ "title" ∷ "latest_message" ∷ "intent" ∷ []

-- The arguments of `search_kb`: the source, the query, the number of results and the mode.
pub record SearchCall : Type 0 where
  pub source_type : String
  pub query : String
  pub top_k : ℤ
  pub retrieval_mode : Option String

-- `int(args.get("top_k", 3))`.
unfoldable pub top_k_of : Dict → Result ℤ
unfolding int_of
top_k_of args = elim (get "top_k" args) [ none ↦ ok (pos 3) | some v ↦ int_of v ]

-- The handlers, given what `search_kb` does and whether there is a session mapper.
module _ (search_kb : SearchCall → Exec World Value) (mapped : Bool) where
  unfoldable pub run_search_kb : Dict → Exec World Value
  unfolding require_str top_k_of str strip
  run_search_kb args = do
    query ← lift (require_str "query" args)
    top_k ← lift (top_k_of args)
    let mode = strip (str_at "retrieval_mode" "" args)
    search_kb (record {
      source_type = str_at "source_type" "faq" args;
      query = query;
      top_k = top_k;
      retrieval_mode = if mode == "" then none else some mode;
    })

  unfoldable pub run_create_ticket : Dict → Exec World Value
  unfolding require_all
  run_create_ticket args = do lift (require_all ticket_fields args); create_ticket_tool mapped args

  -- The test that there is some update.
  unfoldable pub some_updates : List Update → Result (Unit {0})
  some_updates [] = err (value_error "updates cannot be empty")
  some_updates (u ∷ updates) = ok tt

  unfoldable pub run_update_ticket : ToolArgs → Exec World Value
  unfolding require_str some_updates
  run_update_ticket args = do
    id ← lift (require_str "ticket_id" args.fields)
    actor_id ← lift (require_str "actor_id" args.fields)
    lift (some_updates args.updates)
    update_ticket_tool id args.updates actor_id

  unfoldable pub run_assign_ticket : Dict → Exec World Value
  unfolding require_str
  run_assign_ticket args = do
    id ← lift (require_str "ticket_id" args)
    assignee ← lift (require_str "assignee" args)
    actor_id ← lift (require_str "actor_id" args)
    assign_ticket_tool id assignee actor_id

  unfoldable pub run_close_case : Dict → Exec World Value
  unfolding require_str
  run_close_case args = do
    id ← lift (require_str "ticket_id" args)
    actor_id ← lift (require_str "actor_id" args)
    resolution_note ← lift (require_str "resolution_note" args)
    close_case id actor_id resolution_note

  unfoldable pub run_escalate_case : Dict → Exec World Value
  unfolding require_str str
  run_escalate_case args = do
    id ← lift (require_str "ticket_id" args)
    actor_id ← lift (require_str "actor_id" args)
    reason ← lift (require_str "reason" args)
    escalate_case id actor_id reason (str_at "new_priority" "P1" args)

  -- `self._handlers[tool_name](args)`, and the refusal of a name that is not there.
  unfoldable pub handle : String → ToolArgs → Exec World Value
  unfolding run_search_kb run_create_ticket run_update_ticket run_assign_ticket run_close_case
      run_escalate_case
  handle tool_name args w =
      if tool_name == "search_kb"
      then run_search_kb args.fields w
      else if tool_name == "create_ticket"
      then run_create_ticket args.fields w
      else if tool_name == "update_ticket"
      then run_update_ticket args w
      else if tool_name == "assign_ticket"
      then run_assign_ticket args.fields w
      else if tool_name == "close_case"
      then run_close_case args.fields w
      else if tool_name == "escalate_case"
      then run_escalate_case args.fields w
      else (err (value_error ("Unsupported tool '" <> tool_name <> "'")), w)

  -- `execute`, without the lines of the trace log.
  unfoldable pub execute : String → ToolArgs → Exec World ToolExecutionResult
  unfolding handle
  execute tool_name args = do
    output ← handle tool_name args
    pure (record { tool_name = tool_name; output = output })
