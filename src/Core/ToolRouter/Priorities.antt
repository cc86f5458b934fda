-- ===== src/Core/ToolRouter/Priorities.antt =====
-- core/tool_router.py and tools/: a priority that is no literal never comes to the ticket API.
use support_agent_platform.Shared.{
  String, ◌<>◌, ◌≡◌, refl, ap, Bool, none, Value, Dict, Error, Result, ok, err, value_error, Exec,
  pure, lift, proceed, ◌>>=◌,
}
use support_agent_platform.Storage.Models.{parse_priority}
use support_agent_platform.Storage.World.{World}
use support_agent_platform.Core.Tools.{
  normalize_priority, str_at, create_ticket_tool, escalate_case,
}
use support_agent_platform.Core.ToolRouter.{
  SearchCall, ToolArgs, require_str, require_all, ticket_fields, run_create_ticket,
  run_escalate_case, handle, execute,
}

-- The program raises, and changes nothing.
abbrev pub Leaves : {A : Type 0} → Exec World A → World → Type 0
Leaves m w = (e : Error) × (m w ≡ (err e, w))

Leaves-lift :
    {A B : Type 0} (r : Result A) (k : A → Exec World B) (w : World)
    → ((a : A) → Leaves (k a) w)
    → Leaves (lift r >>= k) w
Leaves-lift (ok a) k w rest = rest a
Leaves-lift (err e) k w rest = (e, refl)

Leaves-bind :
    {A B : Type 0} (m : Exec World A) (k : A → Exec World B) (w : World)
    → Leaves m w
    → Leaves (m >>= k) w
Leaves-bind m k w (e, same) = (e, ap (λ (r : Result _ × World). proceed r.0 k r.1) same)

normalize_priority_of_bad :
    (value : String)
    → parse_priority value ≡ none
    → normalize_priority value ≡ err (value_error ("Invalid priority: " <> value))
unfolding normalize_priority
normalize_priority_of_bad value bad = rw (bad, normalize_priority) refl

create-Leaves :
    (mapped : Bool) (args : Dict) (w : World)
    → parse_priority (str_at "priority" "P3" args) ≡ none
    → Leaves (create_ticket_tool mapped args) w
unfolding create_ticket_tool
create-Leaves mapped args w bad = (
  value_error ("Invalid priority: " <> str_at "priority" "P3" args),
  rw (normalize_priority_of_bad (str_at "priority" "P3" args) bad) refl,
)

escalate-Leaves :
    (id actor_id reason priority : String) (w : World)
    → parse_priority priority ≡ none
    → Leaves (escalate_case id actor_id reason priority) w
unfolding escalate_case
escalate-Leaves id actor_id reason priority w bad = (
  value_error ("Invalid priority: " <> priority),
  rw (normalize_priority_of_bad priority bad) refl,
)

module _ (search_kb : SearchCall → Exec World Value) (mapped : Bool) (args : Dict) (w : World) where
  run_create-Leaves :
      parse_priority (str_at "priority" "P3" args) ≡ none
      → Leaves (run_create_ticket search_kb mapped args) w
  unfolding run_create_ticket
  run_create-Leaves bad =
      Leaves-lift (require_all ticket_fields args) (λ _. create_ticket_tool mapped args) w
        λ _. create-Leaves mapped args w bad

  run_escalate-Leaves :
      parse_priority (str_at "new_priority" "P1" args) ≡ none
      → Leaves (run_escalate_case search_kb mapped args) w
  unfolding run_escalate_case
  run_escalate-Leaves bad =
      let priority = str_at "new_priority" "P1" args in
      let act =
        λ (id actor_id : String). λ (reason : String). escalate_case id actor_id reason priority in
      let with_actor =
        λ (id actor_id : String). lift (require_str "reason" args) >>= act id actor_id in
      Leaves-lift (require_str "ticket_id" args)
        (λ id. lift (require_str "actor_id" args) >>= with_actor id) w
        λ id. Leaves-lift (require_str "actor_id" args) (with_actor id) w λ actor_id.
          Leaves-lift (require_str "reason" args) (act id actor_id) w
            λ reason. escalate-Leaves id actor_id reason priority w bad

-- The tools check a priority before they call the ticket API: whatever their other arguments are, a
-- creation and an escalation whose priority is no literal raise, and change nothing.
pub bad_priority-Leaves :
    (search_kb : SearchCall → Exec World Value) (mapped : Bool) (creation escalation : ToolArgs)
    (w : World)
    → parse_priority (str_at "priority" "P3" creation.fields) ≡ none
    → parse_priority (str_at "new_priority" "P1" escalation.fields) ≡ none
    → Leaves (execute search_kb mapped "create_ticket" creation) w
      × Leaves (execute search_kb mapped "escalate_case" escalation) w
unfolding execute handle
bad_priority-Leaves search_kb mapped creation escalation w bad worse = (
  Leaves-bind (run_create_ticket search_kb mapped creation.fields)
      (λ v. pure (record { tool_name = "create_ticket"; output = v })) w
      (run_create-Leaves search_kb mapped creation.fields w bad),
  Leaves-bind (run_escalate_case search_kb mapped escalation.fields)
      (λ v. pure (record { tool_name = "escalate_case"; output = v })) w
      (run_escalate-Leaves search_kb mapped escalation.fields w worse),
)
