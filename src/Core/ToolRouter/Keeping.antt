-- ===== src/Core/ToolRouter/Keeping.antt =====
-- core/tool_router.py: a tool keeps to the lifecycle, if the search does.
use support_agent_platform.Shared.{String, Bool, List, ◌==◌, Value, Dict, Exec}
use support_agent_platform.Storage.Models.{Priority}
use support_agent_platform.Storage.World.{World}
use support_agent_platform.Storage.Columns.{Update}
use support_agent_platform.Core.Lifecycle.{Keeps}
use support_agent_platform.Core.KeepsRules.{keeps_rules}
use support_agent_platform.Core.Tools.{
  new_ticket_of, create_ticket_tool, update_ticket_tool, assign_ticket_tool, close_case,
  escalate_case,
}
use support_agent_platform.Core.ToolRouter.{
  SearchCall, ToolArgs, run_search_kb, run_create_ticket, run_update_ticket, run_assign_ticket,
  run_close_case, run_escalate_case, handle, execute,
}
use support_agent_platform.Core.Lifecycle.Programs.{Keeps-if, Keeps-fails}

new_ticket_of-Keeps : (args : Dict) (p : Priority) → Keeps (new_ticket_of args p)
unfolding new_ticket_of
new_ticket_of-Keeps args p = search keeps_rules depth 9

create_ticket_tool-Keeps : (mapped : Bool) (args : Dict) → Keeps (create_ticket_tool mapped args)
unfolding create_ticket_tool
create_ticket_tool-Keeps mapped args = search (keeps_rules, new_ticket_of-Keeps)

update_ticket_tool-Keeps :
    (id : String) (updates : List Update) (actor_id : String)
    → Keeps (update_ticket_tool id updates actor_id)
unfolding update_ticket_tool
update_ticket_tool-Keeps id updates actor_id = search keeps_rules

assign_ticket_tool-Keeps :
    (id assignee actor_id : String) → Keeps (assign_ticket_tool id assignee actor_id)
unfolding assign_ticket_tool
assign_ticket_tool-Keeps id assignee actor_id = search keeps_rules

close_case-Keeps : (id actor_id note : String) → Keeps (close_case id actor_id note)
unfolding close_case
close_case-Keeps id actor_id note = search keeps_rules

escalate_case-Keeps :
    (id actor_id reason priority : String) → Keeps (escalate_case id actor_id reason priority)
unfolding escalate_case
escalate_case-Keeps id actor_id reason priority = search keeps_rules

module _ (search_kb : SearchCall → Exec World Value) (mapped : Bool)
    (kept : (c : SearchCall) → Keeps (search_kb c)) where
  run_search_kb-Keeps : (args : Dict) → Keeps (run_search_kb search_kb mapped args)
  unfolding run_search_kb
  run_search_kb-Keeps args = search (keeps_rules, kept)

  run_create_ticket-Keeps : (args : Dict) → Keeps (run_create_ticket search_kb mapped args)
  unfolding run_create_ticket
  run_create_ticket-Keeps args = search (keeps_rules, create_ticket_tool-Keeps)

  run_update_ticket-Keeps : (args : ToolArgs) → Keeps (run_update_ticket search_kb mapped args)
  unfolding run_update_ticket
  run_update_ticket-Keeps args = search (keeps_rules, update_ticket_tool-Keeps)

  run_assign_ticket-Keeps : (args : Dict) → Keeps (run_assign_ticket search_kb mapped args)
  unfolding run_assign_ticket
  run_assign_ticket-Keeps args = search (keeps_rules, assign_ticket_tool-Keeps)

  run_close_case-Keeps : (args : Dict) → Keeps (run_close_case search_kb mapped args)
  unfolding run_close_case
  run_close_case-Keeps args = search (keeps_rules, close_case-Keeps)

  run_escalate_case-Keeps : (args : Dict) → Keeps (run_escalate_case search_kb mapped args)
  unfolding run_escalate_case
  run_escalate_case-Keeps args = search (keeps_rules, escalate_case-Keeps)

  handle-Keeps :
      (tool_name : String) (args : ToolArgs) → Keeps (handle search_kb mapped tool_name args)
  unfolding handle
  handle-Keeps tool_name args =
      Keeps-if (tool_name == "search_kb") (run_search_kb search_kb mapped args.fields) _
        (run_search_kb-Keeps args.fields)
        (Keeps-if (tool_name == "create_ticket") (run_create_ticket search_kb mapped args.fields) _
          (run_create_ticket-Keeps args.fields)
          (Keeps-if (tool_name == "update_ticket") (run_update_ticket search_kb mapped args) _
            (run_update_ticket-Keeps args)
            (Keeps-if (tool_name == "assign_ticket")
              (run_assign_ticket search_kb mapped args.fields) _
              (run_assign_ticket-Keeps args.fields)
              (Keeps-if (tool_name == "close_case") (run_close_case search_kb mapped args.fields) _
                (run_close_case-Keeps args.fields)
                (Keeps-if (tool_name == "escalate_case")
                  (run_escalate_case search_kb mapped args.fields) _
                  (run_escalate_case-Keeps args.fields) (Keeps-fails _))))))

  pub execute-Keeps :
      (tool_name : String) (args : ToolArgs) → Keeps (execute search_kb mapped tool_name args)
  unfolding execute
  execute-Keeps tool_name args = search (keeps_rules, handle-Keeps)
