-- ===== src/Core/ToolRouter/Refusals.antt =====
-- core/tool_router.py: the calls that are refused before anything is written.
use support_agent_platform.Shared.{
  String, ◌≡◌, sym, ap, subst, Bool, true, false≢true, List, [], ◌∷◌, arith, ◌==◌, if◌then◌else◌,
  contains, Value, Error, err, Exec, proceed,
}
use support_agent_platform.Storage.World.{World}
use support_agent_platform.Core.Tools.{create_ticket_tool}
use support_agent_platform.Core.ToolRouter.{
  SearchCall, ToolArgs, require_str, ticket_fields, run_search_kb, run_create_ticket,
  run_update_ticket, run_assign_ticket, run_close_case, run_escalate_case, handle, execute,
}
use support_agent_platform.Core.ToolRouter.Checks.{
  Refuses, after_one, after_two, after_three, all_refuse, Refuses-bind, Refused-if,
}

-- The fields that a tool cannot do without.
unfoldable pub required_fields : String → List String
required_fields tool_name =
    if tool_name == "search_kb"
    then "query" ∷ []
    else if tool_name == "create_ticket"
    then ticket_fields
    else if tool_name == "update_ticket"
    then "ticket_id" ∷ "actor_id" ∷ []
    else if tool_name == "assign_ticket"
    then "ticket_id" ∷ "assignee" ∷ "actor_id" ∷ []
    else if tool_name == "close_case"
    then "ticket_id" ∷ "actor_id" ∷ "resolution_note" ∷ []
    else if tool_name == "escalate_case"
    then "ticket_id" ∷ "actor_id" ∷ "reason" ∷ []
    else []

module _ (search_kb : SearchCall → Exec World Value) (mapped : Bool) (args : ToolArgs) (w : World)
    (field : String) (e : Error) (fails : require_str field args.fields ≡ err e) where
  create_refuses :
      (fields : List String)
      → fields ≡ ticket_fields
      → contains fields field ≡ true
      → Refuses fields args.fields (run_create_ticket search_kb mapped args.fields) w
  unfolding run_create_ticket
  create_refuses fields same among =
      let (f, (among_, (x, (h, all)))) =
        all_refuse ticket_fields args.fields field e
          (subst (λ fs. contains fs field ≡ true) same among) fails in
      (
        f,
        (
          subst (λ fs. contains fs f ≡ true) (sym same) among_,
          (x, (h, ap (λ r. proceed r (λ _. create_ticket_tool mapped args.fields) w) all)),
        ),
      )

  handle_refuses :
      (tool_name : String)
      → contains (required_fields tool_name) field ≡ true
      → Refuses (required_fields tool_name) args.fields (handle search_kb mapped tool_name args) w
  unfolding handle required_fields run_search_kb run_update_ticket run_assign_ticket run_close_case
      run_escalate_case
  handle_refuses tool_name among =
      let fields = required_fields tool_name in
      Refused-if fields args.fields w (tool_name == "search_kb") _ _
        (λ h. after_one fields args.fields w field e fails "query" _ (ground arith) among)
        λ h1.
          Refused-if fields args.fields w (tool_name == "create_ticket") _ _
            (λ h. create_refuses fields (ground arith) among)
            λ h2.
              Refused-if fields args.fields w (tool_name == "update_ticket") _ _
                (λ h.
                  after_two fields args.fields w field e fails "ticket_id" "actor_id" _
                    (ground arith) among)
                λ h3.
                  Refused-if fields args.fields w (tool_name == "assign_ticket") _ _
                    (λ h.
                      after_three fields args.fields w field e fails "ticket_id" "assignee"
                        "actor_id" _ (ground arith) among)
                    λ h4.
                      Refused-if fields args.fields w (tool_name == "close_case") _ _
                        (λ h.
                          after_three fields args.fields w field e fails "ticket_id" "actor_id"
                            "resolution_note" _ (ground arith) among)
                        λ h5.
                          Refused-if fields args.fields w (tool_name == "escalate_case") _ _
                            (λ h.
                              after_three fields args.fields w field e fails "ticket_id" "actor_id"
                                "reason" _ (ground arith) among)
                            λ h6. absurd (false≢true (ground arith))

  -- A call of a tool without one of the fields that the tool requires, or with one that is blank,
  -- raises the refusal of such a field, and changes nothing, whatever the other arguments are.
  pub missing_field_refuses :
      (tool_name : String)
      → contains (required_fields tool_name) field ≡ true
      → Refuses (required_fields tool_name) args.fields (execute search_kb mapped tool_name args) w
  unfolding execute
  missing_field_refuses tool_name among =
      Refuses-bind (required_fields tool_name) args.fields w
        (handle search_kb mapped tool_name args) _ (handle_refuses tool_name among)
