-- ===== src/Agent/Policy.antt =====
-- tool_policy.py, the call's preview in preview_tool_call.py, and the intention to apply in
-- agent_task_contract.py: what a model's call must satisfy before it is taken.
use opspilot_agent_platform.Prelude.{
  ℕ, String, Bool, true, false, not, ◌&&◌, ◌||◌, Option, none, some, List, [], ◌∷◌, ◌==◌, text_eq,
  contains, if◌then◌else◌,
}
use opspilot_agent_platform.Prelude.Text.{is_blank, occurs_in}
use opspilot_agent_platform.Prelude.Exec.{Result, ok, err}
use opspilot_agent_platform.Agent.State.{
  GraphError, value_error, tool_disabled, ToolCall, TraceStep, State,
}

abbrev pub legacy_ticket_tools : List String
legacy_ticket_tools = "query_ticket" ∷ "request_priority_change" ∷ []

unfoldable pub tool_is_enabled : Bool → String → Bool
tool_is_enabled auth_required name = not (contains legacy_ticket_tools name) || not auth_required

abbrev pub max_tool_steps : ℕ
max_tool_steps = 3

-- The names in `TOOLS`
abbrev allowed_names : List String
allowed_names =
    "query_ticket" ∷ "query_order" ∷ "check_return_eligibility" ∷ "request_priority_change"
    ∷ "search_knowledge_base" ∷ []

name_or_empty : Option String → String
name_or_empty none = ""
name_or_empty (some name) = name

traced_enabled : Bool → List TraceStep → Bool
traced_enabled auth_required [] = true
traced_enabled auth_required (t ∷ ts) =
    tool_is_enabled auth_required t.tool_name && traced_enabled auth_required ts

-- `_require_enabled_state_tools`, as a test
unfoldable pub state_tools_enabled : Bool → State → Bool
unfolding name_or_empty traced_enabled
state_tools_enabled auth_required s =
    tool_is_enabled auth_required (name_or_empty s.tool_name)
    && traced_enabled auth_required s.tool_trace

preview_arguments : String → Option String → Result GraphError (String × String)
preview_arguments name none = err value_error
preview_arguments name (some arguments) = ok (name, arguments)

preview_named : Bool → Option String → Option String → Result GraphError (String × String)
unfolding preview_arguments
preview_named auth_required none arguments = err value_error
preview_named auth_required (some name) arguments =
    if not (contains allowed_names name)
    then err value_error
    else if not (tool_is_enabled auth_required name)
    then err tool_disabled
    else preview_arguments name arguments

-- The name and arguments of the one call, if the tool is known and enabled.
unfoldable pub extract_tool_preview : Bool → List ToolCall → Result GraphError (String × String)
unfolding preview_named
extract_tool_preview auth_required [] = err value_error
extract_tool_preview auth_required (call ∷ []) =
    preview_named auth_required call.name call.arguments
extract_tool_preview auth_required (call ∷ (_ ∷ _)) = err value_error

-- The type and identifier of a call.
valid_call_id : ToolCall → Option String → Result GraphError String
valid_call_id call none = err value_error
valid_call_id call (some id) =
    if call.type == "function" && not (is_blank id) then ok id else err value_error

unfoldable pub call_id : List ToolCall → Result GraphError String
unfolding valid_call_id
call_id [] = err value_error
call_id (call ∷ _) = valid_call_id call call.id

any_in : List String → String → Bool
any_in [] question = false
any_in (term ∷ terms) question = occurs_in term question || any_in terms question

-- Only an explicit wish to apply lets the agent prepare a draft.
unfoldable pub wants_return_application : String → Bool
unfolding any_in
wants_return_application question =
    not (
      any_in
        ("流程" ∷ "怎么" ∷ "如何" ∷ "政策是什么" ∷ "政策有哪些" ∷ "规则是什么" ∷ "有什么规则" ∷ "能退" ∷ "可以退" ∷ "是否" ∷ "吗"
          ∷ [])
        question)
    && any_in ("申请退货" ∷ "创建退货申请" ∷ "发起退货" ∷ "提交退货" ∷ "办理退货" ∷ "我要退货" ∷ "帮我退货" ∷ []) question
