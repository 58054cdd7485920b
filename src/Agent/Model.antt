-- ===== src/Agent/Model.antt =====
-- The node `call_model`: the model answers, or names one tool to run.
pub mod Turns
pub mod Words
use Prim.Native.String.{◌++◌}
use mathlib.Core.List.{◌++◌ as ◌+++◌}
use opspilot_agent_platform.Prelude.{
  ℕ, ◌+◌, String, Bool, true, false, not, ◌&&◌, Option, none, some, List, [], ◌∷◌, ◌==◌, text_eq,
  ltb, keep, contains, if◌then◌else◌,
}
use opspilot_agent_platform.Prelude.Text.{is_blank}
use opspilot_agent_platform.Prelude.Exec.{
  Result, Exec, ok, err, pure, raise, lift, or_raise, raise_if, ◌>>=◌, ◌>>◌,
}
use opspilot_agent_platform.Evidence.{Evidence, append_verified_citations}
use opspilot_agent_platform.Agent.State.{
  Mode, mock, live, running, completed, GraphError, value_error, key_error, tool_disabled, nothing,
  TraceStep, system, assistant, Telemetry, ModelReply, State, Services, Rules, ToolResult, ToolCall,
}
use opspilot_agent_platform.Agent.Policy.{
  max_tool_steps, state_tools_enabled, extract_tool_preview, call_id,
}

-- A greeting, or a plain query of one order, is served without the model, before any tool has run.
direct_call : State → String → State
direct_call s order_id =
    let arguments = "{\"order_id\": \"" ++ (order_id ++ "\"}") in
    let id = "direct_order_" ++ s.thread_id in
    record s {
      tool_name = some "query_order";
      arguments_json = arguments;
      tool_call_id = id;
      tool_steps = 1;
      messages =
          s.messages
          +++ (assistant none (
                record {
                  type = "function";
                  id = some id;
                  name = some "query_order";
                  arguments = some arguments;
                }
                ∷ [])
              ∷ []);
      retry_model = false;
      status = running;
    }

direct_query : State → Mode → Option String → Option State
unfolding direct_call
direct_query s live (some order_id) = some (direct_call s order_id)
direct_query s _ _ = none

first_turn : Rules → State → Option String → Option State
unfolding direct_query
first_turn rules s (some guidance) =
    some (record s { answer = guidance; status = completed; retry_model = false })
first_turn rules s none = direct_query s s.mode (rules.simple_order_query s.task_question)

shortcut : Rules → State → List TraceStep → Option State
unfolding first_turn
shortcut rules s [] = first_turn rules s (rules.service_guidance s.task_question)
shortcut rules s (_ ∷ _) = none

with_request : Mode → State → State
with_request mock s = record s { simulated_model_requests = s.simulated_model_requests + 1 }
with_request live s = record s { model_requests = s.model_requests + 1 }

abbrev pub with_telemetry : Option Telemetry → State → State
with_telemetry none s = s
with_telemetry (some t) s = record s {
  model_http_attempts = s.model_http_attempts + t.http_attempts;
  model_retry_count = s.model_retry_count + t.retry_count;
}

counted : ModelReply → State → State
unfolding with_request
counted reply s =
    with_telemetry reply.telemetry (record (with_request s.mode s) { retry_model = false })

has_result : ToolResult → Bool
has_result nothing = false
has_result _ = true

-- The tools that have returned something.
completed_tools : List TraceStep → List String
unfolding has_result
completed_tools [] = []
completed_tools (t ∷ ts) =
    let rest = completed_tools ts in if has_result t.result then t.tool_name ∷ rest else rest

missing_tools : Rules → State → List String
unfolding completed_tools
missing_tools rules s =
    keep (λ name. not (contains (completed_tools s.tool_trace) name))
      (rules.required_tools s.task_question)

join_names : List String → String
join_names [] = ""
join_names (name ∷ []) = name
join_names (name ∷ (n ∷ ns)) = let rest = join_names (n ∷ ns) in name ++ ("、" ++ rest)

join_contents : List Evidence → Option String
join_contents [] = some ""
join_contents (item ∷ []) = item.content
join_contents (item ∷ (i ∷ is)) =
    let rest = join_contents (i ∷ is) in
    elim item.content [
      | none ↦ none
      | some c ↦ elim rest [ none ↦ none | some cs ↦ some (c ++ ("\n\n" ++ cs)) ]
    ]

-- `append_verified_citations` of the passages themselves; the model's own words are dropped.
quoted_answer : List Evidence → Result GraphError String
unfolding join_contents
quoted_answer evidence = elim (join_contents evidence) [
  | none ↦ err key_error
  | some text ↦ elim (append_verified_citations text evidence) [
    | err _ ↦ err value_error
    | ok a ↦ ok a
  ]
]

final_answer : Rules → State → String → List String → List Evidence → Result GraphError String
unfolding quoted_answer
final_answer rules s content (_ ∷ _) evidence =
    elim (rules.grounded_answer s.task_question s.tool_trace evidence) [
      | none ↦ err value_error
      | some answer ↦ ok answer
    ]
final_answer rules s content [] (e ∷ es) = quoted_answer (e ∷ es)
final_answer rules s content [] [] = ok content

-- What a required tool that is still missing makes of an answer: one more try, then a refusal.
incomplete : Bool → List String → State → State → State
unfolding join_names
incomplete offer_tools missing s next =
    if offer_tools && ltb s.completion_retries 1
    then record next {
      messages =
          s.messages
          +++ (system
                ("当前问题还缺少已验证的工具结果：" ++ (join_names missing ++ "。请先调用一个缺失的只读工具；不能直接给出订单与政策的联合结论。"))
              ∷ []);
      completion_retries = 1;
      retry_model = true;
      status = running;
    }
    else record next { answer = "尚未同时取得订单信息和政策证据，无法可靠回答这个联合问题。"; status = completed }

answer_with : Rules → Bool → State → State → String → List String → Result GraphError State
unfolding incomplete final_answer
answer_with rules offer_tools s next content (m ∷ missing) =
    ok (incomplete offer_tools (m ∷ missing) s next)
answer_with rules offer_tools s next content [] =
    elim (final_answer rules s content (rules.required_tools s.task_question) s.rag_evidence) [
      | err e ↦ err e
      | ok answer ↦ ok (record next { answer = answer; status = completed })
    ]

answer_turn : Rules → Bool → State → State → Option String → Result GraphError State
unfolding answer_with missing_tools
answer_turn rules offer_tools s next none = err value_error
answer_turn rules offer_tools s next (some content) =
    if is_blank content
    then err value_error
    else answer_with rules offer_tools s next content (missing_tools rules s)

call_turn : Rules → Bool → State → State → ModelReply → Result GraphError State
call_turn rules offer_tools s next reply =
    if not offer_tools
    then err value_error
    else elim (extract_tool_preview rules.auth_required reply.tool_calls) [
      | err e ↦ err e
      | ok (name, arguments) ↦ elim (call_id reply.tool_calls) [
        | err e ↦ err e
        | ok id ↦ ok (record next {
          messages = s.messages +++ (assistant reply.content reply.tool_calls ∷ []);
          tool_name = some name;
          arguments_json = arguments;
          tool_call_id = id;
          tool_steps = s.tool_steps + 1;
          status = running;
        })
      ]
    ]

turn : Rules → Bool → State → ModelReply → List ToolCall → Result GraphError State
unfolding answer_turn call_turn counted
turn rules offer_tools s reply [] = answer_turn rules offer_tools s (counted reply s) reply.content
turn rules offer_tools s reply (_ ∷ _) = call_turn rules offer_tools s (counted reply s) reply

-- What a reply of the model makes of the state.
pub apply_reply : Rules → State → ModelReply → Result GraphError State
unfolding turn
apply_reply rules s reply =
    if not (reply.role == "assistant")
    then err value_error
    else turn rules (ltb s.tool_steps max_tool_steps) s reply reply.tool_calls

module _ {World : Type 0} (rules : Rules) (services : Services World) where
  model_turn : State → Option State → Exec GraphError World State
  model_turn s (some s') = pure s'
  model_turn s none = do
    reply ← services.request s.mode s.messages (ltb s.tool_steps max_tool_steps)
    lift (apply_reply rules s reply)

  unfoldable pub call_model_node : State → Exec GraphError World State
  unfolding model_turn shortcut
  call_model_node s = do
    raise_if (not (state_tools_enabled rules.auth_required s)) tool_disabled
    model_turn s (shortcut rules s s.tool_trace)
