-- ===== src/Agent/Read.antt =====
-- The node `read_tool`: it runs the tool that the model named, and files what the tool returned.
pub mod Filing
pub mod Worlds
use Prim.Native.String.{◌++◌}
use mathlib.Core.List.{◌++◌ as ◌+++◌}
use opspilot_agent_platform.Prelude.{
  ℕ, ◌+◌, ◌/◌, ◌%◌, String, Bool, true, false, not, ◌&&◌, Option, none, some, List, [], ◌∷◌, ◌==◌,
  text_eq, ltb, take, if◌then◌else◌,
}
use opspilot_agent_platform.Prelude.Exec.{
  Result, Exec, ok, err, pure, raise, lift, or_raise, raise_if, ◌>>=◌, ◌>>◌,
}
use opspilot_agent_platform.Evidence.{
  Evidence, EvidenceVerdict, verify_evidence_review, no_evidence_answer, decimal,
}
use opspilot_agent_platform.Agent.State.{
  Mode, mock, live, completed, waiting_reason, GraphError, value_error, key_error, tool_disabled,
  order_service_error, Order, Decision, reason_required, Eligibility, ToolResult, nothing, order,
  eligibility, passages, tool, TraceStep, Telemetry, State, Services, Rules,
}
use opspilot_agent_platform.Agent.Policy.{tool_is_enabled}
use opspilot_agent_platform.Agent.Model.{with_telemetry}

abbrev with_trace : String → ToolResult → State → State
with_trace name result s = record s {
  tool_trace =
      s.tool_trace +++ (record { step = s.tool_steps; tool_name = name; result = result } ∷ []);
}

with_tool_message : ToolResult → State → State
with_tool_message result s = record s {
  tool_result = result;
  messages = s.messages +++ (tool s.tool_call_id result ∷ []);
}

status_label : String → Option String
status_label status =
    if status == "delivered"
    then some "已送达"
    else if status == "shipped"
    then some "已发货"
    else if status == "processing"
    then some "处理中"
    else if status == "cancelled"
    then some "已取消"
    else none

two_digits : ℕ → String
two_digits n = if ltb n 10 then "0" ++ decimal n else decimal n

order_answer : Order → String → String
unfolding two_digits
order_answer o label =
    "订单 "
    ++ (o.id
        ++ ("：商品 "
            ++ (o.product
                ++ ("，当前状态 "
                    ++ (label
                        ++ ("；订单金额 ¥"
                            ++ (decimal (o.amount_cents / 100)
                                ++ ("." ++ (two_digits (o.amount_cents % 100) ++ "。")))))))))

labelled_answer : Order → Option String → Result GraphError String
unfolding order_answer
labelled_answer o none = err key_error
labelled_answer o (some label) = ok (order_answer o label)

direct_answer : String → ToolResult → Result GraphError String
unfolding labelled_answer status_label
direct_answer direct_id nothing = ok ("未找到你可访问的订单 " ++ (direct_id ++ "，请核对完整订单号或当前登录账号。"))
direct_answer direct_id (order o) =
    if o.id == direct_id then labelled_answer o (status_label o.status) else err order_service_error
direct_answer direct_id _ = err order_service_error

-- The order that the program itself asked for, without the model.
direct_id : Mode → Option String → String → Option String
direct_id live (some id) name = if name == "query_order" then some id else none
direct_id _ _ name = none

-- Passages that pass the gate, or that a reviewer has verified.
gated : Rules → State → List Evidence → String → ℕ → List Evidence
gated rules s result query limit = take limit (rules.admitted query result)

with_review : EvidenceVerdict → Option Telemetry → State → State
with_review v none s = record s { evidence_review = some v }
with_review v (some t) s =
    with_telemetry (some t)
      (record s { evidence_review = some v; model_requests = s.model_requests + 1 })

reviewed_result :
    State
    → List Evidence
    → ℕ
    → EvidenceVerdict × Option Telemetry
    → Result GraphError (List Evidence × State)
unfolding with_review
reviewed_result s candidates limit (verdict, telemetry) =
    elim (verify_evidence_review verdict candidates (some limit)) [
      | err _ ↦ err value_error
      | ok (v, items) ↦ ok (items, with_review v telemetry s)
    ]

-- A search's passages are added to the evidence; none at all end the run with a refusal.
filed_search : List Evidence × State → State
filed_search ([], s) = record s {
  tool_result = passages [];
  answer = no_evidence_answer;
  status = completed;
}
filed_search (i ∷ is, s) = record (with_tool_message (passages (i ∷ is)) s) {
  rag_evidence = s.rag_evidence +++ (i ∷ is);
}

-- The eligibility that Java computed; a reason that is required is asked for.
filed_eligibility : Eligibility → State → State
filed_eligibility e s =
    let s' = record (with_tool_message (eligibility e) s) {
      order_id = some e.order_id;
      return_decision = some e.decision;
    } in
    if s.apply_requested && is_reason_required e.decision && is_none s.return_reason
    then record s' {
      status = waiting_reason;
      answer = "订单 " ++ (e.order_id ++ " 需要补充退货原因并核实商品政策，当前尚未批准退货。");
    }
    else s'
  where
    is_reason_required : Decision → Bool
    is_reason_required reason_required = true
    is_reason_required _ = false

    is_none : Option String → Bool
    is_none none = true
    is_none (some _) = false

filed_other : String → ToolResult → State → Result GraphError State
unfolding filed_eligibility
filed_other name (eligibility e) s = ok (
    if name == "check_return_eligibility"
    then filed_eligibility e s
    else with_tool_message (eligibility e) s)
filed_other name nothing s = ok (with_tool_message nothing s)
filed_other name result s =
    if name == "check_return_eligibility" then err key_error else ok (with_tool_message result s)

module _ {World : Type 0} (rules : Rules) (services : Services World) where
  reviewed_search :
      State
      → List Evidence
      → String
      → ℕ
      → List Evidence
      → Exec GraphError World (List Evidence × State)
  unfolding gated reviewed_result
  reviewed_search s result query limit [] = pure (gated rules s result query limit, s)
  reviewed_search s result query limit (c ∷ cs) =
      if rules.reviews s.mode
      then (services.review query (c ∷ cs) >>= λ reply.
          lift (reviewed_result s (c ∷ cs) limit reply))
      else pure (gated rules s result query limit, s)

  search_passages : State → List Evidence → Exec GraphError World State
  unfolding reviewed_search filed_search
  search_passages s result = do
    (query, limit) ← or_raise (rules.parse_search s.arguments_json) value_error
    found ←
        reviewed_search s result query limit
          (rules.admitted query result +++ rules.uncertain query result)
    pure (filed_search found)

  file_search : State → ToolResult → Exec GraphError World State
  unfolding search_passages
  file_search s (passages result) = search_passages s result
  file_search s _ = raise value_error

  file_result : String → ToolResult → Option String → State → Exec GraphError World State
  unfolding direct_answer file_search filed_other with_tool_message
  file_result name result (some id) s = do
    answer ← lift (direct_answer id result)
    pure (record (with_tool_message result s) {
      order_id = some id;
      status = completed;
      answer = answer;
    })
  file_result name result none s =
      if name == "search_knowledge_base"
      then file_search s result
      else lift (filed_other name result s)

  unfoldable pub read_tool_node : State → Exec GraphError World State
  unfolding file_result direct_id
  read_tool_node s = do
    name ← or_raise s.tool_name key_error
    raise_if (not (tool_is_enabled rules.auth_required name)) tool_disabled
    result ← services.run_tool name s.arguments_json
    file_result name result (direct_id s.mode (rules.simple_order_query s.task_question) name)
        (with_trace name result s)
