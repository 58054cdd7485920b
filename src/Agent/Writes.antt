-- ===== src/Agent/Writes.antt =====
-- The nodes around the writes: a ticket's priority, and a return's draft, reason and application.
use Prim.Native.String.{◌++◌}
use mathlib.Core.List.{◌++◌ as ◌+++◌}
use opspilot_agent_platform.Prelude.{String, Bool, not, Option, none, some, [], ◌∷◌, ◌==◌, text_eq}
use opspilot_agent_platform.Prelude.Exec.{
  Result, Exec, ok, err, pure, lift, or_raise, raise_if, ◌>>=◌, ◌>>◌,
}
use opspilot_agent_platform.Agent.State.{
  Status, running, waiting_confirmation, waiting_reason, stale_confirmation, completed, cancelled,
  expired, GraphError, value_error, configuration_error, state_error, tool_disabled, key_error,
  Decision, no_reason_allowed, action, user, ReasonCode, DraftStatus, draft_waiting, draft_expired,
  draft_reviewed, draft_submitted, Draft, ReviewDecision, acceptable, rejected, manual_review,
  State, SubmitReply, reviewed, submit_expired, ConfirmReply, applied, order_changed,
  confirm_expired, Services, Rules,
}
use opspilot_agent_platform.Agent.Policy.{tool_is_enabled}

-- What a user sends to a graph that waits.
pub data Resume : Type 0 where
  approval : Bool → Resume
  reason : String → ReasonCode → Resume

-- Java's draft is handled already, or has expired, or waits.
draft_state : DraftStatus → Option Decision → Result GraphError Status
draft_state draft_expired (some _) = ok expired
draft_state draft_expired none = err key_error
draft_state draft_waiting (some no_reason_allowed) = ok waiting_confirmation
draft_state draft_waiting (some _) = ok waiting_reason
draft_state draft_waiting none = err key_error
draft_state _ decision = err state_error

draft_answer : Status → String
draft_answer expired = "退货草稿已过期，不能继续补充。"
draft_answer waiting_confirmation = "退货申请内容已准备，请确认是否创建申请。"
draft_answer _ = "请在草稿创建后1小时内补充原因；超时草稿失效。"

review_answer : ReviewDecision → String
review_answer acceptable = "预审可受理，可进入申请确认；尚未创建退货申请。"
review_answer rejected = "预审不可受理；尚未创建退货申请。"
review_answer manual_review = "原因已记录，需要人工核实材料；尚未创建退货申请，也未创建人工审核工单。"

review_status : ReviewDecision → Status
review_status acceptable = waiting_confirmation
review_status _ = completed

-- `finish_reason_collection`, once Java has replied
submitted : String → Draft → State → SubmitReply → State
unfolding review_answer review_status
submitted order_id draft s submit_expired = record s {
  status = expired;
  return_draft = some (record draft { status = draft_expired });
  answer = "退货草稿已超过1小时有效期，补充原因未被受理。";
}
submitted order_id draft s (reviewed decision) = record s {
  status = review_status decision;
  return_review = some decision;
  return_draft = some (record draft { status = draft_reviewed });
  answer = "订单 " ++ (order_id ++ ("：" ++ review_answer decision));
}

-- `execute_return`, once Java has replied
confirmed : Draft → State → ConfirmReply → State
confirmed draft s order_changed = record s {
  status = stale_confirmation;
  answer = "订单商品、金额或签收状态已发生变化，本次未创建退货申请。请核对最新订单信息，重新确认后再申请。";
}
confirmed draft s confirm_expired = record s {
  status = expired;
  return_draft = some (record draft { status = draft_expired });
  answer = "确认时草稿已超过1小时，未创建退货申请。";
}
confirmed draft s (applied application) = record s {
  status = completed;
  return_application = some application;
  return_draft = some (record draft { status = draft_submitted });
  answer = "退货申请 " ++ (application.application_id ++ " 已创建，状态为 SUBMITTED。");
}

-- The two nodes that wait take what the user sent; anything else is refused.
unfoldable pub ask_return_reason_node : Resume → State → Result GraphError State
ask_return_reason_node (approval _) s = err value_error
ask_return_reason_node (reason text code) s = ok (record s {
  return_reason = some text;
  reason_code = code;
  messages = s.messages +++ (user text ∷ []);
  status = running;
})

unfoldable pub approve : Resume → State → Result GraphError State
approve (approval approved) s = ok (record s { approved = some approved })
approve (reason _ _) s = err value_error

module _ {World : Type 0} (rules : Rules) (services : Services World) where
  require_tickets : Exec GraphError World (Unit {0})
  require_tickets =
      raise_if (not (tool_is_enabled rules.auth_required "request_priority_change")) tool_disabled

  unfoldable pub prepare_return_draft_node : State → Exec GraphError World State
  unfolding draft_state draft_answer
  prepare_return_draft_node s = do
    raise_if (not rules.has_drafts) configuration_error
    order_id ← or_raise s.order_id key_error
    draft ← services.start_draft order_id
    raise_if (not (draft.order_id == order_id)) value_error
    status ← lift (draft_state draft.status s.return_decision)
    pure (record s { return_draft = some draft; status = status; answer = draft_answer status })

  unfoldable pub finish_reason_collection_node : State → Exec GraphError World State
  unfolding submitted
  finish_reason_collection_node s = do
    order_id ← or_raise s.order_id key_error
    draft ← or_raise s.return_draft key_error
    text ← or_raise s.return_reason value_error
    reply ← services.submit_reason order_id draft.draft_id text s.reason_code
    pure (submitted order_id draft s reply)

  unfoldable pub execute_return_node : State → Exec GraphError World State
  unfolding confirmed
  execute_return_node s = do
    order_id ← or_raise s.order_id key_error
    draft ← or_raise s.return_draft key_error
    reply ← services.confirm_draft order_id draft.draft_id
    pure (confirmed draft s reply)

  unfoldable pub cancel_return_node : State → Exec GraphError World State
  cancel_return_node s = do
    order_id ← or_raise s.order_id key_error
    draft ← or_raise s.return_draft key_error
    left ← services.cancel_draft order_id draft.draft_id
    pure (record s { status = cancelled; return_draft = some left; answer = "已取消本次退货草稿，未创建退货申请。" })

  unfoldable pub propose_change_node : State → Exec GraphError World State
  unfolding require_tickets
  propose_change_node s = do
    require_tickets
    (ticket_id, new_priority) ← or_raise (rules.parse_change s.arguments_json) value_error
    name ← or_raise s.tool_name key_error
    proposed ← services.propose ticket_id new_priority
    pure (record s {
      action_id = some proposed.action_id;
      tool_result = action proposed;
      tool_trace =
          s.tool_trace
          +++ (record { step = s.tool_steps; tool_name = name; result = action proposed } ∷ []);
      status = waiting_confirmation;
      answer = "操作 " ++ (proposed.action_id ++ " 等待确认，尚未修改工单。");
    })

  unfoldable pub execute_change_node : State → Exec GraphError World State
  unfolding require_tickets
  execute_change_node s = do
    require_tickets
    action_id ← or_raise s.action_id key_error
    done ← services.confirm action_id
    pure (record s {
      tool_result = action done;
      status = completed;
      answer = "已执行操作 " ++ (done.action_id ++ ("；工单优先级已改为 " ++ (done.new_priority ++ "。")));
    })

  unfoldable pub cancel_change_node : State → Exec GraphError World State
  unfolding require_tickets
  cancel_change_node s = do
    require_tickets
    action_id ← or_raise s.action_id key_error
    left ← services.cancel action_id
    pure (record s {
      tool_result = action left;
      status = cancelled;
      answer = "已取消操作 " ++ (left.action_id ++ "；工单优先级未修改。");
    })
