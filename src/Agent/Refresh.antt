-- ===== src/Agent/Refresh.antt =====
-- A confirmation that has gone stale is refreshed from the current order, and a saved thread is read.
pub mod Views
pub mod Writes
pub mod Tests
use Prim.Native.String.{◌++◌}
use opspilot_agent_platform.Prelude.{
  String, Bool, true, false, not, ◌&&◌, ◌||◌, Option, none, some, ◌==◌, text_eq, if◌then◌else◌,
}
use opspilot_agent_platform.Prelude.Dict.{insert}
use opspilot_agent_platform.Prelude.Exec.{Exec, ok, err, raise, or_raise, raise_if, ◌>>=◌, ◌>>◌}
use opspilot_agent_platform.Agent.State.{
  waiting_confirmation, waiting_reason, completed, expired, Status, GraphError, state_error,
  key_error, order_service_error, Decision, no_reason_allowed, Eligibility, ToolResult, eligibility,
  other_reason, Draft, DraftStatus, draft_expired, State, Services, Rules,
}
use opspilot_agent_platform.Agent.Graph.{
  Node, prepare_return_draft, execute_return, Snapshot, route,
}
use opspilot_agent_platform.Agent.Api.{
  Threads, Api, checkpoint_id, owned_snapshot, invoke, to_response, is_stale,
}

module _ {World : Type 0} (rules : Rules) (services : Services World) where
  -- A service of the world, called by the API itself.
  abbrev call : {A : Type 0} → Exec GraphError World A → Exec GraphError (Threads World) A
  call m t = let (r, w) = m t.world in (r, record t { world = w })

  -- `graph.update_state(…, as_node=…)`
  update_state : String → Node → State → Exec GraphError (Threads World) Node
  update_state key as_node s t = elim (route as_node s) [
    | err e ↦ (err e, t)
    | ok next ↦
        (ok next, record t { saved = insert key (record { values = s; next = next }) t.saved })
  ]

as_eligibility : ToolResult → Option Eligibility
as_eligibility (eligibility e) = some e
as_eligibility _ = none

waiting_status : Decision → Status
waiting_status no_reason_allowed = waiting_confirmation
waiting_status _ = waiting_reason

refreshed_answer : Decision → String
refreshed_answer no_reason_allowed = "订单信息已刷新，请核对最新内容后重新确认。"
refreshed_answer _ = "订单信息已刷新，最新资格要求重新填写退货原因。"

ineligible : String → Eligibility → State → State
ineligible order_id e s = record s {
  status = completed;
  tool_result = eligibility e;
  return_decision = some e.decision;
  return_application = none;
  answer = "订单 " ++ (order_id ++ " 当前已不符合退货条件，未创建退货申请。");
}

refreshed : Eligibility → Draft → State → State
unfolding waiting_status refreshed_answer
refreshed e draft s = record s {
  status = waiting_status e.decision;
  tool_result = eligibility e;
  return_decision = some e.decision;
  return_draft = some draft;
  return_reason = none;
  reason_code = other_reason;
  return_review = none;
  return_application = none;
  approved = some false;
  answer = refreshed_answer e.decision;
}

is_expired : DraftStatus → Bool
is_expired draft_expired = true
is_expired _ = false

waits : Status → Bool
waits waiting_confirmation = true
waits waiting_reason = true
waits _ = false

expired_view : Draft → State → State
unfolding is_expired
expired_view draft s =
    if is_expired draft.status
    then record s { status = expired; return_draft = some draft; answer = "退货草稿已过期，不能继续创建退货申请。" }
    else s

module _ {World : Type 0} (rules : Rules) (services : Services World) where
  refresh_ineligible : String → String → Eligibility → State → Api rules services State
  unfolding to_response ineligible update_state
  refresh_ineligible key order_id e s = do
    update_state rules services key execute_return (ineligible order_id e s)
    to_response rules services (ineligible order_id e s)

  -- The graph goes on as after the node that prepares a draft.
  ask_again : String → State → Api rules services State
  unfolding to_response update_state
  ask_again key s = do
    next ← update_state rules services key prepare_return_draft s
    invoke rules services key next none s >>= to_response rules services

  refresh_draft : String → String → Eligibility → State → Api rules services State
  unfolding ask_again refreshed
  refresh_draft key order_id e s = do
    old ← or_raise s.return_draft key_error
    draft ← call rules services (services.refresh_draft order_id old.draft_id)
    raise_if (not (draft.order_id == order_id) || draft.draft_id == old.draft_id)
        order_service_error
    ask_again key (refreshed e draft s)

  refresh_snapshot : String → Snapshot → Api rules services State
  unfolding is_stale as_eligibility refresh_ineligible refresh_draft
  refresh_snapshot key found = do
    raise_if (not (is_stale found.values.status)) state_error
    order_id ← or_raise found.values.order_id key_error
    result ← call rules services (services.execute_eligibility order_id)
    e ← or_raise (as_eligibility result) order_service_error
    if e.can_apply
        then refresh_draft key order_id e found.values
        else refresh_ineligible key order_id e found.values

  unfoldable pub refresh_return_confirmation : String → String → Api rules services State
  unfolding refresh_snapshot
  refresh_return_confirmation user_id thread_id = do
    found ← owned_snapshot rules services user_id thread_id
    refresh_snapshot (checkpoint_id user_id thread_id) found

  -- The draft that Java has now decides what is shown; nothing is saved.
  unfoldable pub view_draft : State → Option String → Option Draft → Api rules services State
  unfolding to_response expired_view
  view_draft s (some order_id) (some draft) = do
    now ← call rules services (services.get_draft order_id draft.draft_id)
    to_response rules services (expired_view now s)
  view_draft s none (some draft) = raise key_error
  view_draft s order_id none = to_response rules services s

  unfoldable pub get_agent_graph_state : String → String → Api rules services State
  unfolding view_draft to_response waits
  get_agent_graph_state user_id thread_id = do
    found ← owned_snapshot rules services user_id thread_id
    let s = found.values
    if waits s.status && rules.has_drafts
        then view_draft s s.order_id s.return_draft
        else to_response rules services s
