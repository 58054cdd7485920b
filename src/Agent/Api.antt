-- ===== src/Agent/Api.antt =====
-- The functions of agent_graph.py that the API calls: each looks up the user's own thread, and starts,
-- resumes or reads it. The checkpointer is a map from its key to a snapshot.
pub mod Writes
pub mod Owners
pub mod Approved
use Prim.Native.String.{◌++◌}
use mathlib.Core.List.{◌++◌ as ◌+++◌}
use opspilot_agent_platform.Prelude.{
  ℕ, zero, String, Bool, true, false, not, ◌&&◌, ◌||◌, ◌⊎◌, inl, inr, Option, none, some, List, [],
  ◌∷◌, ◌==◌, text_eq, if◌then◌else◌,
}
use opspilot_agent_platform.Prelude.Dict.{Dict, lookup, insert, is_some}
use opspilot_agent_platform.Prelude.Exec.{
  Result, Exec, ok, err, pure, raise, lift, gets, or_raise, modify, raise_if, ◌>>=◌, ◌>>◌,
}
use opspilot_agent_platform.Agent.State.{
  Mode, running, waiting_confirmation, waiting_reason, stale_confirmation, completed, expired,
  Status, GraphError, value_error, not_found, state_error, tool_disabled, key_error,
  order_service_error, Decision, no_reason_allowed, Eligibility, ToolResult, nothing, eligibility,
  Message, system, user, ReasonCode, personal_preference, quality_issue, other_reason, Draft,
  DraftStatus, draft_expired, State, Services, Rules,
}
use opspilot_agent_platform.Agent.Policy.{state_tools_enabled, wants_return_application}
use opspilot_agent_platform.Agent.Writes.{Resume, approval, reason}
use opspilot_agent_platform.Agent.Graph.{
  Node, call_model, prepare_return_draft, ask_return_reason, finish_reason_collection,
  await_return_confirmation, execute_return, await_approval, end, Snapshot, Outcome, route, run,
  step_limit,
}

-- The checkpointer, and the world of the services.
pub record Threads (World : Type 0) : Type 0 where
  pub saved : Dict String Snapshot
  pub world : World

abbrev local_demo_user : String
local_demo_user = "local-demo-user"

-- `_thread_config`
unfoldable pub checkpoint_id : String → String → String
checkpoint_id user_id thread_id =
    if user_id == local_demo_user then thread_id else user_id ++ (":" ++ thread_id)

-- `AgentGraphStartRequest`, with the messages that go before its own.
pub record StartRequest : Type 0 where
  pub thread_id : String
  pub message : String
  pub mode : Mode
  pub return_reason : Option String
  pub reason_code : ReasonCode

unfoldable pub initial_state : String → List Message → StartRequest → State
initial_state user_id messages request = record {
  thread_id = request.thread_id;
  owner_user_id = user_id;
  mode = request.mode;
  messages = messages +++ (user request.message ∷ []);
  status = running;
  tool_name = none;
  arguments_json = "";
  tool_call_id = "";
  tool_result = nothing;
  action_id = none;
  approved = none;
  answer = "";
  tool_steps = 0;
  tool_trace = [];
  task_question = request.message;
  apply_requested = wants_return_application request.message;
  completion_retries = 0;
  retry_model = false;
  rag_evidence = [];
  evidence_review = none;
  model_requests = 0;
  simulated_model_requests = 0;
  model_http_attempts = 0;
  model_retry_count = 0;
  order_id = none;
  return_reason = request.return_reason;
  return_decision = none;
  reason_code = request.reason_code;
  return_review = none;
  return_draft = none;
  return_application = none;
}

abbrev result_of : Outcome → Result GraphError State
result_of o = elim o.raised [ none ↦ ok o.snapshot.values | some e ↦ err e ]

is_owned : String → String → Snapshot → Bool
is_owned user_id thread_id found =
    found.values.owner_user_id == user_id && found.values.thread_id == thread_id

is_approved : Option Bool → Bool
is_approved (some true) = true
is_approved _ = false

waits_for_approval : Node → Bool
waits_for_approval await_approval = true
waits_for_approval await_return_confirmation = true
waits_for_approval _ = false

is_execute_return : Node → Bool
is_execute_return execute_return = true
is_execute_return _ = false

is_completed : Status → Bool
is_completed completed = true
is_completed _ = false

unfoldable pub is_stale : Status → Bool
is_stale stale_confirmation = true
is_stale _ = false

reason_code_beq : ReasonCode → ReasonCode → Bool
reason_code_beq personal_preference personal_preference = true
reason_code_beq quality_issue quality_issue = true
reason_code_beq other_reason other_reason = true
reason_code_beq _ _ = false

is_text : Option String → String → Bool
is_text none text = false
is_text (some t) text = t == text

module _ {World : Type 0} (rules : Rules) (services : Services World) where
  abbrev pub Api : Type 0 → Type 0
  Api = Exec GraphError (Threads World)

  -- `_to_response`
  unfoldable pub to_response : State → Api State
  to_response s = do
    raise_if (not (state_tools_enabled rules.auth_required s)) tool_disabled
    pure s

  -- `graph.invoke`: a run from a node, kept under the thread's key even if it raises.
  unfoldable pub invoke : String → Node → Option Resume → State → Api State
  invoke key n r s t =
      let (o, w) = run rules services step_limit n r s t.world in
      (result_of o, record { saved = insert key o.snapshot t.saved; world = w })

  check_owned : String → String → Snapshot → Api Snapshot
  unfolding is_owned
  check_owned user_id thread_id found = do
    raise_if (not (is_owned user_id thread_id found)) not_found
    raise_if (not (state_tools_enabled rules.auth_required found.values)) tool_disabled
    pure found

  -- `_owned_snapshot`
  unfoldable pub owned_snapshot : String → String → Api Snapshot
  unfolding check_owned
  owned_snapshot user_id thread_id = do
    found ← or_raise (← gets (λ t. lookup (checkpoint_id user_id thread_id) t.saved)) not_found
    check_owned user_id thread_id found

  unfoldable pub start_agent_graph : String → List Message → StartRequest → Api State
  unfolding to_response
  start_agent_graph user_id messages request = do
    let key = checkpoint_id user_id request.thread_id
    raise_if (is_some (← gets (λ t. lookup key t.saved))) state_error
    state ← invoke key call_model none (initial_state user_id messages request)
    to_response state

  resume_snapshot : String → Bool → Snapshot → Api State
  unfolding to_response is_approved waits_for_approval is_execute_return is_completed
  resume_snapshot key approved found =
      if approved && is_completed found.values.status && is_some found.values.return_application
      then to_response found.values
      else if approved && is_approved found.values.approved && is_execute_return found.next
      then (invoke key found.next none found.values >>= to_response)
      else if not (waits_for_approval found.next)
      then raise state_error
      else (invoke key found.next (some (approval approved)) found.values >>= to_response)

  unfoldable pub resume_agent_graph : String → String → Bool → Api State
  unfolding resume_snapshot
  resume_agent_graph user_id thread_id approved = do
    found ← owned_snapshot user_id thread_id
    resume_snapshot (checkpoint_id user_id thread_id) approved found

  submit_snapshot : String → String → ReasonCode → Snapshot → Node → Api State
  unfolding to_response is_text reason_code_beq
  submit_snapshot key text code found finish_reason_collection =
      if not (is_text found.values.return_reason text)
        || not (reason_code_beq found.values.reason_code code)
      then raise state_error
      else (invoke key finish_reason_collection none found.values >>= to_response)
  submit_snapshot key text code found ask_return_reason =
      invoke key ask_return_reason (some (reason text code)) found.values >>= to_response
  submit_snapshot key text code found _ = raise state_error

  unfoldable pub submit_return_reason : String → String → String → ReasonCode → Api State
  unfolding submit_snapshot
  submit_return_reason user_id thread_id text code = do
    found ← owned_snapshot user_id thread_id
    submit_snapshot (checkpoint_id user_id thread_id) text code found found.next
