-- ===== src/Agent/State.antt =====
-- The graph's state, and the services that its nodes call. How the libraries store a state is not
-- modelled: a node returns the state with its updates.
use opspilot_agent_platform.Prelude.{ℕ, String, Bool, Option, List}
use opspilot_agent_platform.Prelude.Exec.{Exec}
use opspilot_agent_platform.Actions.{PendingAction}
use opspilot_agent_platform.Evidence.{Evidence, EvidenceVerdict}

pub data Mode : Type 0 where
  mock live : Mode

pub data Status : Type 0 where
  running waiting_confirmation waiting_reason stale_confirmation : Status
  completed cancelled expired : Status

-- The exceptions, by what the API does with them; `service_failed` is one that a service raised.
pub data GraphError : Type 0 where
  value_error configuration_error not_found state_error tool_disabled : GraphError
  order_service_error key_error recursion_limit service_failed : GraphError

-- `OrderResponse`; its other fields only reach the answer's text.
pub record Order : Type 0 where
  pub id : String
  pub product : String
  pub status : String
  pub amount_cents : ℕ

pub data Decision : Type 0 where
  no_reason_allowed reason_required not_allowed : Decision

pub record Eligibility : Type 0 where
  pub order_id : String
  pub decision : Decision
  pub can_apply : Bool

-- What a tool returns: null, a dict that is an order, an eligibility or a pending action, another
-- dict, or the list of passages of a search.
pub data ToolResult : Type 0 where
  nothing other : ToolResult
  order : Order → ToolResult
  eligibility : Eligibility → ToolResult
  action : PendingAction → ToolResult
  passages : List Evidence → ToolResult

pub record ToolCall : Type 0 where
  pub type : String
  pub id : Option String
  pub name : Option String
  pub arguments : Option String

-- A message of the conversation; a tool's result stands for its JSON.
pub data Message : Type 0 where
  system user : String → Message
  assistant : Option String → List ToolCall → Message
  tool : String → ToolResult → Message

-- `ModelRequestTelemetry`, less the durations.
pub record Telemetry : Type 0 where
  pub http_attempts : ℕ
  pub retry_count : ℕ

-- A model's message, and the telemetry if the gateway gives any.
pub record ModelReply : Type 0 where
  pub role : String
  pub content : Option String
  pub tool_calls : List ToolCall
  pub telemetry : Option Telemetry

pub record TraceStep : Type 0 where
  pub step : ℕ
  pub tool_name : String
  pub result : ToolResult

pub data ReasonCode : Type 0 where
  personal_preference quality_issue other_reason : ReasonCode

pub data DraftStatus : Type 0 where
  draft_waiting draft_expired draft_reviewed draft_submitted draft_cancelled : DraftStatus

pub record Draft : Type 0 where
  pub draft_id : String
  pub order_id : String
  pub status : DraftStatus

pub data ReviewDecision : Type 0 where
  acceptable rejected manual_review : ReviewDecision

pub record Application : Type 0 where
  pub application_id : String
  pub order_id : String

-- `AgentGraphState`; a field that may be unset is an `Option`. Durations are left out.
pub record State : Type 0 where
  pub thread_id : String
  pub owner_user_id : String
  pub mode : Mode
  pub messages : List Message
  pub status : Status
  pub tool_name : Option String
  pub arguments_json : String
  pub tool_call_id : String
  pub tool_result : ToolResult
  pub action_id : Option String
  pub approved : Option Bool
  pub answer : String
  pub tool_steps : ℕ
  pub tool_trace : List TraceStep
  pub task_question : String
  pub apply_requested : Bool
  pub completion_retries : ℕ
  pub retry_model : Bool
  pub rag_evidence : List Evidence
  pub evidence_review : Option EvidenceVerdict
  pub model_requests : ℕ
  pub simulated_model_requests : ℕ
  pub model_http_attempts : ℕ
  pub model_retry_count : ℕ
  pub order_id : Option String
  pub return_reason : Option String
  pub return_decision : Option Decision
  pub reason_code : ReasonCode
  pub return_review : Option ReviewDecision
  pub return_draft : Option Draft
  pub return_application : Option Application

-- What a draft service can do with a reason, or with a confirmation, apart from failing.
pub data SubmitReply : Type 0 where
  reviewed : ReviewDecision → SubmitReply
  submit_expired : SubmitReply

pub data ConfirmReply : Type 0 where
  applied : Application → ConfirmReply
  order_changed : ConfirmReply
  confirm_expired : ConfirmReply

-- The services, over a world that they read and write. Each may fail; a reply has passed pydantic.
pub record Services (World : Type 0) : Type 0 where
  pub request : Mode → List Message → Bool → Exec GraphError World ModelReply
  pub run_tool : String → String → Exec GraphError World ToolResult
  pub review : String → List Evidence → Exec GraphError World (EvidenceVerdict × Option Telemetry)
  pub propose : String → String → Exec GraphError World PendingAction
  pub confirm : String → Exec GraphError World PendingAction
  pub cancel : String → Exec GraphError World PendingAction
  pub start_draft : String → Exec GraphError World Draft
  pub submit_reason : String → String → String → ReasonCode → Exec GraphError World SubmitReply
  pub confirm_draft : String → String → Exec GraphError World ConfirmReply
  pub cancel_draft : String → String → Exec GraphError World Draft
  pub refresh_draft : String → String → Exec GraphError World Draft
  pub execute_eligibility : String → Exec GraphError World ToolResult
  pub get_draft : String → String → Exec GraphError World Draft

-- How the deployment is configured, and the modules that only look at texts: the rules on
-- questions, the gate on passages, and pydantic's parsers of arguments. `required_tools` is the
-- sorted set; `grounded_answer` is `none` where the source raises a `ValueError`.
pub record Rules : Type 0 where
  pub auth_required : Bool
  pub has_drafts : Bool
  pub reviews : Mode → Bool
  pub service_guidance : String → Option String
  pub simple_order_query : String → Option String
  pub required_tools : String → List String
  pub grounded_answer : String → List TraceStep → List Evidence → Option String
  pub admitted : String → List Evidence → List Evidence
  pub uncertain : String → List Evidence → List Evidence
  pub parse_search : String → Option (String × ℕ)
  pub parse_change : String → Option (String × String)
