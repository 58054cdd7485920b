-- ===== src/Runs/Checkpoint.antt =====
-- checkpoint_models.py, and how `AgentRunStore.start` builds a checkpoint from the chat's reply.
pub mod Fields
use opspilot_agent_platform.Prelude.{
  ℕ, String, Bool, false, not, ◌&&◌, Option, none, some, [], ◌∷◌, ◌==◌, text_eq, if◌then◌else◌,
}
use opspilot_agent_platform.Prelude.Text.{is_blank}
use opspilot_agent_platform.Prelude.Dict.{Dict, lookup}
use opspilot_agent_platform.Prelude.Exec.{Result, ok, err}
use opspilot_agent_platform.Actions.{ActionError}

pub data RunStatus : Type 0 where
  waiting_confirmation completed run_cancelled : RunStatus

-- A value inside a tool's result; `other` is a number, a null or a nested value.
pub data Value : Type 0 where
  text : String → Value
  other : Value

-- What a tool returned: null, a dict, or a list.
pub data ToolResult : Type 0 where
  nothing : ToolResult
  fields : Dict String Value → ToolResult
  rows : ToolResult

pub record Run : Type 0 where
  pub run_id : String
  pub thread_id : String
  pub idempotency_key : String
  pub status : RunStatus
  pub user_message : String
  pub pending_action_id : Option String
  pub tool_name : String
  pub tool_result : Option (Dict String String)
  pub answer : String
  pub version : ℕ
  pub model_requests : ℕ
  pub simulated_model_requests : ℕ

-- The dict that `chat_runner` returns; `none` where a field is missing, or is no text.
pub record ChatReply : Type 0 where
  pub tool_name : Option String
  pub tool_result : ToolResult
  pub answer : Option String
  pub model_requests : Option ℕ
  pub simulated_model_requests : Option ℕ

-- `RunNotFoundError`, `IdempotencyConflictError`, the four uses of `RunStateError`, the `ValueError`
-- for a reply that breaks the contract, the `RuntimeError` for a reused identifier, pydantic's
-- `ValidationError`, a `KeyError`, what the action store raises, and what the chat runner raises.
pub data RunError : Type 0 where
  run_not_found idempotency_conflict : RunError
  no_pending_action already_cancelled already_completed inconsistent : RunError
  contract_error run_id_conflict validation_error key_error chat_failed : RunError
  from_action : ActionError → RunError

abbrev number_or : Option ℕ → ℕ → ℕ
number_or none d = d
number_or (some n) d = n

-- pydantic's check of `dict[str, str] | None`
unfoldable pub text_fields : Dict String Value → Option (Dict String String)
text_fields [] = some []
text_fields ((k, text v) ∷ d) = elim (text_fields d) [ none ↦ none | some r ↦ some ((k, v) ∷ r) ]
text_fields ((k, other) ∷ d) = none

unfoldable pub text_result : ToolResult → Option (Option (Dict String String))
unfolding text_fields
text_result nothing = some none
text_result rows = none
text_result (fields d) = elim (text_fields d) [ none ↦ none | some r ↦ some (some r) ]

is_pending_text : Option Value → Bool
is_pending_text (some (text s)) = s == "pending"
is_pending_text _ = false

action_with_id : Dict String Value → Option Value → Result RunError (Option String × RunStatus)
unfolding is_pending_text
action_with_id d (some (text action_id)) =
    if is_pending_text (lookup "status" d)
    then ok (some action_id, waiting_confirmation)
    else err contract_error
action_with_id d _ = err contract_error

requested_action : ToolResult → Result RunError (Option String × RunStatus)
unfolding action_with_id
requested_action (fields d) = action_with_id d (lookup "action_id" d)
requested_action _ = err contract_error

-- The action that the reply waits for, and the status that the run starts with.
unfoldable pub pending_of : String → ToolResult → Result RunError (Option String × RunStatus)
unfolding requested_action
pending_of tool_name result =
    if tool_name == "request_priority_change" then requested_action result else ok (none, completed)

-- `isinstance(tool_name, str)`, `isinstance(answer, str)` and `answer.strip()`
unfoldable pub checked_texts : Option String → Option String → Result RunError (String × String)
checked_texts (some tool_name) (some answer) =
    if is_blank answer then err contract_error else ok (tool_name, answer)
checked_texts _ _ = err contract_error

unfoldable pub is_valid_run : Run → Bool
is_valid_run r =
    not (r.run_id == "")
    && not (r.thread_id == "")
    && not (r.idempotency_key == "")
    && not (r.user_message == "")
    && not (r.answer == "")

-- The checkpoint of a new run, from the reply to its message.
unfoldable pub new_run : String → String → String → String → ChatReply → Result RunError Run
new_run fresh thread_id idempotency_key message reply =
    elim (checked_texts reply.tool_name reply.answer) [
      | err e ↦ err e
      | ok (tool_name, answer) ↦ elim (pending_of tool_name reply.tool_result) [
        | err e ↦ err e
        | ok (pending_action_id, status) ↦ elim (text_result reply.tool_result) [
          | none ↦ err validation_error
          | some tool_result ↦
              let r : Run = record {
                run_id = fresh;
                thread_id = thread_id;
                idempotency_key = idempotency_key;
                status = status;
                user_message = message;
                pending_action_id = pending_action_id;
                tool_name = tool_name;
                tool_result = tool_result;
                answer = answer;
                version = 1;
                model_requests = number_or reply.model_requests 0;
                simulated_model_requests = number_or reply.simulated_model_requests 0;
              } in
              if is_valid_run r then ok r else err validation_error
        ]
      ]
    ]
