-- ===== src/Evaluation.antt =====
-- agent_evaluation.py: the success of an evaluated run, the reasons of its failure, and the summary
-- of a batch. Durations and counters of the model only pass through and are left out.
pub mod Reasons
pub mod Totals
pub mod Regression
mod Tests
use opspilot_agent_platform.Prelude.{
  ℕ, ◌+◌, ◌-◌, String, Bool, true, false, not, ◌&&◌, ◌||◌, Option, none, some, List, [], ◌∷◌, ◌++◌,
  map, ◌==◌, text_eq, nat_eq, length, ltb, if◌then◌else◌,
}
use opspilot_agent_platform.Prelude.Dict.{Dict, lookup, insert, is_some}
use opspilot_agent_platform.Prelude.Text.{occurs_in}
use opspilot_agent_platform.Prelude.Tables.{count_where}
use opspilot_agent_platform.Prelude.Exec.{Result, ok, err}
use opspilot_agent_platform.Agent.State.{
  Status, running, waiting_confirmation, waiting_reason, stale_confirmation, completed, cancelled,
  expired, State, TraceStep,
}

-- `AgentEvaluationCase`
pub record Case : Type 0 where
  pub case_id : String
  pub expected_status : Status
  pub expected_tools : List String
  pub answer_must_contain : List String
  pub answer_must_not_contain : List String
  pub citation_required : Bool
  pub return_application_expected : Option Bool

-- `AgentGraphStatus`: its texts.
unfoldable pub status_text : Status → String
status_text running = "RUNNING"
status_text waiting_confirmation = "WAITING_CONFIRMATION"
status_text waiting_reason = "WAITING_REASON"
status_text stale_confirmation = "STALE_CONFIRMATION"
status_text completed = "COMPLETED"
status_text cancelled = "CANCELLED"
status_text expired = "EXPIRED"

-- `==` of lists of texts, and of truth values.
unfoldable pub texts_beq : List String → List String → Bool
texts_beq [] [] = true
texts_beq (x ∷ xs) (y ∷ ys) = x == y && texts_beq xs ys
texts_beq _ _ = false

unfoldable pub bool_beq : Bool → Bool → Bool
bool_beq true b = b
bool_beq false b = not b

-- `all(text in answer for text in texts)`, and the two tests on forbidden texts.
unfoldable pub all_in : String → List String → Bool
all_in answer [] = true
all_in answer (t ∷ ts) = occurs_in t answer && all_in answer ts

unfoldable pub none_in : String → List String → Bool
none_in answer [] = true
none_in answer (t ∷ ts) = not (occurs_in t answer) && none_in answer ts

unfoldable pub any_in : String → List String → Bool
any_in answer [] = false
any_in answer (t ∷ ts) = occurs_in t answer || any_in answer ts

unfoldable pub actual_tools : State → List String
actual_tools response = map (λ (t : TraceStep). t.tool_name) response.tool_trace

unfoldable pub application_created : State → Option Bool → Bool
application_created response none = is_some response.return_application
application_created response (some created) = created

unfoldable pub application_matches : Bool → Option Bool → Bool
unfolding bool_beq
application_matches created none = true
application_matches created (some expected) = bool_beq created expected

-- The last argument is `return_application_created`.
unfoldable pub is_task_successful : Case → State → Option Bool → Bool
unfolding status_text texts_beq all_in none_in actual_tools application_created application_matches
is_task_successful c response created =
    status_text response.status == status_text c.expected_status
    && all_in response.answer c.answer_must_contain
    && texts_beq (actual_tools response) c.expected_tools
    && none_in response.answer c.answer_must_not_contain
    && (not c.citation_required || occurs_in "来源：" response.answer)
    && application_matches (application_created response created) c.return_application_expected

unfoldable pub mismatches : Bool → Option Bool → Bool
unfolding bool_beq
mismatches created none = false
mismatches created (some expected) = not (bool_beq created expected)

-- `if test: failure_reasons.append(reason)`
abbrev pub append_if : Bool → String → List String → List String
append_if test reason reasons = if test then reasons ++ reason ∷ [] else reasons

unfoldable pub collect_failure_reasons : Case → State → Option Bool → List String
unfolding status_text texts_beq all_in any_in actual_tools application_created mismatches
collect_failure_reasons c response created =
    let none_yet : List String = [] in
    let status =
      append_if (not (status_text response.status == status_text c.expected_status))
        "status_mismatch" none_yet in
    let tools =
      append_if (not (texts_beq (actual_tools response) c.expected_tools)) "tool_sequence_mismatch"
        status in
    let required =
      append_if (not (all_in response.answer c.answer_must_contain)) "missing_required_text"
        tools in
    let forbidden =
      append_if (any_in response.answer c.answer_must_not_contain) "forbidden_answer_text"
        required in
    let cited =
      append_if (c.citation_required && not (occurs_in "来源：" response.answer)) "missing_citation"
        forbidden in
    append_if (mismatches (application_created response created) c.return_application_expected)
      "return_application_mismatch" cited

-- `AgentEvaluationResult`
pub record EvaluationResult : Type 0 where
  pub case_id : String
  pub success : Bool
  pub failure_reasons : List String
  pub actual_status : Option Status
  pub actual_tools_used : List String
  pub actual_answer : Option String
  pub error_type : Option String
  pub return_application_created : Bool

abbrev pub is_empty : List String → Bool
is_empty [] = true
is_empty (_ ∷ _) = false

unfoldable pub evaluate_response : Case → State → Option Bool → EvaluationResult
unfolding collect_failure_reasons actual_tools application_created
evaluate_response c response created = record {
  case_id = c.case_id;
  success = is_empty (collect_failure_reasons c response created);
  failure_reasons = collect_failure_reasons c response created;
  actual_status = some response.status;
  actual_tools_used = actual_tools response;
  actual_answer = some response.answer;
  error_type = none;
  return_application_created = application_created response created;
}

-- A rate of two counts, which is 0.0 where the second is 0.
pub data Rate : Type 0 where
  nothing_counted : Rate
  quotient : ℕ → ℕ → Rate

unfoldable pub rate : ℕ → ℕ → Rate
rate n total = if total == 0 then nothing_counted else quotient n total

-- `AgentEvaluationSummary`
pub record Summary : Type 0 where
  pub total_cases : ℕ
  pub successful_cases : ℕ
  pub failed_cases : ℕ
  pub errored_cases : ℕ
  pub task_success_rate : Rate
  pub evaluation_completion_rate : Rate
  pub scored_success_rate : Rate
  pub failure_counts : Dict String ℕ
  pub results : List EvaluationResult

unfoldable pub count_or_zero : Option ℕ → ℕ
count_or_zero none = 0
count_or_zero (some n) = n

-- The inner loop and the outer loop of the counts.
unfoldable pub count_reasons : List String → Dict String ℕ → Dict String ℕ
unfolding count_or_zero
count_reasons [] counts = counts
count_reasons (r ∷ rs) counts =
    count_reasons rs (insert r (count_or_zero (lookup r counts) + 1) counts)

unfoldable pub count_failures : List EvaluationResult → Dict String ℕ → Dict String ℕ
count_failures [] counts = counts
count_failures (r ∷ rs) counts = count_failures rs (count_reasons r.failure_reasons counts)

unfoldable pub succeeded : EvaluationResult → Bool
succeeded r = r.success

unfoldable pub errored : EvaluationResult → Bool
errored r = is_some r.error_type

-- `Field(ge=0)` refuses a negative count.
pub data EvaluationError : Type 0 where
  validation_error not_comparable case_missing : EvaluationError

unfoldable pub summary_of : List EvaluationResult → Summary
unfolding rate count_failures succeeded errored
summary_of results =
    let total = length results in
    let successful = count_where succeeded results in
    let errors = count_where errored results in
    let failed = total - successful - errors in
    record {
      total_cases = total;
      successful_cases = successful;
      failed_cases = failed;
      errored_cases = errors;
      task_success_rate = rate successful total;
      evaluation_completion_rate = rate (successful + failed) total;
      scored_success_rate = rate successful (successful + failed);
      failure_counts = count_failures results [];
      results = results;
    }

-- pydantic refuses the summary if its failed cases would be negative.
unfoldable pub build_evaluation_summary : List EvaluationResult → Result EvaluationError Summary
unfolding summary_of succeeded errored
build_evaluation_summary results =
    if ltb (length results) (count_where succeeded results + count_where errored results)
    then err validation_error
    else ok (summary_of results)
