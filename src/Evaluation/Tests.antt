-- ===== src/Evaluation/Tests.antt =====
-- Concrete evaluations.
use opspilot_agent_platform.Prelude.{
  ◌+◌, String, ◌≡◌, ◌↔◌, refl, true, false, none, some, List, [], ◌∷◌, All, text_eq,
}
use opspilot_agent_platform.Prelude.Dict.{lookup}
use opspilot_agent_platform.Prelude.Tables.{count_where}
use opspilot_agent_platform.Prelude.Exec.{ok}
use opspilot_agent_platform.Agent.State.{completed, mock, State, other_reason}
use opspilot_agent_platform.Agent.Api.{initial_state}
use opspilot_agent_platform.Evaluation.{
  Case, EvaluationResult, Summary, is_task_successful, collect_failure_reasons, is_empty,
  count_or_zero, build_evaluation_summary, succeeded, errored, nothing_counted,
}
use opspilot_agent_platform.Evaluation.Reasons.{is_task_successful-reasons}
use opspilot_agent_platform.Evaluation.Totals.{
  scored_failure, all_occurrences, build_evaluation_summary_lem,
}
use opspilot_agent_platform.Evaluation.Regression.{
  Report, Regression, is_comparable, compare_evaluation_reports, distinct, all_among, case_ids,
}
use opspilot_agent_platform.Evaluation.Regression.Gate.{StillSucceeds, gate_passes_iff}

abbrev refund_case : Case
refund_case = record {
  case_id = "refund";
  expected_status = completed;
  expected_tools = "search_knowledge_base" ∷ [];
  answer_must_contain = "3 days" ∷ [];
  answer_must_not_contain = [];
  citation_required = true;
  return_application_expected = some false;
}

abbrev response : State
response =
    record (initial_state "u1" [] (record {
      thread_id = "t1";
      message = "refund";
      mode = mock;
      return_reason = none;
      reason_code = other_reason;
    })) { status = completed; answer = "in 3 days" }

is_task_successful-reasons_example :
    is_task_successful refund_case response none
    ≡ is_empty (collect_failure_reasons refund_case response none)
is_task_successful-reasons_example = is_task_successful-reasons refund_case response none

abbrev good : EvaluationResult
good = record {
  case_id = "refund";
  success = true;
  failure_reasons = [];
  actual_status = some completed;
  actual_tools_used = [];
  actual_answer = none;
  error_type = none;
  return_application_created = false;
}

abbrev bad : EvaluationResult
bad = record good {
  case_id = "order";
  success = false;
  failure_reasons = "missing_citation" ∷ "status_mismatch" ∷ [];
}

abbrev broken : EvaluationResult
broken = record good { case_id = "outage"; success = false; error_type = some "TimeoutError" }

abbrev batch : List EvaluationResult
batch = good ∷ bad ∷ broken ∷ []

build_evaluation_summary_lem_example :
    (t : Summary) × (build_evaluation_summary batch ≡ ok t)
    × (t.successful_cases + t.failed_cases + t.errored_cases ≡ 3)
    × (t.failed_cases ≡ count_where scored_failure batch)
    × ((reason : String)
        → count_or_zero (lookup reason t.failure_counts) ≡ all_occurrences reason batch)
unfolding succeeded errored
build_evaluation_summary_lem_example = build_evaluation_summary_lem batch (refl, (refl, (refl, tt)))

abbrev baseline : Report
baseline = record {
  schema_version = "1.1";
  mode = mock;
  runtime = "isolated";
  cases_sha256 = "00";
  results = batch;
  task_success_rate = nothing_counted;
}

abbrev current : Report
current = record baseline { results = broken ∷ record good { success = false } ∷ bad ∷ [] }

reports_comparable : is_comparable baseline current ≡ true
unfolding is_comparable case_ids all_among distinct
reports_comparable = refl

gate_passes_iff_example :
    (r : Regression) × (compare_evaluation_reports baseline current ≡ ok r)
    × ((r.passed ≡ true) ↔ All (StillSucceeds current.results) baseline.results)
gate_passes_iff_example = gate_passes_iff baseline current reports_comparable
