-- ===== src/Evaluation/Regression.antt =====
-- evaluation_regression.py: the gate that compares a report with a baseline.
pub mod Gate
use opspilot_agent_platform.Prelude.{
  String, Bool, true, false, not, ◌&&◌, ◌||◌, Option, none, some, List, [], ◌∷◌, map, ◌==◌, text_eq,
  contains, if◌then◌else◌,
}
use opspilot_agent_platform.Prelude.Dict.{Dict, lookup, insert}
use opspilot_agent_platform.Prelude.Exec.{Result, ok, err}
use opspilot_agent_platform.Agent.State.{Mode, mock, live}
use opspilot_agent_platform.Evaluation.{
  EvaluationResult, Rate, EvaluationError, not_comparable, case_missing, is_empty,
}

-- `AgentEvaluationReport`, of its summary the results and the success rate.
pub record Report : Type 0 where
  pub schema_version : String
  pub mode : Mode
  pub runtime : String
  pub cases_sha256 : String
  pub results : List EvaluationResult
  pub task_success_rate : Rate

pub record Regression : Type 0 where
  pub passed : Bool
  pub regressed_case_ids : List String
  pub baseline_task_success_rate : Rate
  pub current_task_success_rate : Rate

mode_text : Mode → String
mode_text mock = "mock"
mode_text live = "live"

unfoldable pub case_ids : List EvaluationResult → List String
case_ids rs = map (λ (r : EvaluationResult). r.case_id) rs

-- `len(xs) == len(set(xs))`, and `set(xs) <= set(ys)`.
unfoldable pub distinct : List String → Bool
distinct [] = true
distinct (x ∷ xs) = not (contains xs x) && distinct xs

unfoldable pub all_among : List String → List String → Bool
all_among [] ys = true
all_among (x ∷ xs) ys = contains ys x && all_among xs ys

same_metadata : Report → Report → Bool
unfolding mode_text
same_metadata a b =
    a.schema_version == b.schema_version
    && mode_text a.mode == mode_text b.mode
    && a.runtime == b.runtime
    && a.cases_sha256 == b.cases_sha256

-- `_ensure_comparable`, as a test
unfoldable pub is_comparable : Report → Report → Bool
unfolding same_metadata case_ids
is_comparable baseline current =
    let before = case_ids baseline.results in
    let now = case_ids current.results in
    same_metadata baseline current
    && (all_among before now && all_among now before)
    && (distinct before && distinct now)

-- `{result.case_id: result for result in …}`
unfoldable pub by_case :
    List EvaluationResult → Dict String EvaluationResult → Dict String EvaluationResult
by_case [] d = d
by_case (r ∷ rs) d = by_case rs (insert r.case_id r d)

-- `current_results[case_id]` is read for a success of the baseline only.
unfoldable pub regressed :
    List EvaluationResult → Dict String EvaluationResult → Result EvaluationError (List String)
regressed [] d = ok []
regressed (r ∷ rs) d =
    let rest = regressed rs d in
    if not r.success then rest else elim (lookup r.case_id d) [
      | none ↦ err case_missing
      | some now ↦ elim rest [
        | err e ↦ err e
        | ok ids ↦ ok (if now.success then ids else r.case_id ∷ ids)
      ]
    ]

unfoldable pub find_regressed_case_ids : Report → Report → Result EvaluationError (List String)
unfolding is_comparable by_case regressed
find_regressed_case_ids baseline current =
    if is_comparable baseline current
    then regressed baseline.results (by_case current.results [])
    else err not_comparable

unfoldable pub compare_evaluation_reports : Report → Report → Result EvaluationError Regression
unfolding find_regressed_case_ids
compare_evaluation_reports baseline current = elim (find_regressed_case_ids baseline current) [
  | err e ↦ err e
  | ok ids ↦ ok (record {
    passed = is_empty ids;
    regressed_case_ids = ids;
    baseline_task_success_rate = baseline.task_success_rate;
    current_task_success_rate = current.task_success_rate;
  })
]
