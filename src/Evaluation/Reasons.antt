-- ===== src/Evaluation/Reasons.antt =====
-- A run is a success exactly when no reason of a failure is found.
use opspilot_agent_platform.Prelude.{
  String, ◌≡◌, refl, Bool, not, Option, List, [], ◌∷◌, arith, text_eq,
}
use opspilot_agent_platform.Agent.State.{State}
use opspilot_agent_platform.Evaluation.{
  Case, is_task_successful, collect_failure_reasons, is_empty, none_in, any_in,
}

none_in-any_in : (answer : String) (ts : List String) → none_in answer ts ≡ not (any_in answer ts)
unfolding none_in any_in
none_in-any_in answer [] = refl
none_in-any_in answer (t ∷ ts) = ground (arith, none_in-any_in answer ts)

-- The verdict and the list of reasons agree: a run is successful exactly when it has no reason to
-- have failed.
pub is_task_successful-reasons :
    (c : Case) (response : State) (created : Option Bool)
    → is_task_successful c response created ≡ is_empty (collect_failure_reasons c response created)
unfolding is_task_successful collect_failure_reasons
is_task_successful-reasons c response created =
    ground (arith, none_in-any_in response.answer c.answer_must_not_contain)
