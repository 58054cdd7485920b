-- ===== src/Evaluation/Regression/Gate.antt =====
-- The gate passes exactly when no case has regressed.
use opspilot_agent_platform.Prelude.{
  String, ◌≡◌, refl, ◌↔◌, true, false, some, List, [], ◌∷◌, ◌==◌, arith, text_eq, eq_iff, contains,
  All, Member, inl, inr, Bool-cases, ◌⊎◌,
}
use opspilot_agent_platform.Prelude.Dict.{Dict, lookup, insert, lookup-insert}
use opspilot_agent_platform.Prelude.Exec.{ok}
use opspilot_agent_platform.Evaluation.{EvaluationResult, is_empty}
use opspilot_agent_platform.Evaluation.Regression.{
  Report, Regression, case_ids, distinct, all_among, is_comparable, by_case, regressed,
  compare_evaluation_reports,
}

-- Results of other cases leave what is found for a case.
by_case_others :
    (k : String) (rs : List EvaluationResult) (d : Dict String EvaluationResult)
    → contains (case_ids rs) k ≡ false
    → lookup k (by_case rs d) ≡ lookup k d
unfolding by_case case_ids
by_case_others k [] d h = refl
by_case_others k (r ∷ rs) d h = ground (
  arith,
  by_case_others k rs (insert r.case_id r d),
  lookup-insert r.case_id k r d,
  eq_iff r.case_id k,
)

-- Where the cases are distinct, each result is found under its case.
found_by_case :
    (y : EvaluationResult) (rs : List EvaluationResult) (d : Dict String EvaluationResult)
    → distinct (case_ids rs) ≡ true
    → Member y rs
    → lookup y.case_id (by_case rs d) ≡ some y
unfolding by_case case_ids distinct
found_by_case y [] d u m = elim m [ ]
found_by_case y (r ∷ rs) d u (inl e) = ground (
  arith,
  by_case_others r.case_id rs (insert r.case_id r d),
  lookup-insert r.case_id r.case_id r d,
  eq_iff r.case_id r.case_id,
)
found_by_case y (r ∷ rs) d u (inr m) = found_by_case y rs (insert r.case_id r d) (ground arith) m

-- What is found under a case is one of the results of that case, or was there before.
found_Member :
    (k : String) (y : EvaluationResult) (rs : List EvaluationResult)
    (d : Dict String EvaluationResult)
    → lookup k (by_case rs d) ≡ some y
    → (Member y rs × (y.case_id ≡ k)) ⊎ (lookup k d ≡ some y)
unfolding by_case
found_Member k y [] d h = inr h
found_Member k y (r ∷ rs) d h = elim (found_Member k y rs (insert r.case_id r d) h) [
  | inl (m, e) ↦ inl (inr m, e)
  | inr there ↦ elim (Bool-cases (r.case_id == k)) [
    | inl same ↦
        let is : r ≡ y = ground (arith, lookup-insert r.case_id k r d) in
        inl (inl is, ground (arith, eq_iff r.case_id k))
    | inr other ↦ inr (ground (arith, lookup-insert r.case_id k r d))
  ]
]

-- A result of a case among the given ones is found.
case_found :
    (k : String) (rs : List EvaluationResult) (d : Dict String EvaluationResult)
    → distinct (case_ids rs) ≡ true
    → contains (case_ids rs) k ≡ true
    → (y : EvaluationResult) × (lookup k (by_case rs d) ≡ some y)
unfolding by_case case_ids distinct
case_found k [] d u h = absurd (ground arith)
case_found k (r ∷ rs) d u h = elim (Bool-cases (contains (case_ids rs) k)) [
  | inl later ↦ case_found k rs (insert r.case_id r d) (ground arith) later
  | inr here ↦ (
    r,
    ground (arith, by_case_others k rs (insert r.case_id r d) here, lookup-insert r.case_id k r d),
  )
]

-- The case succeeds in the current results too.
abbrev pub StillSucceeds : List EvaluationResult → EvaluationResult → Type 0
StillSucceeds now x =
    x.success ≡ true
    → (y : EvaluationResult) × Member y now × (y.case_id ≡ x.case_id) × (y.success ≡ true)

module _ (now : List EvaluationResult) (unique : distinct (case_ids now) ≡ true) where
  still_there :
      (r y : EvaluationResult)
      → lookup r.case_id (by_case now []) ≡ some y
      → y.success ≡ true
      → (z : EvaluationResult) × Member z now × (z.case_id ≡ r.case_id) × (z.success ≡ true)
  unfolding lookup
  still_there r y found still = elim (found_Member r.case_id y now [] found) [
    | inl (m, e) ↦ (y, m, e, still)
    | inr there ↦ absurd (ground arith)
  ]

  lost_there :
      (r y : EvaluationResult)
      → lookup r.case_id (by_case now []) ≡ some y
      → y.success ≡ false
      → r.success ≡ true
      → StillSucceeds now r
      → ⊥
  lost_there r y found lost was still =
      let (z, m, e, s) = still was in
      let same = found_by_case z now [] unique m in absurd (cc (same, e, found, s, lost))

  regressed_lem :
      (rs : List EvaluationResult)
      → all_among (case_ids rs) (case_ids now) ≡ true
      → (ids : List String) × (regressed rs (by_case now []) ≡ ok ids)
        × ((is_empty ids ≡ true) ↔ All (StillSucceeds now) rs)
  unfolding regressed case_ids all_among
  regressed_lem [] h = ([], refl, ((λ e. tt), (λ a. refl)))
  regressed_lem (r ∷ rs) h =
      let (ids, e, iff) = regressed_lem rs (ground arith) in
      let (y, found) = case_found r.case_id now [] unique (ground arith) in
      elim (Bool-cases r.success) [
        | inr failed ↦ (
          ids,
          ground arith,
          ((λ q. ((λ s. absurd (cc (s, failed))), iff.0 q)), (λ a. iff.1 a.1)),
        )
        | inl was ↦ elim (Bool-cases y.success) [
          | inl still ↦ (
            ids,
            ground arith,
            ((λ q. ((λ s. still_there r y found still), iff.0 q)), (λ a. iff.1 a.1)),
          )
          | inr lost ↦ (
            r.case_id ∷ ids,
            ground arith,
            ((λ q. absurd (cc q)), (λ a. absurd (lost_there r y found lost was a.0))),
          )
        ]
      ]

-- For comparable reports the gate gives a verdict, and it passes exactly when every case that
-- succeeded in the baseline has a current result that succeeds too.
pub gate_passes_iff :
    (baseline current : Report)
    → is_comparable baseline current ≡ true
    → (r : Regression) × (compare_evaluation_reports baseline current ≡ ok r)
      × ((r.passed ≡ true) ↔ All (StillSucceeds current.results) baseline.results)
unfolding compare_evaluation_reports is_comparable
gate_passes_iff baseline current h =
    let (ids, e, iff) =
      regressed_lem current.results (ground arith) baseline.results (ground arith) in
    (
      record {
        passed = is_empty ids;
        regressed_case_ids = ids;
        baseline_task_success_rate = baseline.task_success_rate;
        current_task_success_rate = current.task_success_rate;
      },
      ground arith,
      iff,
    )
