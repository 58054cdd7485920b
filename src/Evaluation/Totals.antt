-- ===== src/Evaluation/Totals.antt =====
-- The totals of a batch.
use opspilot_agent_platform.Prelude.{
  ℕ, ◌+◌, String, ◌≡◌, Bool, false, not, ◌&&◌, List, [], ◌∷◌, ◌==◌, arith, text_eq, eq_iff, length,
  All, if◌then◌else◌,
}
use opspilot_agent_platform.Prelude.Dict.{Dict, lookup, insert, lookup-insert}
use opspilot_agent_platform.Prelude.Tables.{count_where}
use opspilot_agent_platform.Prelude.Exec.{ok}
use opspilot_agent_platform.Evaluation.{
  EvaluationResult, Summary, succeeded, errored, count_or_zero, count_reasons, count_failures,
  summary_of, build_evaluation_summary,
}

-- A run that neither succeeded nor ended by an error.
abbrev pub scored_failure : EvaluationResult → Bool
scored_failure r = not (succeeded r) && not (errored r)

-- A result of an error is no success.
abbrev pub IsExclusive : EvaluationResult → Type 0
IsExclusive r = (succeeded r && errored r) ≡ false

partition_counts :
    (rs : List EvaluationResult)
    → All IsExclusive rs
    → count_where succeeded rs + count_where errored rs + count_where scored_failure rs ≡ length rs
unfolding count_where
partition_counts [] h = omega arith
partition_counts (r ∷ rs) (x, h) = ground (arith, partition_counts rs h)

-- How often a reason is given, in one result and in all.
abbrev pub occurrences : String → List String → ℕ
occurrences reason [] = 0
occurrences reason (r ∷ rs) = (if r == reason then 1 else 0) + occurrences reason rs

abbrev pub all_occurrences : String → List EvaluationResult → ℕ
all_occurrences reason [] = 0
all_occurrences reason (r ∷ rs) = occurrences reason r.failure_reasons + all_occurrences reason rs

module _ (reason : String) where
  count_reasons_lem :
      (rs : List String) (counts : Dict String ℕ)
      → count_or_zero (lookup reason (count_reasons rs counts))
        ≡ count_or_zero (lookup reason counts) + occurrences reason rs
  unfolding count_reasons count_or_zero
  count_reasons_lem [] counts = omega arith
  count_reasons_lem (r ∷ rs) counts =
      let before = count_or_zero (lookup r counts) in
      ground (
        arith,
        count_reasons_lem rs (insert r (before + 1) counts),
        lookup-insert r reason (before + 1) counts,
        eq_iff r reason,
      )

  count_failures_lem :
      (rs : List EvaluationResult) (counts : Dict String ℕ)
      → count_or_zero (lookup reason (count_failures rs counts))
        ≡ count_or_zero (lookup reason counts) + all_occurrences reason rs
  unfolding count_failures
  count_failures_lem [] counts = omega arith
  count_failures_lem (r ∷ rs) counts = omega (
    arith,
    count_reasons_lem r.failure_reasons counts,
    count_failures_lem rs (count_reasons r.failure_reasons counts),
  )

-- If no result is both a success and an error, the summary is made; its successes, failures and
-- errors add up to all results, its failures are the results that are neither, and each reason is
-- counted as often as it is given.
pub build_evaluation_summary_lem :
    (results : List EvaluationResult)
    → All IsExclusive results
    → (t : Summary) × (build_evaluation_summary results ≡ ok t)
      × (t.successful_cases + t.failed_cases + t.errored_cases ≡ length results)
      × (t.failed_cases ≡ count_where scored_failure results)
      × ((reason : String)
          → count_or_zero (lookup reason t.failure_counts) ≡ all_occurrences reason results)
unfolding build_evaluation_summary count_or_zero lookup
build_evaluation_summary_lem results h =
    let parts = partition_counts results h in
    let t : Summary = summary_of results in
    (
      t,
      ground arith,
      omega arith,
      omega arith,
      λ reason. omega (arith, count_failures_lem reason results []),
    )
