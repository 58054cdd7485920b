-- ===== src/Retry.antt =====
-- retry_policy.py: the attempts of one model request. How each attempt ends is an argument, by its
-- number; durations are not modelled, and delays are in milliseconds.
pub mod Attempts
mod Tests
use mathlib.Core.List.{◌++◌ as ◌+++◌}
use opspilot_agent_platform.Prelude.{
  ℕ, zero, suc, ◌+◌, ◌*◌, ◌^◌, String, Bool, true, false, not, ◌&&◌, ◌||◌, List, [], ◌∷◌, ◌==◌,
  nat_eq, ltb, contains, if◌then◌else◌,
}
use opspilot_agent_platform.Prelude.Exec.{Result, ok, err}

-- The exceptions of an attempt: `httpx.RequestError`, `ModelAPIError` with its status,
-- `ModelAdmissionError`, `ContextBudgetExceeded` (after the request was sent, or before), any other;
-- and the two that the policy raises itself.
pub data RequestError : Type 0 where
  transport_error admission_error other_error : RequestError
  api_error : ℕ → RequestError
  context_exceeded : Bool → RequestError
  bad_max_attempts loop_ended : RequestError

abbrev retryable_status_codes : List ℕ
retryable_status_codes = 408 ∷ 429 ∷ 500 ∷ 502 ∷ 503 ∷ 504 ∷ []

abbrev base_delay_ms : ℕ
base_delay_ms = 200

-- `ModelRequestTelemetry`, with the delays that were asked for.
pub record Metrics : Type 0 where
  pub http_attempts : ℕ
  pub retry_count : ℕ
  pub delays : List ℕ

unfoldable pub is_retryable_error : RequestError → Bool
is_retryable_error transport_error = true
is_retryable_error (api_error status) = contains retryable_status_codes status
is_retryable_error _ = false

-- Whether the attempt sent an HTTP request.
unfoldable pub was_sent : {A : Type 0} → Result RequestError A → Bool
was_sent (err admission_error) = false
was_sent (err (context_exceeded request_sent)) = request_sent
was_sent _ = true

-- The `finally` of an attempt
unfoldable pub count : Bool → ℕ → Metrics → Metrics
count false attempt m = m
count true attempt m = record m {
  http_attempts = m.http_attempts + 1;
  retry_count = m.retry_count + (if ltb 0 attempt then 1 else 0);
}

wait : ℕ → Metrics → Metrics
wait attempt m = record m { delays = m.delays +++ ((base_delay_ms * 2 ^ attempt) ∷ []) }

-- Whether another attempt follows one that raised, with so many left.
unfoldable pub goes_on : ℕ → RequestError → Bool
goes_on left e = not (left == 0) && is_retryable_error e

module _ {A : Type 0} (send : ℕ → Result RequestError A) where
  -- The loop from an attempt on, with so many attempts left.
  unfoldable pub attempts_from : ℕ → ℕ → Metrics → Result RequestError A × Metrics
  unfolding wait
  attempts_from zero attempt m = (err loop_ended, m)
  attempts_from (suc left) attempt m =
      let counted = count (was_sent (send attempt)) attempt m in
      let rest =
        attempts_from left (suc attempt)
          (count (was_sent (send attempt)) attempt (wait attempt m)) in
      elim (send attempt) [
        | ok a ↦ (ok a, counted)
        | err e ↦ if goes_on left e then rest else (err e, counted)
      ]

  unfoldable pub request_message_with_retry : ℕ → Metrics → Result RequestError A × Metrics
  request_message_with_retry max_attempts m =
      if ltb max_attempts 1 then (err bad_max_attempts, m) else attempts_from max_attempts 0 m
