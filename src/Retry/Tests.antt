-- ===== src/Retry/Tests.antt =====
-- A concrete request: two failures that are retried, and a reply.
use opspilot_agent_platform.Prelude.{ℕ, zero, suc, String, ◌≡◌, refl, [], ◌∷◌}
use opspilot_agent_platform.Prelude.Exec.{Result, ok, err}
use opspilot_agent_platform.Retry.{
  RequestError, transport_error, api_error, Metrics, request_message_with_retry, attempts_from,
  is_retryable_error, was_sent, count, goes_on,
}
use opspilot_agent_platform.Retry.Attempts.{EndsAt, request_message_with_retry_lem}

abbrev flaky : ℕ → Result RequestError String
flaky zero = err (api_error 503)
flaky (suc zero) = err transport_error
flaky (suc (suc _)) = ok "reply"

abbrev fresh : Metrics
fresh = record { http_attempts = 0; retry_count = 0; delays = [] }

third_time :
    request_message_with_retry flaky 3 fresh
    ≡ (ok "reply", record { http_attempts = 3; retry_count = 2; delays = 200 ∷ 400 ∷ [] })
unfolding request_message_with_retry attempts_from is_retryable_error was_sent count goes_on
third_time = refl

not_retried :
    (request_message_with_retry {A = String} (λ n. err (api_error 401)) 3 fresh).0
    ≡ err (api_error 401)
unfolding request_message_with_retry attempts_from is_retryable_error was_sent count goes_on
not_retried = refl

request_message_with_retry_lem_example :
    (n : ℕ) × EndsAt flaky 2 0 n fresh (request_message_with_retry flaky 3 fresh)
request_message_with_retry_lem_example = request_message_with_retry_lem flaky 2 fresh
