-- ===== src/RateLimit/Tests.antt =====
-- A concrete quota: two calls a second.
use opspilot_agent_platform.Prelude.{
  ℕ, ◌+◌, ◌*◌, ◌≤◌, ◌<◌, ◌≡◌, ◌≢◌, refl, none, some, [], ◌∷◌, arith, Option,
}
use opspilot_agent_platform.Prelude.Text.{is_blank, is_space}
use opspilot_agent_platform.Prelude.Exec.{ok, err}
use opspilot_agent_platform.RateLimit.{
  Counter, Limiter, rate_limit_exceeded, bad_configuration, new_limiter, live, acquire_script,
  acquire,
}
use opspilot_agent_platform.RateLimit.Windows.{admitted, admitted_window, refused_then_admitted}

abbrev two_a_second : Limiter
two_a_second = record { limit = 2; window_ms = 1000 }

configured : new_limiter "zhipu" 2 1 ≡ ok two_a_second
unfolding new_limiter is_blank is_space
configured = refl

refuses_zero : new_limiter "zhipu" 0 1 ≡ err bad_configuration
unfolding new_limiter is_blank is_space
refuses_zero = refl

runs : admitted two_a_second (0 ∷ 10 ∷ 1000 ∷ 1001 ∷ []) none ≡ 3
unfolding admitted acquire_script live
runs = refl

abbrev full : Option Counter
full = some (record { value = 2; expires_at = some 1000 })

refused : (acquire two_a_second 20 full).0 ≡ err (rate_limit_exceeded 1)
unfolding acquire acquire_script live
refused = refl

none-live : live 0 none ≡ none
unfolding live
none-live = refl

admitted_window_example : admitted two_a_second (0 ∷ 10 ∷ 20 ∷ []) none ≡ 2
admitted_window_example =
    admitted_window two_a_second 0 (10 ∷ 20 ∷ []) none (omega arith) (omega arith) none-live
      (omega arith, (omega arith, tt))

refused_then_admitted_example :
    let stored' = (acquire two_a_second 20 full).1 in
    (1 ≤ 1)
    × ((later : ℕ) → 20 + 1 * 1000 < later → (acquire two_a_second later stored').0 ≡ ok tt)
    × ((sooner : ℕ)
        → sooner + 1000 ≤ 20 + 1 * 1000
        → (acquire two_a_second sooner stored').0 ≢ ok tt)
refused_then_admitted_example = refused_then_admitted two_a_second 20 1 full (omega arith) refused

-- At the end of the window the key is still there, and a call is refused with one second to wait.
refused_at_end : (acquire two_a_second 1000 full).0 ≡ err (rate_limit_exceeded 1)
unfolding acquire acquire_script live
refused_at_end = refl
