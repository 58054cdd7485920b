-- ===== src/RateLimit.antt =====
-- model_rate_limit.py: the quota of model requests that all processes share. The script runs at once
-- in Redis, so a call is one step; times are in milliseconds of Redis's clock.
pub mod Windows
mod Tests
use Prim.Native.String.{count as text_length}
use opspilot_agent_platform.Prelude.{
  ℕ, ◌+◌, ◌-◌, ◌*◌, ◌/◌, max, String, Bool, true, false, not, ◌&&◌, ◌||◌, Option, none, some, List,
  [], ◌∷◌, ltb, leb, if◌then◌else◌,
}
use opspilot_agent_platform.Prelude.Text.{is_blank}
use opspilot_agent_platform.Prelude.Exec.{Result, ok, err}

-- The key in Redis: its number, and when it expires, if it does.
pub record Counter : Type 0 where
  pub value : ℕ
  pub expires_at : Option ℕ

-- `RedisModelRateLimiter`, less the client and the key's name.
pub record Limiter : Type 0 where
  pub limit : ℕ
  pub window_ms : ℕ

-- `ModelRateLimitExceeded` with its seconds, and the `ValueError` for a bad configuration. A Redis
-- that cannot be reached is not modelled.
pub data AdmissionError : Type 0 where
  rate_limit_exceeded : ℕ → AdmissionError
  bad_configuration : AdmissionError

-- `RedisModelRateLimiter.__init__`
unfoldable pub new_limiter : String → ℕ → ℕ → Result AdmissionError Limiter
new_limiter scope limit window_seconds =
    if is_blank scope
      || ltb 128 (text_length scope)
      || not (leb 1 limit && leb limit 100000)
      || not (leb 1 window_seconds && leb window_seconds 86400)
    then err bad_configuration
    else ok (record { limit = limit; window_ms = window_seconds * 1000 })

-- Redis drops a key once the time is past its expiry: at the expiry itself `PTTL` is 0.
is_live : ℕ → Option ℕ → Bool
is_live now none = true
is_live now (some e) = leb now e

unfoldable pub live : ℕ → Option Counter → Option Counter
unfolding is_live
live now none = none
live now (some c) = if is_live now c.expires_at then some c else none

-- `GET`, or 0
value_of : Option Counter → ℕ
value_of none = 0
value_of (some c) = c.value

-- When the key expires, as `PTTL` finds it; `none` where that is negative.
expiry_of : Option Counter → Option ℕ
expiry_of none = none
expiry_of (some c) = c.expires_at

-- The time at which the window ends; a window without an end gets one.
window_end : ℕ → ℕ → Option ℕ → ℕ
window_end now window_ms none = now + window_ms
window_end now window_ms (some e) = e

-- `ACQUIRE_SCRIPT`: whether the call is admitted, the milliseconds left, and the key afterwards.
unfoldable pub acquire_script : Limiter → ℕ → Option Counter → (Bool × ℕ) × Option Counter
unfolding value_of expiry_of window_end
acquire_script limiter now stored =
    let found = live now stored in
    let ends = window_end now limiter.window_ms (expiry_of found) in
    if leb limiter.limit (value_of found)
    then ((false, ends - now), some (record { value = value_of found; expires_at = some ends }))
    else ((true, ends - now), some (record { value = value_of found + 1; expires_at = some ends }))

-- `math.ceil(ttl / 1000)`, at least 1
retry_after : ℕ → ℕ
retry_after ttl = max 1 ((ttl + 999) / 1000)

-- `RedisModelRateLimiter.acquire`
unfoldable pub acquire :
    Limiter → ℕ → Option Counter → Result AdmissionError (Unit {0}) × Option Counter
unfolding retry_after
acquire limiter now stored =
    let ((admitted, ttl), stored') = acquire_script limiter now stored in
    (if admitted then ok tt else err (rate_limit_exceeded (retry_after ttl)), stored')
