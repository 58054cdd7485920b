-- ===== src/RateLimit/Windows.antt =====
-- How many calls a window admits, and when a refused call can be made again.
use opspilot_agent_platform.Prelude.{
  ℕ, suc, ◌+◌, ◌-◌, ◌*◌, ◌≤◌, ◌<◌, min, ◌≡◌, ◌≢◌, inl, inr, true, false, Option, none, some, List,
  [], ◌∷◌, arith, leb, length, All, Bool-cases, if◌then◌else◌,
}
use opspilot_agent_platform.Prelude.Exec.{ok, err}
use opspilot_agent_platform.RateLimit.{
  Counter, Limiter, rate_limit_exceeded, live, acquire_script, acquire, retry_after, value_of,
  expiry_of, window_end,
}

-- How many of the calls at these times are admitted.
unfoldable pub admitted : Limiter → List ℕ → Option Counter → ℕ
admitted limiter [] stored = 0
admitted limiter (now ∷ times) stored =
    let ((yes_it_is, ttl), stored') = acquire_script limiter now stored in
    let rest = admitted limiter times stored' in if yes_it_is then suc rest else rest

-- While a window lasts, the calls that are admitted are the first ones, up to what is left.
admitted_within :
    (limiter : Limiter) (ends : ℕ) (times : List ℕ) (n : ℕ)
    → All (λ t. t ≤ ends) times
    → admitted limiter times (some (record { value = n; expires_at = some ends }))
      ≡ min (limiter.limit - n) (length times)
unfolding admitted acquire_script live
admitted_within limiter ends [] n h = omega arith
admitted_within limiter ends (now ∷ times) n (l, h) =
    ground
      (arith, admitted_within limiter ends times n h, admitted_within limiter ends times (n + 1) h)

-- In the window that a call opens, up to and at its end, exactly the first `limit` calls are admitted,
-- the opening call included: at most the limit, and none is refused before it is reached.
pub admitted_window :
    (limiter : Limiter) (now : ℕ) (times : List ℕ) (stored : Option Counter)
    → 1 ≤ limiter.limit
    → 1 ≤ limiter.window_ms
    → live now stored ≡ none
    → All (λ t. t ≤ now + limiter.window_ms) times
    → admitted limiter (now ∷ times) stored ≡ min limiter.limit (suc (length times))
unfolding admitted acquire_script
admitted_window limiter now times stored l w n h =
    ground (arith, admitted_within limiter (now + limiter.window_ms) times 1 h)

-- A call that comes after the end of the window is admitted, and one that comes before is refused if
-- the quota is used up.
ended_admits :
    (limiter : Limiter) (later ends n : ℕ)
    → 1 ≤ limiter.limit
    → ends < later
    → (acquire limiter later (some (record { value = n; expires_at = some ends }))).0 ≡ ok tt
unfolding acquire acquire_script live
ended_admits limiter later ends n l e = ground arith

lasting_refuses :
    (limiter : Limiter) (later ends n : ℕ)
    → leb limiter.limit n ≡ true
    → later ≤ ends
    → (acquire limiter later (some (record { value = n; expires_at = some ends }))).0 ≢ ok tt
unfolding acquire acquire_script live
lasting_refuses limiter later ends n l e = ground arith

-- The end of the window that a call finds, or opens.
ends_at : Limiter → ℕ → Option Counter → ℕ
ends_at limiter now stored = window_end now limiter.window_ms (expiry_of (live now stored))

ends_at_later :
    (limiter : Limiter) (now : ℕ) (stored : Option Counter) → now ≤ ends_at limiter now stored
unfolding ends_at live window_end expiry_of
ends_at_later limiter now none = omega arith
ends_at_later limiter now (some c) = ground arith

acquire-refuses :
    (limiter : Limiter) (now : ℕ) (stored : Option Counter)
    → leb limiter.limit (value_of (live now stored)) ≡ true
    → acquire limiter now stored ≡ (
      err (rate_limit_exceeded (retry_after (ends_at limiter now stored - now))),
      some (record {
        value = value_of (live now stored);
        expires_at = some (ends_at limiter now stored);
      }),
    )
unfolding acquire acquire_script ends_at
acquire-refuses limiter now stored h = ground arith

acquire-admits :
    (limiter : Limiter) (now : ℕ) (stored : Option Counter)
    → leb limiter.limit (value_of (live now stored)) ≡ false
    → (acquire limiter now stored).0 ≡ ok tt
unfolding acquire acquire_script
acquire-admits limiter now stored h = ground arith

retry_after_enough :
    (ttl : ℕ)
    → (1 ≤ retry_after ttl) × (ttl ≤ retry_after ttl * 1000) × (retry_after ttl * 1000 ≤ ttl + 1000)
unfolding retry_after
retry_after_enough ttl = (omega arith, omega arith, omega arith)

-- A call that is refused is told the seconds to wait, at least one. With no call in between, a call that
-- is made after they have passed is admitted, and one that is made a second before that, or earlier, is
-- refused again.
pub refused_then_admitted :
    (limiter : Limiter) (now seconds : ℕ) (stored : Option Counter)
    → 1 ≤ limiter.limit
    → (acquire limiter now stored).0 ≡ err (rate_limit_exceeded seconds)
    → let stored' = (acquire limiter now stored).1 in
      (1 ≤ seconds)
      × ((later : ℕ) → now + seconds * 1000 < later → (acquire limiter later stored').0 ≡ ok tt)
      × ((sooner : ℕ)
          → sooner + 1000 ≤ now + seconds * 1000
          → (acquire limiter sooner stored').0 ≢ ok tt)
refused_then_admitted limiter now seconds stored l h =
    elim (Bool-cases (leb limiter.limit (value_of (live now stored)))) [
      | inr free ↦ ground (arith, acquire-admits limiter now stored free)
      | inl full ↦
          let e = acquire-refuses limiter now stored full in
          let ends = ends_at limiter now stored in
          let n = value_of (live now stored) in
          let told : retry_after (ends - now) ≡ seconds = ground arith in
          let (least, enough, tight) = retry_after_enough (ends - now) in
          let after_now = ends_at_later limiter now stored in
          (
            omega (arith, least, told),
            λ later k.
                rw e
                  (ended_admits limiter later ends n l (omega (arith, k, enough, told, after_now))),
            λ sooner k. rw e (
                lasting_refuses limiter sooner ends n full
                  (omega (arith, k, tight, told, after_now))),
          )
    ]
