-- ===== src/Retry/Attempts.antt =====
-- Which attempt a request ends with, and what is counted until then.
use mathlib.Core.List.{◌++◌ as ◌+++◌}
use opspilot_agent_platform.Prelude.{
  ℕ, zero, suc, ◌+◌, ◌*◌, ◌^◌, ◌≤◌, ◌<◌, ◌≡◌, ◌⊎◌, refl, sym, ◌∙◌, ap, inl, inr, Bool, true, false,
  List, [], ◌∷◌, arith, Bool-cases, if◌then◌else◌,
}
use opspilot_agent_platform.Prelude.Exec.{Result, ok, err}
use opspilot_agent_platform.Retry.{
  RequestError, transport_error, admission_error, other_error, api_error, context_exceeded,
  bad_max_attempts, loop_ended, Metrics, is_retryable_error, was_sent, count, wait, goes_on,
  attempts_from, request_message_with_retry,
}

-- The delays before the attempts that follow attempt `from`.
unfoldable pub backoff : ℕ → ℕ → List ℕ
backoff from zero = []
backoff from (suc n) = (200 * 2 ^ from) ∷ backoff (suc from) n

abbrev pub Retried : {A : Type 0} → Result RequestError A → Type 0
Retried (ok a) = ⊥
Retried (err e) = is_retryable_error e ≡ true

-- One request, if the attempt sent it.
abbrev pub sent_once : {A : Type 0} → Result RequestError A → ℕ
sent_once r = if was_sent r then 1 else 0

-- How a loop of `left + 1` attempts, from attempt `from`, ended: `n` attempts were retried, the one
-- after them gave the result, and it was the last or was not to be retried.
pub record EndsAt {A : Type 0} (send : ℕ → Result RequestError A) (left from n : ℕ) (m : Metrics)
    (r : Result RequestError A × Metrics) : Type 0 where
  pub result : r.0 ≡ send (from + n)
  pub within : n ≤ left
  pub retried : (j : ℕ) → j < n → Retried (send (from + j))
  pub final : (n ≡ left) ⊎ (Retried (send (from + n)) → ⊥)
  pub delays : r.1.delays ≡ m.delays +++ backoff from n
  pub attempts : r.1.http_attempts ≡ m.http_attempts + n + sent_once (send (from + n))

snoc_append : (xs : List ℕ) (y : ℕ) (ys : List ℕ) → (xs +++ (y ∷ [])) +++ ys ≡ xs +++ (y ∷ ys)
snoc_append [] y ys = refl
snoc_append (x ∷ xs) y ys = ap (λ zs. x ∷ zs) (snoc_append xs y ys)

append_nil : (xs : List ℕ) → xs +++ [] ≡ xs
append_nil [] = refl
append_nil (x ∷ xs) = ap (λ zs. x ∷ zs) (append_nil xs)

count_delays : (b : Bool) (attempt : ℕ) (m : Metrics) → (count b attempt m).delays ≡ m.delays
unfolding count
count_delays true attempt m = refl
count_delays false attempt m = refl

count_attempts :
    (b : Bool) (attempt : ℕ) (m : Metrics)
    → (count b attempt m).http_attempts ≡ m.http_attempts + (if b then 1 else 0)
unfolding count
count_attempts true attempt m = refl
count_attempts false attempt m = omega arith

retried_sent :
    (A : Type 0) (e : RequestError) → is_retryable_error e ≡ true → was_sent {A = A} (err e) ≡ true
unfolding is_retryable_error was_sent
retried_sent A transport_error h = refl
retried_sent A (api_error status) h = refl
retried_sent A admission_error h = ground arith
retried_sent A other_error h = ground arith
retried_sent A (context_exceeded b) h = ground arith
retried_sent A bad_max_attempts h = ground arith
retried_sent A loop_ended h = ground arith

ok_never-Retried : {A : Type 0} {r : Result RequestError A} {a : A} → r ≡ ok a → Retried r → ⊥
ok_never-Retried {A} {r} e k = go r e k
  where
    go : (r : Result RequestError A) {a : A} → r ≡ ok a → Retried r → ⊥
    go (ok a) e k = k
    go (err x) e k = ground arith

module _ {A : Type 0} (send : ℕ → Result RequestError A) (left from : ℕ) (m : Metrics) where
  only_attempt :
      (r : Result RequestError A)
      → send from ≡ r
      → attempts_from send 1 from m ≡ (send from, count (was_sent (send from)) from m)
  unfolding attempts_from goes_on
  only_attempt (ok a) e = ground arith
  only_attempt (err x) e = ground arith

  stops_ok :
      {a : A}
      → send from ≡ ok a
      → attempts_from send (suc left) from m ≡ (send from, count (was_sent (send from)) from m)
  unfolding attempts_from
  stops_ok e = ground arith

  stops_err :
      {x : RequestError}
      → send from ≡ err x
      → is_retryable_error x ≡ false
      → attempts_from send (suc left) from m ≡ (send from, count (was_sent (send from)) from m)
  unfolding attempts_from goes_on
  stops_err e f = ground arith

  goes_again :
      {x : RequestError}
      → send from ≡ err x
      → is_retryable_error x ≡ true
      → attempts_from send (suc (suc left)) from m
        ≡ attempts_from send (suc left) (suc from) (count true from (wait from m))
  unfolding attempts_from goes_on
  goes_again {x} e f =
      let sent : was_sent {A = A} (err x) ≡ true = retried_sent A x f in ground arith

module _ {A : Type 0} (send : ℕ → Result RequestError A) where
  -- The loop that ends with its first attempt.
  ends_now :
      (left from : ℕ) (m : Metrics)
      → ((left ≡ 0) ⊎ (Retried (send from) → ⊥))
      → attempts_from send (suc left) from m ≡ (send from, count (was_sent (send from)) from m)
      → EndsAt send left from 0 m (attempts_from send (suc left) from m)
  unfolding count backoff
  ends_now left from m why e =
      let same : from + 0 ≡ from = omega arith in
      rw e (record {
        result = ap send (sym same);
        within = omega arith;
        retried = λ j l. absurd (omega (arith, l));
        final = rw same (elim why [ inl z ↦ inl (sym z) | inr f ↦ inr f ]);
        delays = count_delays (was_sent (send from)) from m ∙ sym (append_nil m.delays);
        attempts = rw same (count_attempts (was_sent (send from)) from m ∙ omega arith);
      })

  -- The loop that retries its first attempt.
  ends_later :
      (left from n : ℕ) (m : Metrics) (e : RequestError)
      → send from ≡ err e
      → is_retryable_error e ≡ true
      → attempts_from send (suc (suc left)) from m
        ≡ attempts_from send (suc left) (suc from) (count true from (wait from m))
      → EndsAt send left
          (suc from)
          n
          (count true from (wait from m))
          (attempts_from send (suc left) (suc from) (count true from (wait from m)))
      → EndsAt send (suc left) from (suc n) m (attempts_from send (suc (suc left)) from m)
  unfolding count wait backoff
  ends_later left from n m e failed again eq k =
      let shift : suc from + n ≡ from + suc n = omega arith in
      rw eq (record {
        result = k.result ∙ ap send shift;
        within = omega (arith, k.within);
        retried = first_retried;
        final = rw⁻¹ shift (elim k.final [ inl z ↦ inl (ap suc z) | inr f ↦ inr f ]);
        delays = k.delays ∙ snoc_append m.delays (200 * 2 ^ from) (backoff (suc from) n);
        attempts = rw⁻¹ shift (k.attempts ∙ omega arith);
      })
    where
      first_retried : (j : ℕ) → j < suc n → Retried (send (from + j))
      first_retried zero l = let same : from + 0 ≡ from = omega arith in rw (same, failed) again
      first_retried (suc j) l =
          let same : from + suc j ≡ suc from + j = omega arith in
          rw same (k.retried j (omega (arith, l)))

  attempts_ends :
      (left from : ℕ) (m : Metrics)
      → (n : ℕ) × EndsAt send left from n m (attempts_from send (suc left) from m)
  attempts_ends zero from m =
      (0, ends_now 0 from m (inl refl) (only_attempt send 0 from m (send from) refl))
  attempts_ends (suc left) from m =
      go (attempts_ends left (suc from) (count true from (wait from m))) (send from) refl
    where
      go :
          (n : ℕ) × EndsAt send left
              (suc from)
              n
              (count true from (wait from m))
              (attempts_from send (suc left) (suc from) (count true from (wait from m)))
          → (r : Result RequestError A) → send from ≡ r
          → (n : ℕ) × EndsAt send (suc left) from n m (attempts_from send (suc (suc left)) from m)
      go rest (ok a) e = (
        0,
        ends_now (suc left) from m (inr (λ k. ok_never-Retried e k))
            (stops_ok send (suc left) from m e),
      )
      go (n, k) (err x) e = elim (Bool-cases (is_retryable_error x)) [
        | inl again ↦
            (suc n, ends_later left from n m x e again (goes_again send left from m e again) k)
        | inr stop ↦ (
          0,
          ends_now (suc left) from m (inr (λ k. ground arith))
              (stops_err send (suc left) from m e stop),
        )
      ]

-- With at least one attempt allowed, a request ends with the result of one attempt, within the limit:
-- every attempt before it failed with an error that is retried, and it is the last one allowed or is
-- not to be retried. The delays before it double from 200 ms on, and the HTTP attempts counted are
-- the retried ones and this one, if it was sent.
pub request_message_with_retry_lem :
    {A : Type 0} (send : ℕ → Result RequestError A) (more : ℕ) (m : Metrics)
    → (n : ℕ) × EndsAt send more 0 n m (request_message_with_retry send (suc more) m)
unfolding request_message_with_retry
request_message_with_retry_lem send more m =
    let same : request_message_with_retry send (suc more) m ≡ attempts_from send (suc more) 0 m =
      ground arith in
    rw same (attempts_ends send more 0 m)
