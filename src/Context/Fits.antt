-- ===== src/Context/Fits.antt =====
-- What preparing a conversation keeps, and when it gives up.
use opspilot_agent_platform.Prelude.{
  ℕ, zero, suc, ◌+◌, ◌≤◌, ◌<◌, max, ◌≡◌, refl, ◌∙◌, inl, inr, true, ◌&&◌, none, some, List, [], ◌∷◌,
  arith, leb, length, keep, All, Member, All-weaken, Bool-cases, Option-cases,
}
use opspilot_agent_platform.Prelude.Exec.{Result, ok, err}
use opspilot_agent_platform.Context.{
  ChatMessage, ContextError, budget_exceeded, PreparedContext, priority_of, marks_are_valid,
  embedded_images, lowest, remove_at, is_optional, is_mandatory, units, prepared, remove_until_fits,
  prepare_context,
}

-- Removing the lowest marked message, if there is one.
record Removes (ms : List ChatMessage) (p i : ℕ) : Type 0 where
  fewer : length (keep is_optional ms) ≡ suc (length (keep is_optional (remove_at i ms)))
  mandatory : keep is_mandatory (remove_at i ms) ≡ keep is_mandatory ms
  shorter : length ms ≡ suc (length (remove_at i ms))

lowest-none : (ms : List ChatMessage) → lowest ms ≡ none → keep is_mandatory ms ≡ ms
unfolding lowest
lowest-none [] h = refl
lowest-none (m ∷ ms) h = ground (arith, lowest-none ms, Option-cases (lowest ms))

at_head-Removes :
    (m : ChatMessage) (ms : List ChatMessage) (p : ℕ) → m.optional ≡ true → Removes (m ∷ ms) p 0
unfolding remove_at
at_head-Removes m ms p e = record {
  fewer = ground arith;
  mandatory = ground arith;
  shorter = ground arith;
}

in_tail-Removes :
    (m : ChatMessage) (ms : List ChatMessage) {p i : ℕ}
    → Removes ms p i
    → Removes (m ∷ ms) p (suc i)
unfolding remove_at
in_tail-Removes m ms r = record {
  fewer = ground (arith, r.fewer);
  mandatory = ground (arith, r.mandatory);
  shorter = ground (arith, r.shorter);
}

lowest-Removes : (ms : List ChatMessage) {p i : ℕ} → lowest ms ≡ some (p, i) → Removes ms p i
unfolding lowest
lowest-Removes [] h = ground arith
lowest-Removes (m ∷ ms) {p} {i} h = elim (Option-cases (lowest ms)) [
  | inl n ↦
      let e : m.optional ≡ true = ground arith in
      let first : 0 ≡ i = ground arith in rw⁻¹ first (at_head-Removes m ms p e)
  | inr ((q, j), n) ↦ elim (Bool-cases (m.optional && leb (priority_of m.priority) q)) [
    | inl here ↦
        let e : m.optional ≡ true = ground arith in
        let first : 0 ≡ i = ground arith in rw⁻¹ first (at_head-Removes m ms p e)
    | inr later ↦
        let same : q ≡ p = ground arith in
        let next : suc j ≡ i = ground arith in
        rw⁻¹ (same, next) (in_tail-Removes m ms (lowest-Removes ms n))
  ]
]

remove_at-All :
    (P : ChatMessage → Type 0) (i : ℕ) (ms : List ChatMessage) → All P ms → All P (remove_at i ms)
unfolding remove_at
remove_at-All P i [] h = tt
remove_at-All P zero (m ∷ ms) (a, h) = h
remove_at-All P (suc i) (m ∷ ms) (a, h) = (a, remove_at-All P i ms h)

-- What the loop gives, from messages that are left of `all`: they fit, with every message that is not
-- marked, in order; or not even those fit, and nothing marked is left.
pub data LoopCase (estimate : List ChatMessage → ℕ) (image_count output_tokens window : ℕ)
    (all ms : List ChatMessage) (removed : ℕ) (r : Result ContextError PreparedContext)
    : Type 0 where
  fits :
      (kept : List ChatMessage) (n : ℕ)
      → r ≡ ok (prepared estimate image_count output_tokens kept (removed + n))
      → units estimate image_count kept + output_tokens ≤ window
      → keep is_mandatory kept ≡ keep is_mandatory ms
      → All (λ m. Member m all) kept
      → length ms ≡ length kept + n
      → LoopCase estimate image_count output_tokens window all ms removed r
  exceeds :
      r ≡ err budget_exceeded
      → window < units estimate image_count (keep is_mandatory ms) + output_tokens
      → LoopCase estimate image_count output_tokens window all ms removed r

module _ (estimate : List ChatMessage → ℕ) (image_count output_tokens window : ℕ)
    (all : List ChatMessage) where
  removed_more :
      (ms : List ChatMessage) (removed p i : ℕ) (r : Result ContextError PreparedContext)
      → Removes ms p i
      → LoopCase estimate image_count output_tokens window all (remove_at i ms) (removed + 1) r
      → LoopCase estimate image_count output_tokens window all ms removed r
  removed_more ms removed p i r k (fits kept n e l m a c) =
      let more : (removed + 1) + n ≡ removed + (n + 1) = omega arith in
      fits kept (n + 1) (rw⁻¹ more e) l (m ∙ k.mandatory) a (omega (arith, c, k.shorter))
  removed_more ms removed p i r k (exceeds e l) = exceeds e (rw⁻¹ k.mandatory l)

  loop-cases :
      (fuel : ℕ) (ms : List ChatMessage) (removed : ℕ)
      → length (keep is_optional ms) < fuel
      → All (λ m. Member m all) ms
      → LoopCase estimate image_count output_tokens window all ms removed
          (remove_until_fits estimate image_count output_tokens window fuel ms removed)
  unfolding remove_until_fits
  loop-cases zero ms removed l a = absurd (omega (arith, l))
  loop-cases (suc fuel) ms removed l a =
      elim (Bool-cases (leb (units estimate image_count ms + output_tokens) window)) [
        | inl within ↦
            let none_more : removed + 0 ≡ removed = omega arith in
            fits ms 0 (rw none_more (ground arith)) (ground arith) refl a (omega arith)
        | inr over ↦ elim (Option-cases (lowest ms)) [
          | inl n ↦ exceeds (ground arith) (rw (lowest-none ms n) (ground arith))
          | inr ((p, i), n) ↦
              let k = lowest-Removes ms n in
              let rest =
                loop-cases fuel (remove_at i ms) (removed + 1) (omega (arith, l, k.fewer))
                  (remove_at-All (λ m. Member m all) i ms a) in
              removed_more ms removed p i _ k (rw (over, n) rest)
        ]
      ]

All-members : (ms : List ChatMessage) → All (λ m. Member m ms) ms
All-members [] = tt
All-members (m ∷ ms) = (
  inl refl,
  All-weaken (λ x. Member x ms) (λ x. Member x (m ∷ ms)) ms (λ x k. inr k) (All-members ms),
)

-- With a valid budget and valid marks, a conversation is prepared or refused for good reason. If it
-- is prepared, it fits the window, every message kept was given, every unmarked one is kept in order,
-- and the count of removed messages is right. It is refused only if the unmarked messages alone do
-- not fit; the loop always ends.
pub prepare_context_cases :
    (estimate : List ChatMessage → ℕ) (image_count output_tokens window : ℕ) (ms : List ChatMessage)
    → 1 ≤ output_tokens
    → 1 ≤ window
    → marks_are_valid ms ≡ true
    → LoopCase estimate
        (max image_count (embedded_images ms))
        output_tokens
        window
        ms
        ms
        0
        (prepare_context estimate image_count output_tokens window ms)
unfolding prepare_context
prepare_context_cases estimate image_count output_tokens window ms o w v =
    let images = max image_count (embedded_images ms) in
    let fuel = suc (length (keep is_optional ms)) in
    let same : prepare_context estimate image_count output_tokens window ms
        ≡ remove_until_fits estimate images output_tokens window fuel ms 0 =
      ground arith in
    rw same
      (loop-cases estimate images output_tokens window ms fuel ms 0 (omega arith) (All-members ms))

-- The message that is removed has the lowest priority of all marked messages that are left.
pub lowest_is_least :
    (ms : List ChatMessage) {p i : ℕ}
    → lowest ms ≡ some (p, i)
    → All (λ m. m.optional ≡ true → p ≤ priority_of m.priority) ms
unfolding lowest
lowest_is_least [] h = tt
lowest_is_least (m ∷ ms) {p} {i} h = elim (Option-cases (lowest ms)) [
  | inl n ↦ ((λ e. ground arith), unmarked ms n)
  | inr ((q, j), n) ↦
      let rest = lowest_is_least ms n in
      (
        (λ e. ground arith),
        All-weaken (λ m. m.optional ≡ true → q ≤ priority_of m.priority)
            (λ m. m.optional ≡ true → p ≤ priority_of m.priority) ms
            (λ x k e. omega (arith, k e, below n)) rest,
      )
]
  where
    below : {q j : ℕ} → lowest ms ≡ some (q, j) → p ≤ q
    below n = ground arith

    unmarked :
        (xs : List ChatMessage)
        → lowest xs ≡ none
        → All (λ m. m.optional ≡ true → p ≤ priority_of m.priority) xs
    unmarked [] n = tt
    unmarked (x ∷ xs) n = elim (Option-cases (lowest xs)) [
      | inl k ↦ ((λ e. ground arith), unmarked xs k)
      | inr (q, k) ↦ ((λ e. ground arith), absurd (ground arith))
    ]
