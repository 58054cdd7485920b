-- ===== src/Prelude/Dict.antt =====
-- Python's `dict`, as an association list in insertion order.
use mathlib.Core.Path.{◌≡◌, refl, ap}
use mathlib.Core.Logic.{◌≢◌, ◌↔◌, ◌⊎◌, inl, inr}
use mathlib.Core.Bool.{Bool, true, false, ◌&&◌}
use mathlib.Core.Option.{Option, none, some}
use mathlib.Core.List.{List, [], ◌∷◌}
use native.Mathlib.Omega.{arith}
use opspilot_agent_platform.Prelude.Lists.{All}
use opspilot_agent_platform.Prelude.Tests.{Eq, Bool-cases, ◌==◌, if◌then◌else◌}

abbrev pub Dict {ℓ} : Type 0 → Type ℓ → Type ℓ
Dict K V = List (K × V)

module _ {ℓ} {K : Type 0} {V : Type ℓ} ⦃e : Eq K⦄ where
  -- `d.get(k)`
  unfoldable pub lookup : K → Dict K V → Option V
  lookup k [] = none
  lookup k ((j, v) ∷ d) = if j == k then some v else lookup k d

  -- `d[k] = v`
  unfoldable pub insert : K → V → Dict K V → Dict K V
  insert k v [] = (k, v) ∷ []
  insert k v ((j, w) ∷ d) = if j == k then (j, v) ∷ d else (j, w) ∷ insert k v d

  pub lookup-insert :
      (k j : K) (v : V) (d : Dict K V)
      → lookup j (insert k v d) ≡ (if k == j then some v else lookup j d)
  unfolding lookup insert
  lookup-insert k j v [] = refl
  lookup-insert k j v ((i, w) ∷ d) =
      ground (arith, e.test_iff k j, e.test_iff i k, e.test_iff i j, lookup-insert k j v d)

  pub lookup-insert_self : (k : K) (v : V) (d : Dict K V) → lookup k (insert k v d) ≡ some v
  lookup-insert_self k v d = ground (arith, lookup-insert k k v d, e.test_iff k k)

  pub lookup-insert_ne :
      (k j : K) (v : V) (d : Dict K V) → k ≢ j → lookup j (insert k v d) ≡ lookup j d
  lookup-insert_ne k j v d h = ground (arith, lookup-insert k j v d, e.test_iff k j)

module _ {ℓ} {K : Type 0} {V : Type ℓ} ⦃e : Eq K⦄ where
  -- What is found after a write was written by it, or was there before under another key.
  pub lookup-insert_cases :
      (k j : K) (v : V) {w : V} (d : Dict K V)
      → lookup j (insert k v d) ≡ some w
      → ((k ≡ j) × (v ≡ w)) ⊎ ((k ≢ j) × (lookup j d ≡ some w))
  lookup-insert_cases k j v d h = elim (Bool-cases (k == j)) [
    | inl same ↦ inl (ground (arith, lookup-insert k j v d, e.test_iff k j))
    | inr differs ↦
        inr ((λ q. ground (arith, e.test_iff k j)), ground (arith, lookup-insert k j v d))
  ]

-- `k in d`
abbrev pub is_some {ℓ} : {A : Type ℓ} → Option A → Bool
is_some none = false
is_some (some _) = true

-- Tuples as keys.
pub pair_beq : {A B : Type 0} ⦃a : Eq A⦄ ⦃b : Eq B⦄ → A × B → A × B → Bool
pair_beq (x, y) (z, w) = x == z && y == w

pub pair_beq_iff :
    {A B : Type 0} ⦃a : Eq A⦄ ⦃b : Eq B⦄ (p q : A × B) → (pair_beq p q ≡ true) ↔ (p ≡ q)
unfolding pair_beq
pair_beq_iff ⦃a⦄ ⦃b⦄ (x, y) (z, w) = (
  (λ h. ground (arith, a.test_iff x z, b.test_iff y w)),
  (λ h. ground (arith, a.test_iff x z, b.test_iff y w, ap (λ p. p.0) h, ap (λ p. p.1) h)),
)

instance abbrev pub pair_eq : {A B : Type 0} ⦃a : Eq A⦄ ⦃b : Eq B⦄ → Eq (A × B)
pair_eq = record { test = pair_beq; test_iff = pair_beq_iff }

-- What holds of every entry.
module _ {ℓ κ} {K : Type 0} {V : Type ℓ} ⦃e : Eq K⦄ (P : K × V → Type κ) where
  pub All-insert : (k : K) (v : V) (d : Dict K V) → P (k, v) → All P d → All P (insert k v d)
  unfolding insert
  All-insert k v [] p h = (p, tt)
  All-insert k v ((j, w) ∷ d) p (q, h) = elim (Bool-cases (j == k)) [
    | inl same ↦ rw (same, (e.test_iff j k).0 same) (p, h)
    | inr differs ↦ rw differs (q, All-insert k v d p h)
  ]

  pub All-lookup : (k : K) {v : V} (d : Dict K V) → All P d → lookup k d ≡ some v → P (k, v)
  unfolding lookup
  All-lookup k [] h f = ground arith
  All-lookup k {v} ((j, w) ∷ d) (q, h) f = elim (Bool-cases (j == k)) [
    | inl same ↦ let e' : w ≡ v = ground arith in rw⁻¹ ((e.test_iff j k).0 same, e') q
    | inr differs ↦ All-lookup k d h (ground arith)
  ]
