-- ===== src/Prelude/Tables.antt =====
-- Rows of a table in the order of their insertion: SELECT, UPDATE, DELETE and COUNT with a WHERE.
use Prim.Native.Nat.{ℕ, ◌+◌}
use mathlib.Core.Path.{◌≡◌, refl}
use mathlib.Core.Bool.{Bool, true, false}
use mathlib.Core.Option.{Option, none, some}
use mathlib.Core.Logic.{inl, inr}
use mathlib.Core.List.{List, [], ◌∷◌, ◌++◌}
use native.Mathlib.Omega.{arith}
use opspilot_agent_platform.Prelude.Tests.{if◌then◌else◌, Bool-cases}
use opspilot_agent_platform.Prelude.Lists.{All}

module _ {ℓ} {A : Type ℓ} where
  -- The first row, as `fetchone` gives it.
  unfoldable pub first : (A → Bool) → List A → Option A
  first p [] = none
  first p (x ∷ xs) = if p x then some x else first p xs

  unfoldable pub update_where : (A → Bool) → (A → A) → List A → List A
  update_where p f [] = []
  update_where p f (x ∷ xs) = (if p x then f x else x) ∷ update_where p f xs

  unfoldable pub count_where : (A → Bool) → List A → ℕ
  count_where p [] = 0
  count_where p (x ∷ xs) = (if p x then 1 else 0) + count_where p xs

  pub first-append :
      (p : A → Bool) (xs ys : List A) (x : A) → first p xs ≡ some x → first p (xs ++ ys) ≡ some x
  unfolding first
  first-append p [] ys x h = ground arith
  first-append p (y ∷ xs) ys x h = ground (arith, first-append p xs ys x)

  pub first-append_new :
      (p : A → Bool) (xs : List A) (x : A)
      → first p xs ≡ none
      → p x ≡ true
      → first p (xs ++ x ∷ []) ≡ some x
  unfolding first
  first-append_new p [] x h q = ground arith
  first-append_new p (y ∷ xs) x h q = ground (arith, first-append_new p xs x)

  abbrev pub updated : (A → Bool) → (A → A) → Option A → Option A
  updated q f none = none
  updated q f (some x) = some (if q x then f x else x)

  -- A search finds the updated row, if the update does not change what is searched for.
  pub first-update :
      (p q : A → Bool) (f : A → A) (xs : List A)
      → ((x : A) → p (f x) ≡ p x)
      → first p (update_where q f xs) ≡ updated q f (first p xs)
  unfolding first update_where
  first-update p q f [] same = refl
  first-update p q f (x ∷ xs) same = ground (arith, same x, first-update p q f xs same)

  -- A found row passes the test.
  pub first_passes : (p : A → Bool) (xs : List A) (x : A) → first p xs ≡ some x → p x ≡ true
  unfolding first
  first_passes p [] x h = ground arith
  first_passes p (y ∷ xs) x h = ground (arith, first_passes p xs x)

  pub count-append :
      (p : A → Bool) (xs ys : List A)
      → count_where p (xs ++ ys) ≡ count_where p xs + count_where p ys
  unfolding count_where
  count-append p [] ys = ground arith
  count-append p (x ∷ xs) ys = ground (arith, count-append p xs ys)

  pub count-update :
      (p q : A → Bool) (f : A → A) (xs : List A)
      → ((x : A) → p (f x) ≡ p x)
      → count_where p (update_where q f xs) ≡ count_where p xs
  unfolding count_where update_where
  count-update p q f [] same = refl
  count-update p q f (x ∷ xs) same = ground (arith, same x, count-update p q f xs same)

-- What holds of every row gives what holds of every row after the update.
pub All-update {ℓ κ ι} :
    {A : Type ℓ} (P : A → Type κ) (Q : A → Type ι) (q : A → Bool) (f : A → A) (xs : List A)
    → ((x : A) → q x ≡ true → P x → Q (f x))
    → ((x : A) → q x ≡ false → P x → Q x)
    → All P xs
    → All Q (update_where q f xs)
unfolding update_where
All-update P Q q f [] k l h = tt
All-update P Q q f (x ∷ xs) k l (p, h) = elim (Bool-cases (q x)) [
  | inl passes ↦ rw passes (k x passes p, All-update P Q q f xs k l h)
  | inr fails ↦ rw fails (l x fails p, All-update P Q q f xs k l h)
]

pub All-first {ℓ κ} :
    {A : Type ℓ} (P : A → Type κ) (p : A → Bool) (xs : List A) {x : A}
    → All P xs
    → first p xs ≡ some x
    → P x
unfolding first
All-first P p [] h e = ground arith
All-first P p (y ∷ xs) {x} (k, h) e = elim (Bool-cases (p y)) [
  | inl found ↦ let same : y ≡ x = ground arith in rw⁻¹ same k
  | inr other ↦ All-first P p xs h (ground arith)
]

-- Where no row passes, none is found.
pub first-none {ℓ} :
    {A : Type ℓ} (p : A → Bool) (xs : List A) → All (λ x. p x ≡ false) xs → first p xs ≡ none
unfolding first
first-none p [] h = refl
first-none p (x ∷ xs) (e, h) = ground (arith, first-none p xs h)

-- ORDER BY: the rows sorted by a test that says whether one comes before another.
module _ {ℓ} {A : Type ℓ} where
  insert_sorted : (A → A → Bool) → A → List A → List A
  insert_sorted before x [] = x ∷ []
  insert_sorted before x (y ∷ ys) =
      let rest = insert_sorted before x ys in if before y x then y ∷ rest else x ∷ y ∷ ys

  unfoldable pub order_by : (A → A → Bool) → List A → List A
  unfolding insert_sorted
  order_by before [] = []
  order_by before (x ∷ xs) = insert_sorted before x (order_by before xs)
