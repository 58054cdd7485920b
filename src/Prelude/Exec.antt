-- ===== src/Prelude/Exec.antt =====
-- Methods that change an object and may raise. The state comes back after a raise too, since what
-- was written before it stays written.
use mathlib.Core.Path.{◌≡◌, refl}
use mathlib.Core.Bool.{Bool, true, false}
use mathlib.Core.Option.{Option, none, some}

pub data Result {ℓ κ} (E : Type ℓ) (A : Type κ) : Type (ℓ ⊔ κ) where
  ok : A → Result E A
  err : E → Result E A

-- `S → …` in the order of a method call: the object, then what it returns with the object.
abbrev pub Exec : Type 0 → Type 0 → Type 0 → Type 0
Exec E S A = S → Result E A × S

module _ {E S A : Type 0} where
  abbrev pub pure : A → Exec E S A
  pure a s = (ok a, s)

  abbrev pub raise : E → Exec E S A
  raise e s = (err e, s)

  abbrev pub lift : Result E A → Exec E S A
  lift r s = (r, s)

  abbrev pub gets : (S → A) → Exec E S A
  gets f s = (ok (f s), s)

  abbrev pub or_raise : Option A → E → Exec E S A
  or_raise none e s = (err e, s)
  or_raise (some a) e s = (ok a, s)

module _ {E S : Type 0} where
  abbrev pub modify : (S → S) → Exec E S (Unit {0})
  modify f s = (ok tt, f s)

  abbrev pub raise_if : Bool → E → Exec E S (Unit {0})
  raise_if true e s = (err e, s)
  raise_if false e s = (ok tt, s)

infixl 10 ◌>>=◌ ◌>>◌
abbrev pub ◌>>=◌ : {E S A B : Type 0} → Exec E S A → (A → Exec E S B) → Exec E S B
◌>>=◌ m f s = let (r, s') = m s in elim r [ ok a ↦ f a s' | err e ↦ (err e, s') ]

abbrev pub ◌>>◌ : {E S A B : Type 0} → Exec E S A → Exec E S B → Exec E S B
m >> n = m >>= λ _. n

-- A method that keeps a property of the object, whether it returns or raises.
abbrev pub Preserves : {E S A : Type 0} → (S → Type 0) → Exec E S A → Type 0
Preserves {S = S} P m = (s : S) → P s → P (m s).1

module _ {E S : Type 0} (P : S → Type 0) where
  pub Preserves-or_raise : {A : Type 0} (o : Option A) (e : E) → Preserves P (or_raise {S = S} o e)
  Preserves-or_raise none e s h = h
  Preserves-or_raise (some a) e s h = h

  pub Preserves-raise_if : (b : Bool) (e : E) → Preserves P (raise_if {S = S} b e)
  Preserves-raise_if true e s h = h
  Preserves-raise_if false e s h = h

  pub Preserves_bind :
      {A B : Type 0} (m : Exec E S A) (f : A → Exec E S B)
      → Preserves P m
      → ((a : A) → Preserves P (f a))
      → Preserves P (m >>= f)
  Preserves_bind {A} {B} m f h k s p = go (m s) (h s p)
    where
      continue : Result E A × S → Result E B × S
      continue (r, s') = elim r [ ok a ↦ f a s' | err e ↦ (err e, s') ]

      go : (r : Result E A × S) → P r.1 → P (continue r).1
      go (ok a, s') p' = k a s' p'
      go (err e, s') p' = p'

-- What holds after a chain holds after each way in which its first part can end.
module _ {κ} {E S A B : Type 0} (m : Exec E S A) (f : A → Exec E S B) (s : S)
    (Q : Result E B × S → Type κ) where
  pub bind_rule :
      ((a : A) (s' : S) → m s ≡ (ok a, s') → Q (f a s'))
      → ((e : E) (s' : S) → m s ≡ (err e, s') → Q (err e, s'))
      → Q ((m >>= f) s)
  bind_rule h k = go (m s) refl
    where
      continue : Result E A × S → Result E B × S
      continue (r, s') = elim r [ ok a ↦ f a s' | err e ↦ (err e, s') ]

      go : (o : Result E A × S) → m s ≡ o → Q (continue o)
      go (ok a, s') q = h a s' q
      go (err e, s') q = k e s' q
