-- ===== src/Base/Partial.antt =====
-- Code that may panic: `none` is the panic of an `unwrap` or an `expect`.
use mathlib.Core.Path.{◌≡◌, refl}
use mathlib.Core.Option.{Option, none, some}
use journey_dynamics.Base.Results.{Result, ok, err}

module _ {ℓ κ} {A : Type ℓ} {B : Type κ} where
  infixl 5 ◌>>=◌
  abbrev pub ◌>>=◌ : Option A → (A → Option B) → Option B
  none >>= f = none
  some a >>= f = f a

  pub bind-eq-some :
      (o : Option A) (f : A → Option B) {b : B}
      → (o >>= f) ≡ some b
      → (a : A) × (o ≡ some a) × (f a ≡ some b)
  bind-eq-some none f h = cc
  bind-eq-some (some a) f h = (a, refl, h)

module _ {ℓ κ} {E : Type κ} {A : Type ℓ} where
  abbrev pub unwrap : Result E A → Option A
  unwrap (ok a) = some a
  unwrap (err e) = none

  pub unwrap-eq-some : (r : Result E A) {a : A} → unwrap r ≡ some a → r ≡ ok a
  unwrap-eq-some (ok a) h = cc
  unwrap-eq-some (err e) h = cc

pub some-eq-some {ℓ} : {A : Type ℓ} {a b : A} → some a ≡ some b → a ≡ b
some-eq-some h = cc
