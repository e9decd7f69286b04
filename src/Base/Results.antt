-- ===== src/Base/Results.antt =====
-- `Result<A, E>`, with the bind that `?` is.
use mathlib.Core.Path.{◌≡◌, refl, subst}
use mathlib.Core.Option.{Option, none, some}
use mathlib.Core.Logic.{◌⊎◌, inl, inr}
use mathlib.Core.Bool.{Bool, true, false}

pub data Result {ℓ κ} (E : Type κ) (A : Type ℓ) : Type (ℓ ⊔ κ) where
  ok : A → Result E A
  err : E → Result E A

module _ {ℓ κ μ} {E : Type μ} {A : Type ℓ} {B : Type κ} where
  infixl 5 ◌>>=◌
  abbrev pub ◌>>=◌ : Result E A → (A → Result E B) → Result E B
  ok a >>= f = f a
  err e >>= f = err e

module _ {ℓ μ} {E : Type μ} {B : Type ℓ} where
  infixl 5 ◌>>◌
  abbrev pub ◌>>◌ : Result E (Unit {0}) → Result E B → Result E B
  ok _ >> k = k
  err e >> k = err e

module _ {ℓ κ μ} {E : Type κ} {F : Type μ} {A : Type ℓ} where
  abbrev pub map_err : (E → F) → Result E A → Result F A
  map_err f (ok a) = ok a
  map_err f (err e) = err (f e)

-- `if test { return Err(e) }`
abbrev pub bail_if {μ} : {E : Type μ} → Bool → E → Result E (Unit {0})
bail_if true e = err e
bail_if false e = ok tt

module _ {ℓ μ} {E : Type μ} {A : Type ℓ} where
  abbrev pub ok_or : Option A → E → Result E A
  ok_or none e = err e
  ok_or (some a) e = ok a

  pub Result-cases : (r : Result E A) → ((a : A) × (r ≡ ok a)) ⊎ ((e : E) × (r ≡ err e))
  Result-cases (ok a) = inl (a, refl)
  Result-cases (err e) = inr (e, refl)

module _ {ℓ κ μ} {E : Type μ} {A : Type ℓ} {B : Type κ} where
  -- Inversion of a `?` that went through.
  pub bind-eq-ok :
      (r : Result E A) (f : A → Result E B) {b : B}
      → (r >>= f) ≡ ok b
      → (a : A) × (r ≡ ok a) × (f a ≡ ok b)
  bind-eq-ok (ok a) f h = (a, refl, h)
  bind-eq-ok (err e) f h = cc

module _ {ℓ μ} {E : Type μ} {B : Type ℓ} where
  pub then-eq-ok :
      (r : Result E (Unit {0})) (k : Result E B) {b : B}
      → (r >> k) ≡ ok b
      → (r ≡ ok tt) × (k ≡ ok b)
  then-eq-ok (ok tt) k h = (refl, h)
  then-eq-ok (err e) k h = cc

  pub bail_if-eq-ok :
      (b : Bool) (e : E) (k : Result E B) {x : B}
      → (bail_if b e >> k) ≡ ok x
      → (b ≡ false) × (k ≡ ok x)
  bail_if-eq-ok true e k h = cc
  bail_if-eq-ok false e k h = (refl, h)

module _ {ℓ κ μ} {E : Type κ} {F : Type μ} {A : Type ℓ} where
  pub map_err-eq-ok : (f : E → F) (r : Result E A) {a : A} → map_err f r ≡ ok a → r ≡ ok a
  map_err-eq-ok f (ok a) h = cc
  map_err-eq-ok f (err e) h = cc

module _ {ℓ κ} {E : Type κ} {A : Type ℓ} where
  pub ok-eq-ok : {a b : A} (r : Result E A) → r ≡ ok a → r ≡ ok b → a ≡ b
  ok-eq-ok (ok c) h k = cc
  ok-eq-ok (err e) h k = cc

module _ {ℓ κ μ} {E : Type μ} {A : Type ℓ} where
  -- What holds of a result that is there.
  abbrev pub Ensures : (A → Type κ) → Result E A → Type κ
  Ensures P (ok a) = P a
  Ensures P (err e) = Unit

  pub Ensures-ok : (P : A → Type κ) {a b : A} → ◌≡◌ {A = Result E A} (ok a) (ok b) → P a → P b
  Ensures-ok P h p = subst (Ensures P) h p
