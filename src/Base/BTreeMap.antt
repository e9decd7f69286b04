-- ===== src/Base/BTreeMap.antt =====
-- `std::collections::BTreeMap` as the list of its entries in ascending order of the keys, which
-- is the order that iteration has, and `serde_json::Map` alike. A lookup compares every key, so
-- its laws need no order; the order is the invariant `IsOrdered`.
pub mod Ordered
use Prim.Native.Nat.Ordering.{lt, eq, gt}
use mathlib.Core.Path.{◌≡◌, refl}
use mathlib.Core.Logic.{◌≢◌}
use mathlib.Core.Option
use mathlib.Core.Option.{Option, none, some}
use mathlib.Core.List.{List, [], ◌∷◌, map}
use native.Mathlib.Omega.{arith}
use journey_dynamics.Base.Order.{Ord}
use journey_dynamics.Base.Tests.{All}

abbrev pub BTreeMap {ℓ κ} : Type ℓ → Type κ → Type (ℓ ⊔ κ)
BTreeMap K V = List (K × V)

module _ {ℓ κ} {K : Type ℓ} {V : Type κ} where
  abbrev pub keys : BTreeMap K V → List K
  keys = map (λ e. e.0)

  abbrev pub values : BTreeMap K V → List V
  values = map (λ e. e.1)

module _ {ℓ κ} {K : Type ℓ} {V : Type κ} ⦃o : Ord K⦄ where
  unfoldable pub get : K → BTreeMap K V → Option V
  get k [] = none
  get k ((j, v) ∷ m) = elim (o.cmp k j) [ eq ↦ some v | _ ↦ get k m ]

  unfoldable pub insert : K → V → BTreeMap K V → BTreeMap K V
  insert k v [] = (k, v) ∷ []
  insert k v ((j, w) ∷ m) = elim (o.cmp k j) [
    | lt ↦ (k, v) ∷ (j, w) ∷ m
    | eq ↦ (k, v) ∷ m
    | gt ↦ (j, w) ∷ insert k v m
  ]

  unfoldable pub remove : K → BTreeMap K V → BTreeMap K V
  remove k [] = []
  remove k ((j, v) ∷ m) = elim (o.cmp k j) [ eq ↦ remove k m | _ ↦ (j, v) ∷ remove k m ]

  -- `get_mut` and a change through it; a missing key changes nothing.
  unfoldable pub modify : K → (V → V) → BTreeMap K V → BTreeMap K V
  modify k f [] = []
  modify k f ((j, v) ∷ m) = elim (o.cmp k j) [
    | eq ↦ (j, f v) ∷ modify k f m
    | _ ↦ (j, v) ∷ modify k f m
  ]

  pub get-insert_self : (k : K) (v : V) (m : BTreeMap K V) → get k (insert k v m) ≡ some v
  unfolding get insert
  get-insert_self k v [] = ground (arith, o.cmp_self k)
  get-insert_self k v ((j, w) ∷ m) = ground (arith, o.cmp_self k, get-insert_self k v m)

  pub get-insert_ne : (k j : K) (v : V) (m : BTreeMap K V) → k ≢ j → get k (insert j v m) ≡ get k m
  unfolding get insert
  get-insert_ne k j v [] h = ground (arith, o.cmp_eq k j)
  get-insert_ne k j v ((i, w) ∷ m) h =
      ground (arith, o.cmp_eq k j, o.cmp_eq j i, get-insert_ne k j v m h)

  pub get-remove_self : (k : K) (m : BTreeMap K V) → get k (remove k m) ≡ none
  unfolding get remove
  get-remove_self k [] = refl
  get-remove_self k ((j, v) ∷ m) = ground (arith, get-remove_self k m)

  pub get-remove_ne : (k j : K) (m : BTreeMap K V) → k ≢ j → get k (remove j m) ≡ get k m
  unfolding get remove
  get-remove_ne k j [] h = refl
  get-remove_ne k j ((i, v) ∷ m) h =
      ground (arith, o.cmp_eq j i, o.cmp_eq k i, get-remove_ne k j m h)

  pub get-modify_self :
      (k : K) (f : V → V) (m : BTreeMap K V) → get k (modify k f m) ≡ Option.map f (get k m)
  unfolding get modify
  get-modify_self k f [] = refl
  get-modify_self k f ((j, w) ∷ m) = ground (arith, get-modify_self k f m)

  pub get-modify_ne :
      (k j : K) (f : V → V) (m : BTreeMap K V) → k ≢ j → get k (modify j f m) ≡ get k m
  unfolding get modify
  get-modify_ne k j f [] h = refl
  get-modify_ne k j f ((i, w) ∷ m) h =
      ground (arith, o.cmp_eq j i, o.cmp_eq k i, get-modify_ne k j f m h)

  -- `values_mut`, as a change of every value.
  unfoldable pub modify_all : (V → V) → BTreeMap K V → BTreeMap K V
  modify_all f [] = []
  modify_all f ((j, v) ∷ m) = (j, f v) ∷ modify_all f m

  pub get-modify_all :
      (k : K) (f : V → V) (m : BTreeMap K V) → get k (modify_all f m) ≡ Option.map f (get k m)
  unfolding get modify_all
  get-modify_all k f [] = refl
  get-modify_all k f ((j, w) ∷ m) = ground (arith, get-modify_all k f m)

  -- Every key stands after `k`.
  abbrev pub IsAfter : K → BTreeMap K V → Type ℓ
  IsAfter k [] = Unit
  IsAfter k ((j, _) ∷ m) = (o.cmp k j ≡ lt) × IsAfter k m

  abbrev pub IsOrdered : BTreeMap K V → Type ℓ
  IsOrdered [] = Unit
  IsOrdered ((k, _) ∷ m) = IsAfter k m × IsOrdered m

  pub IsAfter-trans : (k j : K) (m : BTreeMap K V) → o.cmp k j ≡ lt → IsAfter j m → IsAfter k m
  IsAfter-trans k j [] h a = tt
  IsAfter-trans k j ((i, v) ∷ m) h a = (o.cmp_trans k j i h a.0, IsAfter-trans k j m h a.1)

  IsAfter-insert :
      (k j : K) (v : V) (m : BTreeMap K V) → o.cmp k j ≡ lt → IsAfter k m → IsAfter k (insert j v m)
  unfolding insert
  IsAfter-insert k j v [] h a = (h, tt)
  IsAfter-insert k j v ((i, w) ∷ m) h a = ground (arith, IsAfter-insert k j v m h a.1)

  pub insert-IsOrdered : (k : K) (v : V) (m : BTreeMap K V) → IsOrdered m → IsOrdered (insert k v m)
  unfolding insert
  insert-IsOrdered k v [] h = (tt, tt)
  insert-IsOrdered k v ((j, w) ∷ m) h = ground (
    arith,
    o.cmp_eq k j,
    o.cmp_flip k j,
    IsAfter-trans k j m,
    IsAfter-insert j k v m,
    insert-IsOrdered k v m h.1,
  )

  pub get-IsAfter : (k : K) (m : BTreeMap K V) → IsAfter k m → get k m ≡ none
  unfolding get
  get-IsAfter k [] a = refl
  get-IsAfter k ((j, v) ∷ m) a = ground (arith, get-IsAfter k m)

  pub get-cons_self : (k : K) (v : V) (m : BTreeMap K V) → get k ((k, v) ∷ m) ≡ some v
  unfolding get
  get-cons_self k v m = ground (arith, o.cmp_self k)

  pub get-cons_ne : (k j : K) (v : V) (m : BTreeMap K V) → k ≢ j → get k ((j, v) ∷ m) ≡ get k m
  unfolding get
  get-cons_ne k j v m h = ground (arith, o.cmp_eq k j)

  -- In an ordered map every entry is what a lookup of its key finds.
  abbrev pub Found : BTreeMap K V → BTreeMap K V → Type κ
  Found whole = All (λ e. get e.0 whole ≡ some e.1)

  Found-cons :
      (k : K) (v : V) (whole m : BTreeMap K V)
      → IsAfter k m
      → Found whole m
      → Found ((k, v) ∷ whole) m
  unfolding get
  Found-cons k v whole [] a f = tt
  Found-cons k v whole ((j, w) ∷ m) a f =
      (ground (arith, f.0, o.cmp_eq j k, o.cmp_self k, a.0), Found-cons k v whole m a.1 f.1)

  pub IsOrdered-Found : (m : BTreeMap K V) → IsOrdered m → Found m m
  IsOrdered-Found [] h = tt
  IsOrdered-Found ((k, v) ∷ m) h =
      (get-cons_self k v m, Found-cons k v m m h.0 (IsOrdered-Found m h.1))

pub get-nil {ℓ κ} :
    {K : Type ℓ} {V : Type κ} ⦃o : Ord K⦄ (k : K) → get {K = K} {V = V} ⦃o = o⦄ k [] ≡ none
unfolding get
get-nil k = refl
