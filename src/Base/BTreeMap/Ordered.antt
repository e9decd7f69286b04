-- ===== src/Base/BTreeMap/Ordered.antt =====
-- Removal keeps the order of a map, and an insertion of what is there changes nothing.
use mathlib.Core.Path.{◌≡◌}
use mathlib.Core.Option.{some}
use mathlib.Core.List.{[], ◌∷◌}
use native.Mathlib.Omega.{arith}
use journey_dynamics.Base.Order.{Ord}
use journey_dynamics.Base.BTreeMap.{
  BTreeMap, get, insert, remove, IsAfter, IsOrdered, IsAfter-trans, get-IsAfter,
}

module _ {ℓ κ} {K : Type ℓ} {V : Type κ} ⦃o : Ord K⦄ where
  IsAfter-remove : (k j : K) (m : BTreeMap K V) → IsAfter k m → IsAfter k (remove j m)
  unfolding remove
  IsAfter-remove k j [] a = tt
  IsAfter-remove k j ((i, v) ∷ m) a = ground (arith, IsAfter-remove k j m a.1)

  pub remove-IsOrdered : (k : K) (m : BTreeMap K V) → IsOrdered m → IsOrdered (remove k m)
  unfolding remove
  remove-IsOrdered k [] h = tt
  remove-IsOrdered k ((j, v) ∷ m) h =
      ground (arith, IsAfter-remove j k m h.0, remove-IsOrdered k m h.1)

  pub insert_same :
      (k : K) (v : V) (m : BTreeMap K V) → IsOrdered m → get k m ≡ some v → insert k v m ≡ m
  unfolding insert get
  insert_same k v [] h e = cc
  insert_same k v ((j, w) ∷ m) h e =
      ground (arith, o.cmp_eq k j, IsAfter-trans k j m, get-IsAfter k m, insert_same k v m h.1)
