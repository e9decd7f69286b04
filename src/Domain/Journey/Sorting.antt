-- ===== src/Domain/Journey/Sorting.antt =====
-- The partitions of `set_attributes`, made from the groups and sorted by their slot names.
use journey_dynamics.Base.{
  Bool, true, false, String, none, some, List, [], ◌∷◌, lt, eq, gt, All, ◌≡◌, refl, ◌⊎◌, inl, inr,
  ◌∙◌, sym, ap, ap₂, arith, text_ord, nat_ord, Ordering, key-cases, subst,
}
use journey_dynamics.Base.BTreeMap.{BTreeMap, get, get-nil, get-cons_self, get-cons_ne}
use journey_dynamics.Base.Partial.{some-eq-some}
use journey_dynamics.Json.{Uuid, Value, Changes, Crates}
use journey_dynamics.Domain.Schema.Destination.{to_subject, secret_at}
use journey_dynamics.Domain.Events.{SecretPartitionData}
use journey_dynamics.Domain.Journey.Handle.{
  partition_of, to_partitions, place, insert_by_ref, sort_by_ref,
}

-- Sorted by the name of the slot.
abbrev pub not_gt : Ordering → Bool
not_gt gt = false
not_gt lt = true
not_gt eq = true

abbrev pub Before : SecretPartitionData → List SecretPartitionData → Type 0
Before p [] = Unit
Before p (q ∷ qs) = not_gt (text_ord.cmp p.person_ref q.person_ref) ≡ true

abbrev pub IsSorted : List SecretPartitionData → Type 0
IsSorted [] = Unit
IsSorted (p ∷ ps) = Before p ps × IsSorted ps

pub Before-insert_by_ref :
    (p q : SecretPartitionData) (qs : List SecretPartitionData)
    → text_ord.cmp p.person_ref q.person_ref ≡ gt
    → Before q qs
    → Before q (insert_by_ref p qs)
unfolding insert_by_ref
Before-insert_by_ref p q [] g b = ground (arith, text_ord.cmp_flip p.person_ref q.person_ref)
Before-insert_by_ref p q (r ∷ qs) g b = ground (arith, text_ord.cmp_flip p.person_ref q.person_ref)

pub place-IsSorted :
    (o : Ordering) (p q : SecretPartitionData) (qs rest : List SecretPartitionData)
    → text_ord.cmp p.person_ref q.person_ref ≡ o
    → IsSorted (q ∷ qs)
    → (o ≡ gt → Before q rest)
    → IsSorted rest
    → IsSorted (place o p q qs rest)
place-IsSorted lt p q qs rest e s b r = (rw e refl, s)
place-IsSorted eq p q qs rest e s b r = (rw e refl, s)
place-IsSorted gt p q qs rest e s b r = (b refl, r)

pub insert_by_ref-IsSorted :
    (p : SecretPartitionData) (qs : List SecretPartitionData)
    → IsSorted qs
    → IsSorted (insert_by_ref p qs)
unfolding insert_by_ref
insert_by_ref-IsSorted p [] s = (tt, tt)
insert_by_ref-IsSorted p (q ∷ qs) s =
    place-IsSorted (text_ord.cmp p.person_ref q.person_ref) p q qs (insert_by_ref p qs) refl s
      (λ g. Before-insert_by_ref p q qs g s.0) (insert_by_ref-IsSorted p qs s.1)

pub sort_by_ref-IsSorted : (ps : List SecretPartitionData) → IsSorted (sort_by_ref ps)
unfolding sort_by_ref
sort_by_ref-IsSorted [] = tt
sort_by_ref-IsSorted (p ∷ ps) = insert_by_ref-IsSorted p (sort_by_ref ps) (sort_by_ref-IsSorted ps)

-- The sort keeps every partition and adds none.
module _ (P : SecretPartitionData → Type 0) where
  pub insert_by_ref-All :
      (p : SecretPartitionData) (qs : List SecretPartitionData)
      → P p
      → All P qs
      → All P (insert_by_ref p qs)
  unfolding insert_by_ref
  insert_by_ref-All p [] h k = (h, tt)
  insert_by_ref-All p (q ∷ qs) h k = ground (arith, insert_by_ref-All p qs h k.1)

  pub sort_by_ref-All : (ps : List SecretPartitionData) → All P ps → All P (sort_by_ref ps)
  unfolding sort_by_ref
  sort_by_ref-All [] h = tt
  sort_by_ref-All (p ∷ ps) h = insert_by_ref-All p (sort_by_ref ps) h.0 (sort_by_ref-All ps h.1)

  abbrev pub Any : List SecretPartitionData → Type 0
  Any [] = ⊥
  Any (p ∷ ps) = P p ⊎ Any ps

  pub place-Any :
      (o : Ordering) (p q : SecretPartitionData) (qs rest : List SecretPartitionData)
      → Any (p ∷ q ∷ qs)
      → (Any (p ∷ qs) → Any rest)
      → Any (place o p q qs rest)
  place-Any lt p q qs rest h f = h
  place-Any eq p q qs rest h f = h
  place-Any gt p q qs rest (inl h) f = inr (f (inl h))
  place-Any gt p q qs rest (inr (inl h)) f = inl h
  place-Any gt p q qs rest (inr (inr h)) f = inr (f (inr h))

  pub insert_by_ref-Any :
      (p : SecretPartitionData) (qs : List SecretPartitionData)
      → Any (p ∷ qs)
      → Any (insert_by_ref p qs)
  unfolding insert_by_ref
  insert_by_ref-Any p [] h = h
  insert_by_ref-Any p (q ∷ qs) h =
      place-Any (text_ord.cmp p.person_ref q.person_ref) p q qs (insert_by_ref p qs) h
        (insert_by_ref-Any p qs)

  pub sort_by_ref-Any : (ps : List SecretPartitionData) → Any ps → Any (sort_by_ref ps)
  unfolding sort_by_ref
  sort_by_ref-Any [] h = h
  sort_by_ref-Any (p ∷ ps) (inl h) = insert_by_ref-Any p (sort_by_ref ps) (inl h)
  sort_by_ref-Any (p ∷ ps) (inr h) =
      insert_by_ref-Any p (sort_by_ref ps) (inr (sort_by_ref-Any ps h))

-- A group is a partition, and a partition is a group.
pub Any-to_partitions :
    (c : Crates) (P : SecretPartitionData → Type 0) (refs : BTreeMap Uuid String) (u : Uuid)
    (group : Changes) (groups : BTreeMap Uuid Changes)
    → get u groups ≡ some group
    → P (partition_of c refs u group)
    → Any P (to_partitions c refs groups)
unfolding to_partitions
Any-to_partitions c P refs u group [] g h = cc (g, get-nil {V = Changes} u)
Any-to_partitions c P refs u group ((w, other) ∷ groups) g h = elim (key-cases u w) [
  | inl same ↦
      let found : some other ≡ some group =
        sym (get-cons_self w other groups) ∙ ap (λ k. get k ((w, other) ∷ groups)) (sym same) ∙ g in
      inl (subst P (ap₂ (partition_of c refs) same (sym (some-eq-some found))) h)
  | inr ne ↦
      inr (Any-to_partitions c P refs u group groups (sym (get-cons_ne u w other groups ne) ∙ g) h)
]

pub All-to_partitions :
    (c : Crates) (P : SecretPartitionData → Type 0) (refs : BTreeMap Uuid String)
    (groups : BTreeMap Uuid Changes)
    → All (λ e. P (partition_of c refs e.0 e.1)) groups
    → All P (to_partitions c refs groups)
unfolding to_partitions
All-to_partitions c P refs [] h = tt
All-to_partitions c P refs ((w, group) ∷ groups) h = (h.0, All-to_partitions c P refs groups h.1)

pub secret_at_self : (u : Uuid) (v : Value) → secret_at u (to_subject u) (some v) none ≡ some v
secret_at_self u v = ground arith
