-- ===== src/Domain/Journey/Slots.antt =====
-- The person slots of a journey: a slot stays bound to its subject, whatever
-- events follow.
use mathlib.Core.Option
use journey_dynamics.Base.{
  true, String, Option, none, some, List, [], ◌∷◌, ◌≡◌, refl, ◌∙◌, subst, inl, inr, arith, text_ord,
  key-cases,
}
use journey_dynamics.Base.Partial.{unwrap, bind-eq-some, some-eq-some}
use journey_dynamics.Domain.JsonPath.{assign_all}
use journey_dynamics.Base.BTreeMap.{
  BTreeMap, get, insert, modify, modify_all, get-insert_self, get-insert_ne, get-modify_self,
  get-modify_ne, get-modify_all,
}
use Prim.Native.String.{◌++◌ as text_append}
use journey_dynamics.Json.{Uuid, Crates}
use journey_dynamics.Domain.Events.{
  SecretPartitionData, JourneyEvent, person_captured, person_details_updated, subject_forgotten,
  attributes_set,
}
use journey_dynamics.Domain.Journey.{
  Journey, PersonSlot, slot_or_fresh, forget_slot, capture_slot, assign_secret, mirror_slot,
  prefixed_changes, apply_partition, apply_partitions, apply, apply_all,
}

-- What an event may do to a slot that is there: it stays, with its subject, and once forgotten it
-- is forgotten.
abbrev pub Keeps : Option PersonSlot → Option PersonSlot → Type 0
Keeps none after = Unit
Keeps (some slot) none = ⊥
Keeps (some slot) (some slot') =
    (slot'.subject_id ≡ slot.subject_id) × (slot.forgotten ≡ true → slot'.forgotten ≡ true)

Keeps-refl : (o : Option PersonSlot) → Keeps o o
Keeps-refl none = tt
Keeps-refl (some slot) = (refl, λ h. h)

Keeps-trans : (a b d : Option PersonSlot) → Keeps a b → Keeps b d → Keeps a d
Keeps-trans none b d h k = tt
Keeps-trans (some s) (some t) (some u) h k = (k.0 ∙ h.0, λ f. k.1 (h.1 f))
Keeps-trans (some s) none d h k = absurd h
Keeps-trans (some s) (some t) none h k = absurd k

-- The same for every slot of a journey.
abbrev pub KeepsSlots : BTreeMap String PersonSlot → BTreeMap String PersonSlot → Type 0
KeepsSlots before after = (r : String) → Keeps (get r before) (get r after)

insert-Keeps :
    (q : String) (slot : PersonSlot) (persons : BTreeMap String PersonSlot)
    → Keeps (get q persons) (some slot)
    → KeepsSlots persons (insert q slot persons)
insert-Keeps q slot persons h r = elim (key-cases r q) [
  | inl same ↦ rw (same, get-insert_self q slot persons) h
  | inr other ↦ rw (get-insert_ne r q slot persons other) (Keeps-refl (get r persons))
]

slot_or_fresh-Keeps :
    (o : Option PersonSlot) (u : Uuid) (name email phone : Option String)
    → Keeps o (some (record (slot_or_fresh o u) { name = name; email = email; phone = phone }))
slot_or_fresh-Keeps none u name email phone = tt
slot_or_fresh-Keeps (some slot) u name email phone = (refl, λ h. h)

capture_slot-Keeps :
    (q : String) (u : Uuid) (name email : String) (phone : Option String)
    (persons : BTreeMap String PersonSlot)
    → KeepsSlots persons (capture_slot q u name email phone persons)
unfolding capture_slot
capture_slot-Keeps q u name email phone persons =
    insert-Keeps q _ persons (slot_or_fresh-Keeps (get q persons) u (some name) (some email) phone)

-- A change of slots in place.
abbrev Preserves : (PersonSlot → PersonSlot) → Type 0
Preserves f = (slot : PersonSlot) → Keeps (some slot) (some (f slot))

map-Keeps :
    (f : PersonSlot → PersonSlot) (o : Option PersonSlot) → Preserves f → Keeps o (Option.map f o)
map-Keeps f none h = tt
map-Keeps f (some slot) h = h slot

modify-Keeps :
    (q : String) (f : PersonSlot → PersonSlot) (persons : BTreeMap String PersonSlot)
    → Preserves f
    → KeepsSlots persons (modify q f persons)
modify-Keeps q f persons h r = elim (key-cases r q) [
  | inl same ↦ rw (same, get-modify_self q f persons) (map-Keeps f (get q persons) h)
  | inr other ↦ rw (get-modify_ne r q f persons other) (Keeps-refl (get r persons))
]

modify_all-Keeps :
    (f : PersonSlot → PersonSlot) (persons : BTreeMap String PersonSlot)
    → Preserves f
    → KeepsSlots persons (modify_all f persons)
modify_all-Keeps f persons h r = rw (get-modify_all r f persons) (map-Keeps f (get r persons) h)

forget_slot-Preserves : (u : Uuid) → Preserves (forget_slot u)
forget_slot-Preserves u slot = ground arith

-- From the equation of an outcome to its persons.
persons_of :
    {x j' : Journey} (before : BTreeMap String PersonSlot)
    → some x ≡ some j'
    → KeepsSlots before x.persons
    → KeepsSlots before j'.persons
persons_of {x} {j'} before e h =
    subst (λ (j : Journey). KeepsSlots before j.persons) (some-eq-some e) h

module _ (c : Crates) where
  assign_secret-persons :
      (part : SecretPartitionData) (j : Journey) {j' : Journey}
      → assign_secret c part j ≡ some j'
      → KeepsSlots j.persons j'.persons
  unfolding assign_secret
  assign_secret-persons part j e =
      let (shared, done, rest) =
        bind-eq-some (unwrap (assign_all c j.shared_data part.changes)) _ e in
      persons_of j.persons rest (λ r. Keeps-refl (get r j.persons))

  mirror_slot-persons :
      (part : SecretPartitionData) (j : Journey) (o : Option PersonSlot) {j' : Journey}
      → get part.person_ref j.persons ≡ o
      → mirror_slot c part j o ≡ some j'
      → KeepsSlots j.persons j'.persons
  unfolding mirror_slot
  mirror_slot-persons part j none g e = persons_of j.persons e (λ r. Keeps-refl (get r j.persons))
  mirror_slot-persons part j (some slot) g e =
      let (prefix, parsed, rest) =
        bind-eq-some (c.parse (text_append "/persons/" part.person_ref)) _ e in
      let (details, done, last) =
        bind-eq-some (unwrap (assign_all c slot.details (prefixed_changes c prefix part.changes))) _
          rest in
      persons_of j.persons last (
        insert-Keeps part.person_ref (record slot { details = details }) j.persons
          (rw g (refl, λ h. h)))

  apply_partition-persons :
      (part : SecretPartitionData) (j : Journey) {j' : Journey}
      → apply_partition c part j ≡ some j'
      → KeepsSlots j.persons j'.persons
  unfolding apply_partition
  apply_partition-persons part j e =
      let (j₁, assigned, mirrored) = bind-eq-some (assign_secret c part j) _ e in
      λ r.
        Keeps-trans _ _ _ (assign_secret-persons part j assigned r)
          (mirror_slot-persons part j₁ (get part.person_ref j₁.persons) refl mirrored r)

  apply_partitions-persons :
      (parts : List SecretPartitionData) (j : Journey) {j' : Journey}
      → apply_partitions c parts j ≡ some j'
      → KeepsSlots j.persons j'.persons
  unfolding apply_partitions
  apply_partitions-persons [] j e = persons_of j.persons e (λ r. Keeps-refl (get r j.persons))
  apply_partitions-persons (part ∷ parts) j e =
      let (j₁, first, rest) = bind-eq-some (apply_partition c part j) _ e in
      λ r.
        Keeps-trans _ _ _ (apply_partition-persons part j first r)
          (apply_partitions-persons parts j₁ rest r)

  apply-persons :
      (event : JourneyEvent) (j : Journey) {j' : Journey}
      → apply c event j ≡ some j'
      → KeepsSlots j.persons j'.persons
  unfolding apply
  apply-persons (person_captured q u name email phone) j e =
      persons_of j.persons e (capture_slot-Keeps q u name email phone j.persons)
  apply-persons (person_details_updated q u payload) j e =
      persons_of j.persons e (modify-Keeps q _ j.persons (λ slot. (refl, λ h. h)))
  apply-persons (subject_forgotten u) j e =
      persons_of j.persons e (modify_all-Keeps (forget_slot u) j.persons (forget_slot-Preserves u))
  apply-persons (attributes_set plain parts) j e =
      let (shared, assigned, rest) = bind-eq-some (unwrap (assign_all c j.shared_data plain)) _ e in
      apply_partitions-persons parts (record j { shared_data = shared }) rest
  apply-persons _ j e = persons_of j.persons e (λ r. Keeps-refl (get r j.persons))

  -- Over any history of events that is applied without a panic, a slot that exists stays, keeps
  -- the subject that it was bound to, and once forgotten stays forgotten.
  pub apply_all-KeepsSlots :
      (events : List JourneyEvent) (j : Journey) {j' : Journey}
      → apply_all c events j ≡ some j'
      → KeepsSlots j.persons j'.persons
  unfolding apply_all
  apply_all-KeepsSlots [] j e = persons_of j.persons e (λ r. Keeps-refl (get r j.persons))
  apply_all-KeepsSlots (event ∷ events) j e =
      let (j₁, first, rest) = bind-eq-some (apply c event j) _ e in
      λ r. Keeps-trans _ _ _ (apply-persons event j first r) (apply_all-KeepsSlots events j₁ rest r)
