-- ===== src/Domain/Journey/Partitions.antt =====
-- Where the event of an accepted `set_attributes` puts each change.
use journey_dynamics.Base.{
  String, Option, none, some, List, [], ◌∷◌, ok, All, ◌≡◌, refl, ◌∙◌, sym, ap, ap₂, text_ord,
  nat_ord,
}
use journey_dynamics.Base.BTreeMap.{BTreeMap, get, IsOrdered, Found, IsOrdered-Found}
use journey_dynamics.Json.{Uuid, Value, PointerBuf, Changes, Crates}
use journey_dynamics.Domain.Schema.Destination.{
  Destination, to_plaintext, to_unknown, to_subject, destination, value_in, secret_at, plaintext_at,
  secret_at-eq-some, plaintext_at-eq-some,
}
use journey_dynamics.Domain.Schema.Routing.{RoutedAt, classify_changes-RoutedAt}
use journey_dynamics.Domain.Schema.Groups.{groups-IsOrdered}
use journey_dynamics.Domain.Events.{
  SecretPartitionData, JourneyEvent, attributes_set, workflow_evaluated,
}
use journey_dynamics.Domain.Commands.{set_attributes}
use journey_dynamics.Domain.Journey.{Journey}
use journey_dynamics.Domain.Journey.Handle.{
  lookup_subject, subject_to_ref, partition_of, to_partitions, handle,
}
use journey_dynamics.Domain.Journey.Attributes.{
  classification, partitions, accepted, Accepted-unknown,
}
use journey_dynamics.Services.{JourneyServices}
use journey_dynamics.Domain.Journey.Sorting.{
  IsSorted, sort_by_ref-IsSorted, sort_by_ref-All, Any, sort_by_ref-Any, Any-to_partitions,
  All-to_partitions, secret_at_self,
}

module _ (c : Crates) (services : JourneyServices) (changes : Changes) (j : Journey) where
  -- Where a path belongs, by the schema and the slots of the journey.
  abbrev pub belongs : PointerBuf → Destination
  belongs = destination c services.attribute_schema (lookup_subject j.persons)

  routed :
      IsOrdered changes
      → (p : PointerBuf)
      → RoutedAt c services.attribute_schema
          (lookup_subject j.persons)
          changes
          (classification c services changes j)
          p
  routed h p =
      classify_changes-RoutedAt c services.attribute_schema (lookup_subject j.persons) changes p h

  -- A partition holds changes of the batch that belong to its subject.
  abbrev pub HoldsOwn : SecretPartitionData → Type 0
  HoldsOwn part =
      (p : PointerBuf) (v : Value)
      → get p part.changes ≡ some v
      → (belongs p ≡ to_subject part.subject_id) × (get p changes ≡ some v)

  own_group :
      (h : IsOrdered changes) (refs : BTreeMap Uuid String) (u : Uuid) (group : Changes)
      → get u (classification c services changes j).secret_by_subject ≡ some group
      → HoldsOwn (partition_of c refs u group)
  own_group h refs u group found p v e =
      secret_at-eq-some u (belongs p) (get p changes)
        (sym ((routed h p).secret_bucket u) ∙ ap (λ o. value_in o p) found ∙ e)

  own_groups :
      (h : IsOrdered changes) (groups : BTreeMap Uuid Changes)
      → Found (classification c services changes j).secret_by_subject groups
      → All (λ e. HoldsOwn (partition_of c (subject_to_ref j.persons) e.0 e.1)) groups
  own_groups h [] f = tt
  own_groups h ((u, group) ∷ groups) f =
      (own_group h (subject_to_ref j.persons) u group f.0, own_groups h groups f.1)

  own_partitions : IsOrdered changes → All HoldsOwn (partitions c services changes j)
  own_partitions h =
      let groups = (classification c services changes j).secret_by_subject in
      let ordered : IsOrdered groups =
        groups-IsOrdered c services.attribute_schema (lookup_subject j.persons) changes in
      sort_by_ref-All HoldsOwn (to_partitions c (subject_to_ref j.persons) groups) (
        All-to_partitions c HoldsOwn (subject_to_ref j.persons) groups
          (own_groups h groups (IsOrdered-Found groups ordered)))

  -- Some partition of the subject holds the change.
  abbrev pub Held : PointerBuf → Value → Uuid → List SecretPartitionData → Type 0
  Held p v u = Any (λ part. (part.subject_id ≡ u) × (get p part.changes ≡ some v))

  -- Where a change of an accepted batch is.
  abbrev pub Placed : PointerBuf → Value → Destination → Type 0
  Placed p v to_plaintext = get p (classification c services changes j).plaintext ≡ some v
  Placed p v to_unknown = ⊥
  Placed p v (to_subject u) = Held p v u (partitions c services changes j)

  held :
      (p : PointerBuf) (v : Value) (u : Uuid) (o : Option Changes)
      → get u (classification c services changes j).secret_by_subject ≡ o
      → value_in o p ≡ some v
      → Held p v u (partitions c services changes j)
  held p v u none found e = cc
  held p v u (some group) found e =
      let P =
        λ (part : SecretPartitionData). (part.subject_id ≡ u) × (get p part.changes ≡ some v) in
      let groups = (classification c services changes j).secret_by_subject in
      sort_by_ref-Any P (to_partitions c (subject_to_ref j.persons) groups)
        (Any-to_partitions c P (subject_to_ref j.persons) u group groups found (refl, e))

  placed :
      (p : PointerBuf) (v : Value) (d : Destination)
      → IsOrdered changes
      → (classification c services changes j).unknown ≡ []
      → belongs p ≡ d
      → get p changes ≡ some v
      → Placed p v d
  placed p v to_plaintext h known b e =
      (routed h p).plaintext_bucket ∙ ap₂ (λ d o. plaintext_at d o none) b e
  placed p v to_unknown h known b e = cc ((routed h p).unknown_bucket)
  placed p v (to_subject u) h known b e =
      held p v u (get u (classification c services changes j).secret_by_subject) refl
        ((routed h p).secret_bucket u ∙ ap₂ (λ d o. secret_at u d o none) b e ∙ secret_at_self u v)

  -- The event of an accepted batch.
  pub record Routed (events : List JourneyEvent) : Type 0 where
    pub suggested_actions : List String
    pub phase : Option String
    pub written :
        events
        ≡ attributes_set
            (classification c services changes j).plaintext
            (partitions c services changes j)
          ∷ workflow_evaluated suggested_actions phase
          ∷ []
    pub plaintext_own :
        (p : PointerBuf) (v : Value)
        → get p (classification c services changes j).plaintext ≡ some v
        → (belongs p ≡ to_plaintext) × (get p changes ≡ some v)
    pub partitions_own : All HoldsOwn (partitions c services changes j)
    pub all_placed : (p : PointerBuf) (v : Value) → get p changes ≡ some v → Placed p v (belongs p)
    pub sorted : IsSorted (partitions c services changes j)

  -- An accepted `set_attributes` on a batch in key order writes one `attributes_set` event and one
  -- evaluation. The event's plaintext holds only changes whose path is classified as plaintext;
  -- each of its partitions holds only changes that are secret to the partition's subject; every
  -- change of the batch is in the plaintext or in a partition of its subject; and the partitions
  -- stand in the order of their slot names.
  pub set_attributes-Routed :
      {events : List JourneyEvent}
      → IsOrdered changes
      → handle c services (set_attributes changes) j ≡ ok events
      → Routed events
  set_attributes-Routed h e =
      let a = accepted c services changes j e in
      record {
        suggested_actions = a.decision.suggested_actions;
        phase = a.decision.phase;
        written = a.written;
        plaintext_own = λ p v f.
            plaintext_at-eq-some (belongs p) (get p changes)
              (sym ((routed h p).plaintext_bucket) ∙ f);
        partitions_own = own_partitions h;
        all_placed =
            λ p v f. placed p v (belongs p) h (Accepted-unknown c services changes j a) refl f;
        sorted = sort_by_ref-IsSorted _;
      }
