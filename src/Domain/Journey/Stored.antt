-- ===== src/Domain/Journey/Stored.antt =====
-- What an accepted `set_attributes` without secrets stores: the document that was validated.
use journey_dynamics.Base.{
  String, Option, some, List, [], ◌∷◌, ok, bind-eq-ok, map_err, map_err-eq-ok, ◌≡◌, refl, ◌⊎◌, inl,
  inr,
}
use journey_dynamics.Base.BTreeMap.{BTreeMap}
use journey_dynamics.Json.{Uuid, Value, Changes, Crates}
use journey_dynamics.Domain.JsonPath.{assign_all}
use journey_dynamics.Domain.Events.{
  SecretPartitionData, JourneyEvent, attributes_set, workflow_evaluated,
}
use journey_dynamics.Domain.Commands.{set_attributes}
use journey_dynamics.Domain.Journey.{
  Journey, WorkflowDecisionState, apply, apply_all, apply_partitions,
}
use journey_dynamics.Domain.Journey.Handle.{
  invalid_data, invalid_json_pointer, to_partitions, sort_by_ref, validate_plaintext, handle,
}
use journey_dynamics.Domain.Journey.Attributes.{classification, partitions, accepted}
use journey_dynamics.Services.{JourneyServices, to_string}

-- What the validation of the plaintext changes has established when it passes.
abbrev pub Validated : Crates → JourneyServices → Changes → Journey → Value → Type 0
Validated c services changes j shared =
    (assign_all c j.shared_data changes ≡ ok shared)
    × ((changes ≡ []) ⊎ (services.schema_validator shared ≡ ok tt))

module _ (c : Crates) (services : JourneyServices) where
  validated :
      (plain : Changes) (j : Journey)
      → validate_plaintext c services plain j ≡ ok tt
      → (shared : Value) × Validated c services plain j shared
  unfolding validate_plaintext assign_all
  validated [] j h = (j.shared_data, (refl, inl refl))
  validated (change ∷ changes) j h =
      let (merged, assigned, checked) =
        bind-eq-ok (map_err invalid_json_pointer (assign_all c j.shared_data (change ∷ changes))) _
          h in
      (
        merged,
        (
          map_err-eq-ok invalid_json_pointer _ assigned,
          inr (map_err-eq-ok (λ e. invalid_data (to_string e)) _ checked),
        ),
      )

  -- Without secret groups there are no partitions.
  no_partitions :
      (refs : BTreeMap Uuid String) (groups : BTreeMap Uuid Changes)
      → groups ≡ []
      → sort_by_ref (to_partitions c refs groups) ≡ []
  unfolding sort_by_ref to_partitions
  no_partitions refs groups h = rw h refl

  stored :
      (events : List JourneyEvent) (plain : Changes) (parts : List SecretPartitionData)
      (actions : List String) (phase : Option String) (j : Journey) (shared : Value)
      → events ≡ attributes_set plain parts ∷ workflow_evaluated actions phase ∷ []
      → parts ≡ []
      → assign_all c j.shared_data plain ≡ ok shared
      → apply_all c events j
        ≡ some (record j {
          shared_data = shared;
          latest_workflow_decision = some (record { suggested_actions = actions; phase = phase });
        })
  unfolding apply_all apply apply_partitions
  stored events plain parts actions phase j shared w n a = rw (w, n, a) refl

  -- A batch without secret changes that `set_attributes` accepts is applied without a panic: the
  -- journey then holds the document that the changes give, which the validator has accepted if the
  -- plaintext changes are not empty, and a decision; the rest of it is as it was.
  pub set_attributes_stores :
      (changes : Changes) (j : Journey) {events : List JourneyEvent}
      → handle c services (set_attributes changes) j ≡ ok events
      → (classification c services changes j).secret_by_subject ≡ []
      → (shared : Value) × (decision : WorkflowDecisionState) × Validated c services
          (classification c services changes j).plaintext
          j
          shared
        × (apply_all c events j
            ≡ some (record j { shared_data = shared; latest_workflow_decision = some decision }))
  set_attributes_stores changes j {events} h n =
      let a = accepted c services changes j h in
      let plain = (classification c services changes j).plaintext in
      let (shared, valid) = validated plain j a.validated in
      (
        shared,
        record { suggested_actions = a.decision.suggested_actions; phase = a.decision.phase },
        valid,
        stored events plain (partitions c services changes j) a.decision.suggested_actions
            a.decision.phase j shared a.written (no_partitions _ _ n) valid.0,
      )
