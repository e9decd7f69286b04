-- ===== src/Domain/Journey/Attributes.antt =====
-- The command `set_attributes`: what an accepted batch was checked for, and what its event holds.
use journey_dynamics.Base.{
  true, false, not, List, [], ◌∷◌, filter, ok, map_err, bind-eq-ok, then-eq-ok, bail_if-eq-ok,
  map_err-eq-ok, All, ◌≡◌, refl, arith, text_ord, nat_ord,
}
use journey_dynamics.Json.{PointerBuf, Changes, Crates}
use journey_dynamics.Domain.Schema.{classify, Classification, classify_changes}
use journey_dynamics.Domain.Schema.Destination.{to_unknown, destination}
use journey_dynamics.Domain.Schema.Groups.{unknown_destinations}
use journey_dynamics.Domain.Events.{
  SecretPartitionData, JourneyEvent, workflow_evaluated, attributes_set,
}
use journey_dynamics.Domain.Commands.{set_attributes}
use journey_dynamics.Domain.Journey.{Journey}
use journey_dynamics.Domain.Journey.Handle.{
  invalid_data, unknown_attribute_path, decision_engine_error, is_none, is_empty, require_open,
  require_slots, lookup_subject, subject_to_ref, to_partitions, sort_by_ref, validate_plaintext,
  handle_set_attributes, handle,
}
use journey_dynamics.Services.{JourneyServices, WorkflowDecision}

module _ (c : Crates) (services : JourneyServices) (changes : Changes) (j : Journey) where
  abbrev pub classification : Classification
  classification = classify_changes c services.attribute_schema (lookup_subject j.persons) changes

  abbrev pub partitions : List SecretPartitionData
  partitions =
      sort_by_ref (to_partitions c (subject_to_ref j.persons) classification.secret_by_subject)

  -- What the handler has found when it accepts.
  pub record Accepted (events : List JourneyEvent) : Type 0 where
    pub opened : require_open j ≡ ok tt
    pub some_change : is_empty changes ≡ false
    pub all_known :
        is_empty
          (filter (λ p. is_none (classify c services.attribute_schema p)) classification.unknown)
        ≡ true
    pub all_slots : require_slots c services.attribute_schema classification.unknown ≡ ok tt
    pub validated : validate_plaintext c services classification.plaintext j ≡ ok tt
    pub decision : WorkflowDecision
    pub decided : services.decision_engine.evaluate_attributes j changes ≡ ok decision
    pub written :
        events
        ≡ attributes_set classification.plaintext partitions
          ∷ workflow_evaluated decision.suggested_actions decision.phase
          ∷ []

  pub accepted :
      {events : List JourneyEvent}
      → handle c services (set_attributes changes) j ≡ ok events
      → Accepted events
  unfolding handle handle_set_attributes
  accepted h =
      let schema = services.attribute_schema in
      let unlisted = filter (λ p. is_none (classify c schema p)) classification.unknown in
      let (opened, h₁) = then-eq-ok (require_open j) _ h in
      let (nonempty, h₂) = bail_if-eq-ok (is_empty changes) (invalid_data "no changes") _ h₁ in
      let (known, h₃) =
        bail_if-eq-ok (not (is_empty unlisted)) (unknown_attribute_path unlisted) _ h₂ in
      let (slots, h₄) = then-eq-ok (require_slots c schema classification.unknown) _ h₃ in
      let (valid, h₅) =
        then-eq-ok (validate_plaintext c services classification.plaintext j) _ h₄ in
      let (decision, decided, written) =
        bind-eq-ok
          (map_err decision_engine_error (services.decision_engine.evaluate_attributes j changes)) _
          h₅ in
      record {
        opened = opened;
        some_change = nonempty;
        all_known = ground arith;
        all_slots = slots;
        validated = valid;
        decision = decision;
        decided = map_err-eq-ok decision_engine_error _ decided;
        written = cc written;
      }

  -- A path that the handler lets pass is not in the list of unknown ones.
  none_unknown :
      (ps : List PointerBuf)
      → All
          (λ p. destination c services.attribute_schema (lookup_subject j.persons) p ≡ to_unknown)
          ps
      → is_empty (filter (λ p. is_none (classify c services.attribute_schema p)) ps) ≡ true
      → require_slots c services.attribute_schema ps ≡ ok tt
      → ps ≡ []
  unfolding require_slots
  none_unknown [] a k s = refl
  none_unknown (p ∷ ps) a k s = ground arith

  -- An accepted batch has no path without a destination.
  pub Accepted-unknown :
      {events : List JourneyEvent} → Accepted events → classification.unknown ≡ []
  Accepted-unknown a =
      none_unknown classification.unknown
        (unknown_destinations c services.attribute_schema (lookup_subject j.persons) changes)
        a.all_known a.all_slots
