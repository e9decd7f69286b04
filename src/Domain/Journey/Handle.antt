-- ===== src/Domain/Journey/Handle.antt =====
-- `Journey::handle`: for each command, the events that the handler writes to its sink, in their
-- order. Every read of the journey and every error stands before the first write.
use journey_dynamics.Base.{
  String, Bool, true, false, not, ◌&&◌, Option, none, some, List, [], ◌∷◌, any, filter, Ordering,
  lt, eq, gt, Result, ok, err, ◌>>=◌, ◌>>◌, map_err, bail_if, ok_or, text_ord, nat_ord, str_eq,
  ◌==◌, if◌then◌else◌,
}
use journey_dynamics.Base.BTreeMap.{BTreeMap, get, insert, values}
use journey_dynamics.Base.Text.{strip_prefix}
use journey_dynamics.Json.{Uuid, nil_uuid, Value, PointerBuf, Changes, AssignError, Crates}
use journey_dynamics.Domain.JsonPath.{assign_all}
use journey_dynamics.Domain.Schema.{plaintext, secret, AttributeSchema, classify, classify_changes}
use journey_dynamics.Domain.Events.{
  SecretPartitionData, JourneyEvent, started, modified, person_captured, person_details_updated,
  workflow_evaluated, step_progressed, completed, subject_forgotten, attributes_set,
}
use journey_dynamics.Domain.Commands.{
  JourneyCommand, start, capture, set_attributes, capture_person, capture_person_details,
  complete as complete_command, forget_subject,
}
use journey_dynamics.Domain.Journey.{Journey, PersonSlot, JourneyState, in_progress, complete}
use journey_dynamics.Services.{JourneyServices, to_string}

pub data JourneyError : Type 0 where
  not_found already_started already_completed : JourneyError
  decision_engine_error invalid_data person_ref_conflict person_not_found : String → JourneyError
  unknown_attribute_path : List PointerBuf → JourneyError
  invalid_json_pointer : AssignError → JourneyError

abbrev pub Handled : Type 0
Handled = Result JourneyError (List JourneyEvent)

abbrev pub is_complete : JourneyState → Bool
is_complete in_progress = false
is_complete complete = true

-- The two guards that most arms begin with.
unfoldable pub require_open : Journey → Result JourneyError (Unit {0})
require_open j = do
  bail_if (j.id == nil_uuid) not_found
  bail_if (is_complete j.state) already_completed

unfoldable pub handle_start : Uuid → Journey → Handled
handle_start id j = if j.id == id then err already_started else ok (started id ∷ [])

-- `Some(slot) && slot.subject_id != subject_id`
abbrev pub slot_conflicts : Option PersonSlot → Uuid → Bool
slot_conflicts none subject_id = false
slot_conflicts (some slot) subject_id = not (slot.subject_id == subject_id)

unfoldable pub handle_capture_person :
    String → Uuid → String → String → Option String → Journey → Handled
unfolding require_open
handle_capture_person person_ref subject_id name email phone j = do
  require_open j
  bail_if (slot_conflicts (get person_ref j.persons) subject_id) (person_ref_conflict person_ref)
  ok (person_captured person_ref subject_id name email phone ∷ [])

unfoldable pub handle_capture_person_details : String → Value → Journey → Handled
unfolding require_open
handle_capture_person_details person_ref payload j = do
  require_open j
  slot ← ok_or (get person_ref j.persons) (person_not_found person_ref)
  ok (person_details_updated person_ref slot.subject_id payload ∷ [])

-- `self.current_step.as_ref() != Some(&step)`
abbrev pub is_step_transition : Option String → String → Bool
is_step_transition none step = true
is_step_transition (some current) step = not (str_eq current step)

unfoldable pub handle_capture : JourneyServices → String → Value → Journey → Handled
unfolding require_open
handle_capture services step payload j = do
  require_open j
  map_err (λ e. invalid_data (to_string e)) (services.schema_validator payload)
  let is_transition = is_step_transition j.current_step step
  let journey_for_eval = if is_transition then record j { current_step = some step } else j
  decision ←
      map_err decision_engine_error
        (services.decision_engine.evaluate_next_steps journey_for_eval step payload)
  ok (
      modified step payload
      ∷ workflow_evaluated decision.suggested_actions none
      ∷ (if is_transition then step_progressed j.current_step step ∷ [] else []))

unfoldable pub handle_complete : Journey → Handled
handle_complete j =
    if j.id == nil_uuid
    then err not_found
    else if is_complete j.state
    then err already_completed
    else ok (completed ∷ [])

-- `slot.subject_id == subject_id && !slot.forgotten`
abbrev pub is_live_slot_of : Uuid → PersonSlot → Bool
is_live_slot_of subject_id slot = slot.subject_id == subject_id && not slot.forgotten

unfoldable pub handle_forget_subject : Uuid → Journey → Handled
handle_forget_subject subject_id j =
    if j.id == nil_uuid
    then err not_found
    else if any (is_live_slot_of subject_id) (values j.persons)
    then ok (subject_forgotten subject_id ∷ [])
    else ok []

-- The lookup that `SetAttributes` gives to the classification: "/persons/<ref>" to the slot's
-- subject.
unfoldable pub lookup_subject : BTreeMap String PersonSlot → PointerBuf → Option Uuid
lookup_subject persons subject_path = elim (strip_prefix "/persons/" subject_path) [
  | none ↦ none
  | some person_ref ↦ elim (get person_ref persons) [
    | none ↦ none
    | some slot ↦ some slot.subject_id
  ]
]

abbrev pub is_none {ℓ} : {A : Type ℓ} → Option A → Bool
is_none none = true
is_none (some _) = false

abbrev pub is_empty {ℓ} : {A : Type ℓ} → List A → Bool
is_empty [] = true
is_empty (_ ∷ _) = false

-- `strip_prefix("/persons/").unwrap_or(subject)`
abbrev pub slot_name : PointerBuf → String
slot_name subject = elim (strip_prefix "/persons/" subject) [ none ↦ subject | some r ↦ r ]

-- `subject_to_ref`: of two slots with one subject the later in the order of the names stays.
unfoldable pub subject_to_ref_from :
    BTreeMap Uuid String → BTreeMap String PersonSlot → BTreeMap Uuid String
subject_to_ref_from acc [] = acc
subject_to_ref_from acc ((person_ref, slot) ∷ persons) =
    subject_to_ref_from (insert slot.subject_id person_ref acc) persons

unfoldable pub subject_to_ref : BTreeMap String PersonSlot → BTreeMap Uuid String
unfolding subject_to_ref_from
subject_to_ref persons = subject_to_ref_from [] persons

-- `sort_by` on the name: a stable sort. `rest` is the insertion further down.
abbrev pub place :
    Ordering
    → SecretPartitionData
    → SecretPartitionData
    → List SecretPartitionData
    → List SecretPartitionData
    → List SecretPartitionData
place gt p q qs rest = q ∷ rest
place lt p q qs rest = p ∷ q ∷ qs
place eq p q qs rest = p ∷ q ∷ qs

unfoldable pub insert_by_ref :
    SecretPartitionData → List SecretPartitionData → List SecretPartitionData
insert_by_ref p [] = p ∷ []
insert_by_ref p (q ∷ qs) =
    place (text_ord.cmp p.person_ref q.person_ref) p q qs (insert_by_ref p qs)

unfoldable pub sort_by_ref : List SecretPartitionData → List SecretPartitionData
unfolding insert_by_ref
sort_by_ref [] = []
sort_by_ref (p ∷ ps) = insert_by_ref p (sort_by_ref ps)

module _ (c : Crates) where
  -- The loop over `classification.unknown`: the first secret path ends it with an error.
  unfoldable pub require_slots : AttributeSchema → List PointerBuf → Result JourneyError (Unit {0})
  require_slots schema [] = ok tt
  require_slots schema (path ∷ paths) =
      let rest = require_slots schema paths in
      elim (classify c schema path) [
        | none ↦ rest
        | some plaintext ↦ rest
        | some (secret subject) ↦ err (person_not_found (slot_name subject))
      ]

  -- `unwrap_or_else(|| subject_id.to_string())`
  unfoldable pub partition_ref : BTreeMap Uuid String → Uuid → String
  partition_ref refs subject_id = elim (get subject_id refs) [
    | none ↦ c.uuid_to_string subject_id
    | some person_ref ↦ person_ref
  ]

  abbrev pub partition_of : BTreeMap Uuid String → Uuid → Changes → SecretPartitionData
  partition_of refs subject_id changes = record {
    person_ref = partition_ref refs subject_id;
    subject_id = subject_id;
    changes = changes;
  }

  unfoldable pub to_partitions :
      BTreeMap Uuid String → BTreeMap Uuid Changes → List SecretPartitionData
  to_partitions refs [] = []
  to_partitions refs ((subject_id, changes) ∷ groups) =
      partition_of refs subject_id changes ∷ to_partitions refs groups

  -- Validation of the plaintext changes merged into the shared data.
  unfoldable pub validate_plaintext :
      JourneyServices → Changes → Journey → Result JourneyError (Unit {0})
  validate_plaintext services [] j = ok tt
  validate_plaintext services (change ∷ changes) j = do
    merged ← map_err invalid_json_pointer (assign_all c j.shared_data (change ∷ changes))
    map_err (λ e. invalid_data (to_string e)) (services.schema_validator merged)

  unfoldable pub handle_set_attributes : JourneyServices → Changes → Journey → Handled
  unfolding require_open require_slots to_partitions subject_to_ref sort_by_ref validate_plaintext
  handle_set_attributes services changes j = do
    require_open j
    bail_if (is_empty changes) (invalid_data "no changes")
    let schema = services.attribute_schema
    let classification = classify_changes c schema (lookup_subject j.persons) changes
    let truly_unknown = filter (λ p. is_none (classify c schema p)) classification.unknown
    bail_if (not (is_empty truly_unknown)) (unknown_attribute_path truly_unknown)
    require_slots schema classification.unknown
    let refs = subject_to_ref j.persons
    let secret_partitions = sort_by_ref (to_partitions refs classification.secret_by_subject)
    validate_plaintext services classification.plaintext j
    decision ←
        map_err decision_engine_error (services.decision_engine.evaluate_attributes j changes)
    ok (
        attributes_set classification.plaintext secret_partitions
        ∷ workflow_evaluated decision.suggested_actions decision.phase
        ∷ [])

  -- `Journey::handle`
  unfoldable pub handle : JourneyServices → JourneyCommand → Journey → Handled
  handle services (start id) j = handle_start id j
  handle services (capture step payload) j = handle_capture services step payload j
  handle services (set_attributes changes) j = handle_set_attributes services changes j
  handle services (capture_person person_ref subject_id name email phone) j =
      handle_capture_person person_ref subject_id name email phone j
  handle services (capture_person_details person_ref payload) j =
      handle_capture_person_details person_ref payload j
  handle services complete_command j = handle_complete j
  handle services (forget_subject subject_id) j = handle_forget_subject subject_id j
