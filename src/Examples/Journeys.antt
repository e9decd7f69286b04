-- ===== src/Examples/Journeys.antt =====
-- The theorems on journeys at concrete inputs.
use journey_dynamics.Base.{
  String, true, none, some, List, [], ◌∷◌, ◌++◌, ok, err, ◌≡◌, ◌≢◌, refl, arith, text_ord, nat_ord,
  str_eq, if◌then◌else◌,
}
use journey_dynamics.Base.BTreeMap.{BTreeMap, get, insert, modify_all}
use journey_dynamics.Base.Text.{strip_prefix}
use journey_dynamics.Json.{nil_uuid, Value, string, object, entry, end}
use journey_dynamics.Domain.JsonPath.{assign_all}
use journey_dynamics.Domain.Schema.{
  classify, classify_changes, classify_from, route, route_secret, add_secret, match_segments,
  match_patterns, has_plaintext_prefix,
}
use journey_dynamics.Domain.Schema.Routing.{RoutedAt, classify_changes-RoutedAt}
use journey_dynamics.Domain.Events.{
  JourneyEvent, started, completed, person_captured, subject_forgotten, workflow_evaluated,
  attributes_set,
}
use journey_dynamics.Domain.Commands.{
  start, set_attributes, capture_person, complete as complete_command, forget_subject,
}
use journey_dynamics.Domain.Journey.{
  Journey, PersonSlot, WorkflowDecisionState, in_progress, default_journey, assign_secret,
  mirror_slot, apply_partition, apply_partitions, apply, apply_all, prefixed_changes,
}
use journey_dynamics.Domain.Journey.Handle.{
  not_found, already_completed, require_open, lookup_subject, subject_to_ref_from, subject_to_ref,
  insert_by_ref, sort_by_ref, require_slots, partition_ref, to_partitions, validate_plaintext,
  handle_set_attributes, handle,
}
use journey_dynamics.Domain.Journey.Lifecycle.{
  unstarted_not_found, completed_rejects, start_reopens,
}
use journey_dynamics.Domain.Journey.Slots.{KeepsSlots, apply_all-KeepsSlots}
use journey_dynamics.Domain.Journey.Persons.{
  captured, Forgets, capture_person_lem, forget_subject_lem,
}
use journey_dynamics.Domain.Journey.Attributes.{classification}
use journey_dynamics.Domain.Journey.Partitions.{Routed, set_attributes-Routed}
use journey_dynamics.Domain.Journey.Stored.{Validated, set_attributes_stores}
use journey_dynamics.Domain.Journey.Shared.{IsLabelFrom, subject_to_ref_label}
use journey_dynamics.Examples.Fixtures.{
  crates, schema, services, ada, booking, booked, changes, trip,
}

-- The events of the two changes.
abbrev written : List JourneyEvent
written =
    attributes_set trip (
      record {
        person_ref = "ada";
        subject_id = 3;
        changes = ("/persons/ada/name", string "Ada L.") ∷ [];
      }
      ∷ [])
    ∷ workflow_evaluated [] none
    ∷ []

handle-changes : handle crates services (set_attributes changes) booking ≡ ok written
unfolding handle handle_set_attributes require_open classify_changes classify_from route
    route_secret add_secret classify match_segments match_patterns has_plaintext_prefix
    lookup_subject strip_prefix get insert subject_to_ref subject_to_ref_from to_partitions
    partition_ref insert_by_ref sort_by_ref require_slots validate_plaintext assign_all
handle-changes = refl

abbrev written_trip : List JourneyEvent
written_trip = attributes_set trip [] ∷ workflow_evaluated [] none ∷ []

handle-trip : handle crates services (set_attributes trip) booking ≡ ok written_trip
unfolding handle handle_set_attributes require_open classify_changes classify_from route
    route_secret add_secret classify match_segments match_patterns has_plaintext_prefix
    lookup_subject strip_prefix get insert subject_to_ref subject_to_ref_from to_partitions
    partition_ref insert_by_ref sort_by_ref require_slots validate_plaintext assign_all
handle-trip = refl

trip_open : (classification crates services trip booking).secret_by_subject ≡ []
unfolding classify_changes classify_from route classify match_segments match_patterns
    has_plaintext_prefix insert get
trip_open = refl

set_attributes-Routed_example : Routed crates services changes booking written
set_attributes-Routed_example =
    set_attributes-Routed crates services changes booking ((refl, tt), (tt, tt)) handle-changes

classify_changes-RoutedAt_example :
    RoutedAt crates schema
      (lookup_subject booking.persons)
      changes
      (classify_changes crates schema (lookup_subject booking.persons) changes)
      "/trip/to"
classify_changes-RoutedAt_example =
    classify_changes-RoutedAt crates schema (lookup_subject booking.persons) changes "/trip/to"
      ((refl, tt), (tt, tt))

-- A history: the changes, then the erasure of their subject.
abbrev forgotten_booking : Journey
forgotten_booking = record booking {
  shared_data =
      object (entry "/persons/ada/name" (string "Ada L.") (entry "/trip/to" (string "Oslo") end));
  persons =
      (
        "ada",
        record ada { details = object (entry "/name" (string "Ada L.") end); forgotten = true },
      )
      ∷ [];
  latest_workflow_decision = some (record { suggested_actions = []; phase = none });
}

apply_history :
    apply_all crates (written ++ subject_forgotten 3 ∷ []) booking ≡ some forgotten_booking
unfolding apply_all apply apply_partitions apply_partition assign_secret mirror_slot
    prefixed_changes assign_all strip_prefix get insert modify_all
apply_history = refl

apply_all-KeepsSlots_example : KeepsSlots booking.persons forgotten_booking.persons
apply_all-KeepsSlots_example =
    apply_all-KeepsSlots crates (written ++ subject_forgotten 3 ∷ []) booking apply_history

started_booking : booking.id ≢ nil_uuid
started_booking h = ground arith

forget_subject_lem_example :
    (events : List JourneyEvent) × (j' : Journey) × (handle crates services
        (forget_subject 3)
        booked
      ≡ ok events)
    × (apply_all crates events booked ≡ some j')
    × Forgets 3 booked j'
    × (handle crates services (forget_subject 3) j' ≡ ok [])
forget_subject_lem_example = forget_subject_lem crates services booked started_booking 3

capture_person_lem_example :
    (j' : Journey) × (handle crates services (capture_person "bob" 4 "Bob" "b@x" none) booking
      ≡ ok (person_captured "bob" 4 "Bob" "b@x" none ∷ []))
    × (apply_all crates (person_captured "bob" 4 "Bob" "b@x" none ∷ []) booking ≡ some j')
    × ((q : String)
        → get q j'.persons ≡ (
            if str_eq q "bob"
            then some (captured (get "bob" booking.persons) 4 "Bob" "b@x" none)
            else get q booking.persons))
unfolding get
capture_person_lem_example =
    capture_person_lem crates services booking started_booking "bob" 4 "Bob" "b@x" none refl refl

set_attributes_stores_example :
    (shared : Value) × (decision : WorkflowDecisionState) × Validated crates services
      (classification crates services trip booking).plaintext
      booking
      shared
    × (apply_all crates written_trip booking
        ≡ some (record booking { shared_data = shared; latest_workflow_decision = some decision }))
set_attributes_stores_example =
    set_attributes_stores crates services trip booking handle-trip trip_open

unstarted_not_found_example :
    handle crates services (set_attributes changes) default_journey ≡ err not_found
unstarted_not_found_example =
    unstarted_not_found crates services default_journey (set_attributes changes) refl refl

completed_rejects_example :
    handle crates services (set_attributes changes) booked ≡ err already_completed
completed_rejects_example =
    completed_rejects crates services booked (set_attributes changes) started_booking refl refl refl

another_id : booked.id ≢ 8
another_id h = ground arith

proper_id : 8 ≢ nil_uuid
proper_id h = ground arith

start_reopens_example :
    (handle crates services (start 8) booked ≡ ok (started 8 ∷ []))
    × (apply_all crates (started 8 ∷ []) booked
        ≡ some (record booked { id = 8; state = in_progress }))
    × (handle crates services complete_command (record booked { id = 8; state = in_progress })
        ≡ ok (completed ∷ []))
start_reopens_example = start_reopens crates services booked 8 refl another_id proper_id

-- Two slots of one subject.
abbrev twice : BTreeMap String PersonSlot
twice = ("ada", ada) ∷ ("zoe", ada) ∷ []

subject_to_ref_label_example :
    (r : String) × (get 3 (subject_to_ref twice) ≡ some r) × IsLabelFrom "zoe" 3 twice r
unfolding get
subject_to_ref_label_example = subject_to_ref_label "zoe" ada twice ((refl, tt), (tt, tt)) refl
