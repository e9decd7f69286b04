-- ===== src/Domain/Events.antt =====
-- crates/journey_dynamics/src/domain/events.rs
use journey_dynamics.Base.{String, Option, List}
use journey_dynamics.Json.{Uuid, Value, Changes}

-- One subject's secret changes in an `attributes_set` event.
pub record SecretPartitionData : Type 0 where
  pub person_ref : String
  pub subject_id : Uuid
  pub changes : Changes

pub data JourneyEvent : Type 0 where
  -- id
  started : Uuid → JourneyEvent
  -- step, data
  modified : String → Value → JourneyEvent
  -- person_ref, subject_id, name, email, phone
  person_captured : String → Uuid → String → String → Option String → JourneyEvent
  -- person_ref, subject_id, data
  person_details_updated : String → Uuid → Value → JourneyEvent
  -- suggested_actions, phase
  workflow_evaluated : List String → Option String → JourneyEvent
  -- from_step, to_step
  step_progressed : Option String → String → JourneyEvent
  completed : JourneyEvent
  -- subject_id
  subject_forgotten : Uuid → JourneyEvent
  -- plaintext, secret_partitions
  attributes_set : Changes → List SecretPartitionData → JourneyEvent

unfoldable pub event_type : JourneyEvent → String
event_type (started id) = "JourneyOpened"
event_type (modified step payload) = "JourneyModified"
event_type (person_captured person_ref subject_id name email phone) = "PersonCaptured"
event_type (person_details_updated person_ref subject_id payload) = "PersonDetailsUpdated"
event_type (workflow_evaluated suggested_actions phase) = "WorkflowEvaluated"
event_type (step_progressed from_step to_step) = "StepProgressed"
event_type completed = "JourneyClosed"
event_type (subject_forgotten subject_id) = "SubjectForgotten"
event_type (attributes_set plaintext secret_partitions) = "AttributesSet"

unfoldable pub event_version : JourneyEvent → String
event_version (workflow_evaluated suggested_actions phase) = "1.1"
event_version _ = "1.0"
