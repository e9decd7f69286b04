-- ===== src/Domain/Commands.antt =====
-- crates/journey_dynamics/src/domain/commands.rs
use journey_dynamics.Base.{String, Option}
use journey_dynamics.Json.{Uuid, Value, Changes}

pub data JourneyCommand : Type 0 where
  -- id
  start : Uuid → JourneyCommand
  -- step, data
  capture : String → Value → JourneyCommand
  -- changes
  set_attributes : Changes → JourneyCommand
  -- person_ref, subject_id, name, email, phone
  capture_person : String → Uuid → String → String → Option String → JourneyCommand
  -- person_ref, data
  capture_person_details : String → Value → JourneyCommand
  complete : JourneyCommand
  -- subject_id
  forget_subject : Uuid → JourneyCommand
