-- ===== src/Domain/Journey.antt =====
-- crates/journey_dynamics/src/domain/journey.rs: the state of a journey, and what each event does
-- to it. The commands are in `Journey/Handle.antt`.
mod State
pub mod Handle
pub mod Lifecycle
pub mod Slots
pub mod Persons
pub mod Attributes
pub mod Sorting
pub mod Partitions
pub mod Stored
pub mod Shared
unfoldable pub use State.{
  capture_slot, prefixed_changes, assign_secret, mirror_slot, apply_partition, apply_partitions,
  apply, apply_all,
}
pub use State.{
  Journey, PersonSlot, JourneyState, in_progress, complete, WorkflowDecisionState, default_journey,
  fresh_slot, slot_or_fresh, forget_slot,
}
