-- ===== src/Services.antt =====
-- The services that the aggregate is given (crates/journey_dynamics/src/services, and
-- `JourneyServices` of domain/journey.rs): the traits as records of functions. An error of an
-- engine is its message, the only thing that the aggregate reads of it.
pub mod SimpleEngine
use Prim.Native.String.{◌++◌}
use journey_dynamics.Base.{String, Option, List, Result, ok, err, ◌>>=◌}
use journey_dynamics.Json.{Value, Changes, Crates}
use journey_dynamics.Domain.JsonPath.{assign_all}
use journey_dynamics.Domain.Schema.{AttributeSchema}
use journey_dynamics.Domain.Journey.{Journey}

pub record WorkflowDecision : Type 0 where
  pub suggested_actions : List String
  pub phase : Option String

-- `trait DecisionEngine`
pub record DecisionEngine : Type 0 where
  pub evaluate_next_steps : Journey → String → Value → Result String WorkflowDecision
  pub evaluate_attributes : Journey → Changes → Result String WorkflowDecision

-- The trait's own `evaluate_attributes`, for engines that keep it.
unfoldable pub default_evaluate_attributes :
    Crates
    → (Journey → String → Value → Result String WorkflowDecision)
    → Journey
    → Changes
    → Result String WorkflowDecision
default_evaluate_attributes c evaluate_next_steps journey pending_changes = do
  merged ← assign_all c journey.shared_data pending_changes
  evaluate_next_steps journey "" merged

pub data SchemaValidationError : Type 0 where
  validation_failed schema_not_found invalid_schema json_error : String → SchemaValidationError

-- `Display`, by `thiserror`
unfoldable pub to_string : SchemaValidationError → String
to_string (validation_failed s) = "Schema validation failed: " ++ s
to_string (schema_not_found s) = "Schema not found: " ++ s
to_string (invalid_schema s) = "Invalid schema: " ++ s
to_string (json_error s) = "JSON processing error: " ++ s

-- `trait SchemaValidator`, by its one method.
abbrev pub SchemaValidator : Type 0
SchemaValidator = Value → Result SchemaValidationError (Unit {0})

-- `NoOpValidator`
abbrev pub no_op_validator : SchemaValidator
no_op_validator _ = ok tt

pub record JourneyServices : Type 0 where
  pub decision_engine : DecisionEngine
  pub schema_validator : SchemaValidator
  pub attribute_schema : AttributeSchema
