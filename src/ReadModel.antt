-- ===== src/ReadModel.antt =====
-- crates/journey_dynamics/src/queries.rs: the view of a journey, and its update by events.
pub mod Tables
pub mod Projection
pub mod Rows
pub mod Slots
pub mod Agreement
pub mod Following
pub mod History
pub mod Updates
pub mod Forgetting
use journey_dynamics.Base.{String, Bool, Option, none, some, List, [], ◌∷◌}
use journey_dynamics.Base.Partial.{◌>>=◌, unwrap}
use journey_dynamics.Json.{Uuid, nil_uuid, Value, empty_object, Crates}
use journey_dynamics.Domain.JsonPath.{assign_all}
use journey_dynamics.Domain.Events.{
  JourneyEvent, started, modified, person_captured, person_details_updated, workflow_evaluated,
  step_progressed, completed, subject_forgotten, attributes_set,
}

pub record PersonView : Type 0 where
  pub journey_id : Uuid
  pub person_ref : String
  pub subject_id : Uuid
  pub name : Option String
  pub email : Option String
  pub phone : Option String
  pub details : Value
  pub forgotten : Bool

-- `JourneyState` of the views.
pub data ViewState : Type 0 where
  in_progress complete : ViewState

pub record WorkflowDecisionView : Type 0 where
  pub suggested_actions : List String
  pub phase : Option String

pub record JourneyView : Type 0 where
  pub id : Uuid
  pub state : ViewState
  pub shared_data : Value
  pub current_step : Option String
  pub latest_workflow_decision : Option WorkflowDecisionView
  pub persons : List PersonView

-- `JourneyView::default()`
abbrev pub default_view : JourneyView
default_view = record {
  id = nil_uuid;
  state = in_progress;
  shared_data = empty_object;
  current_step = none;
  latest_workflow_decision = none;
  persons = [];
}

module _ (c : Crates) where
  -- `JourneyView::update`
  unfoldable pub update : JourneyEvent → JourneyView → Option JourneyView
  update (started id) v = some (record v {
    id = id;
    state = in_progress;
    shared_data = empty_object;
    current_step = none;
    latest_workflow_decision = none;
  })
  update (modified step payload) v = some (record v { shared_data = c.merge v.shared_data payload })
  update (person_captured person_ref subject_id name email phone) v = some v
  update (person_details_updated person_ref subject_id payload) v = some v
  update (subject_forgotten subject_id) v = some v
  update (workflow_evaluated suggested_actions phase) v = some (record v {
    latest_workflow_decision =
        some (record { suggested_actions = suggested_actions; phase = phase });
  })
  update (step_progressed from_step to_step) v = some (record v { current_step = some to_step })
  update completed v = some (record v { state = complete })
  update (attributes_set plaintext secret_partitions) v = do
    shared ← unwrap (assign_all c v.shared_data plaintext)
    some (record v { shared_data = shared })

  unfoldable pub update_all : List JourneyEvent → JourneyView → Option JourneyView
  update_all [] v = some v
  update_all (event ∷ events) v = do v' ← update event v; update_all events v'
