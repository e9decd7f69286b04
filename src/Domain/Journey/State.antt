-- ===== src/Domain/Journey/State.antt =====
-- `Journey`, `PersonSlot` and `Journey::apply`.
use journey_dynamics.Base.{
  String, Bool, true, false, Option, none, some, List, [], ◌∷◌, text_ord, nat_ord, ◌==◌,
  if◌then◌else◌,
}
use Prim.Native.String.{◌++◌ as text_append}
use journey_dynamics.Base.Partial.{◌>>=◌, unwrap}
use journey_dynamics.Base.BTreeMap.{BTreeMap, get, insert, modify, modify_all}
use journey_dynamics.Json.{Uuid, nil_uuid, Value, empty_object, PointerBuf, Changes, Crates}
use journey_dynamics.Domain.JsonPath.{assign_all}
use journey_dynamics.Domain.Events.{
  SecretPartitionData, JourneyEvent, started, modified, person_captured, person_details_updated,
  workflow_evaluated, step_progressed, completed, subject_forgotten, attributes_set,
}

pub data JourneyState : Type 0 where
  in_progress complete : JourneyState

pub record PersonSlot : Type 0 where
  pub subject_id : Uuid
  pub name : Option String
  pub email : Option String
  pub phone : Option String
  pub details : Value
  pub forgotten : Bool

pub record WorkflowDecisionState : Type 0 where
  pub suggested_actions : List String
  pub phase : Option String

pub record Journey : Type 0 where
  pub id : Uuid
  pub state : JourneyState
  pub shared_data : Value
  pub persons : BTreeMap String PersonSlot
  pub current_step : Option String
  pub latest_workflow_decision : Option WorkflowDecisionState

-- `Journey::default()`
abbrev pub default_journey : Journey
default_journey = record {
  id = nil_uuid;
  state = in_progress;
  shared_data = empty_object;
  persons = [];
  current_step = none;
  latest_workflow_decision = none;
}

-- The slot that `or_insert_with` makes.
abbrev pub fresh_slot : Uuid → PersonSlot
fresh_slot subject_id = record {
  subject_id = subject_id;
  name = none;
  email = none;
  phone = none;
  details = empty_object;
  forgotten = false;
}

abbrev pub slot_or_fresh : Option PersonSlot → Uuid → PersonSlot
slot_or_fresh none subject_id = fresh_slot subject_id
slot_or_fresh (some slot) subject_id = slot

-- The arm `PersonCaptured`.
unfoldable pub capture_slot :
    String
    → Uuid
    → String
    → String
    → Option String
    → BTreeMap String PersonSlot
    → BTreeMap String PersonSlot
capture_slot person_ref subject_id name email phone persons =
    insert person_ref
      (record (slot_or_fresh (get person_ref persons) subject_id) {
        name = some name;
        email = some email;
        phone = phone;
      })
      persons

-- The arm `SubjectForgotten`.
abbrev pub forget_slot : Uuid → PersonSlot → PersonSlot
forget_slot subject_id slot =
    if slot.subject_id == subject_id then record slot { forgotten = true } else slot

module _ (c : Crates) where
  -- Every change at its full path, into `shared_data`.
  unfoldable pub assign_secret : SecretPartitionData → Journey → Option Journey
  assign_secret partition j = do
    shared ← unwrap (assign_all c j.shared_data partition.changes)
    some (record j { shared_data = shared })

  -- The changes below the prefix, at what is left of their paths.
  unfoldable pub prefixed_changes : PointerBuf → Changes → Changes
  prefixed_changes prefix [] = []
  prefixed_changes prefix ((path, value) ∷ changes) =
      let rest = prefixed_changes prefix changes in
      elim (c.strip_prefix path prefix) [ none ↦ rest | some suffix ↦ (suffix, value) ∷ rest ]

  -- The mirror in the `details` of the slot that was found; without a slot there is none.
  unfoldable pub mirror_slot : SecretPartitionData → Journey → Option PersonSlot → Option Journey
  mirror_slot partition j none = some j
  mirror_slot partition j (some slot) = do
    prefix ← c.parse (text_append "/persons/" partition.person_ref)
    details ← unwrap (assign_all c slot.details (prefixed_changes prefix partition.changes))
    some (record j {
      persons = insert partition.person_ref (record slot { details = details }) j.persons;
    })

  unfoldable pub apply_partition : SecretPartitionData → Journey → Option Journey
  apply_partition partition j = do
    j' ← assign_secret partition j
    mirror_slot partition j' (get partition.person_ref j'.persons)

  unfoldable pub apply_partitions : List SecretPartitionData → Journey → Option Journey
  apply_partitions [] j = some j
  apply_partitions (partition ∷ rest) j = do
    j' ← apply_partition partition j
    apply_partitions rest j'

  -- `Journey::apply`
  unfoldable pub apply : JourneyEvent → Journey → Option Journey
  apply (started id) j = some (record j { id = id; state = in_progress })
  apply (modified step payload) j = some (record j { shared_data = c.merge j.shared_data payload })
  apply (person_captured person_ref subject_id name email phone) j =
      some (record j { persons = capture_slot person_ref subject_id name email phone j.persons })
  apply (person_details_updated person_ref subject_id payload) j = some (record j {
    persons =
        modify person_ref (λ slot. record slot { details = c.merge slot.details payload })
          j.persons;
  })
  apply (attributes_set plaintext secret_partitions) j = do
    shared ← unwrap (assign_all c j.shared_data plaintext)
    apply_partitions secret_partitions (record j { shared_data = shared })
  apply (workflow_evaluated suggested_actions phase) j = some (record j {
    latest_workflow_decision =
        some (record { suggested_actions = suggested_actions; phase = phase });
  })
  apply (step_progressed from_step to_step) j = some (record j { current_step = some to_step })
  apply completed j = some (record j { state = complete })
  apply (subject_forgotten subject_id) j =
      some (record j { persons = modify_all (forget_slot subject_id) j.persons })

  -- The events of a command, or of a replay, in their order.
  unfoldable pub apply_all : List JourneyEvent → Journey → Option Journey
  apply_all [] j = some j
  apply_all (event ∷ events) j = do j' ← apply event j; apply_all events j'
