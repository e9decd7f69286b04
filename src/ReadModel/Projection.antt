-- ===== src/ReadModel/Projection.antt =====
-- crates/journey_dynamics/src/view_repository.rs: `apply_event_in_tx`, `dispatch` and `load`, on a
-- database that fails on its constraints only. The operator `||` of jsonb is a parameter, and so is
-- the parser of UUIDs.
use journey_dynamics.Base.{
  ℕ, String, Option, none, some, List, [], ◌∷◌, Result, ok, err, nat_ord, text_ord, str_eq,
  if◌then◌else◌, ◌>>=◌,
}
use Prim.Native.String.{◌++◌ as text_append}
use journey_dynamics.Base.BTreeMap.{BTreeMap, get, modify}
use journey_dynamics.Json.{Uuid, Value, empty_object, AssignError, Crates}
use journey_dynamics.Crypto.Primitives.{panic, error, expect}
use journey_dynamics.Domain.JsonPath.{assign_all}
use journey_dynamics.Domain.Events.{
  SecretPartitionData, JourneyEvent, started, modified, person_captured, person_details_updated,
  workflow_evaluated, step_progressed, completed, subject_forgotten, attributes_set,
}
use journey_dynamics.Domain.Journey.{prefixed_changes}
use journey_dynamics.ReadModel.{
  PersonView, ViewState, in_progress, complete, WorkflowDecisionView, JourneyView,
}
use journey_dynamics.ReadModel.Tables.{
  PersonRow, DecisionRow, JourneyRow, Views, Sql, version_of, fetched, update_journey,
  insert_absent, upsert_person, insert_under, forget_rows, retire_all, add_decision,
}

-- `assign_all(…).unwrap()`
abbrev pub assigned : Result AssignError Value → Sql Value
assigned (ok value) = ok value
assigned (err e) = err panic

module _ (c : Crates) (concat : Value → Value → Value) where
  -- The loop over the partitions, into `merged`.
  unfoldable pub assign_secrets : List SecretPartitionData → Value → Sql Value
  assign_secrets [] merged = ok merged
  assign_secrets (partition ∷ rest) merged =
      assigned (assign_all c merged partition.changes) >>= assign_secrets rest

  -- UPDATE journey_person SET details = details || $3
  abbrev pub concat_details : String → Value → JourneyRow → JourneyRow
  concat_details person_ref update row = record row {
    persons =
        modify person_ref (λ (p : PersonRow). record p { details = concat p.details update })
          row.persons;
  }

  -- The mirror of one partition.
  abbrev pub details_update : SecretPartitionData → Sql Value
  details_update partition =
      expect (c.parse (text_append "/persons/" partition.person_ref)) >>= λ prefix.
      assigned (assign_all c empty_object (prefixed_changes c prefix partition.changes))

  unfoldable pub mirror_all : Uuid → List SecretPartitionData → Views → Sql Views
  mirror_all id [] t = ok t
  mirror_all id (partition ∷ rest) t = details_update partition >>= λ update.
      mirror_all id rest (modify id (concat_details partition.person_ref update) t)

  unfoldable pub apply_event_in_tx : Uuid → ℕ → JourneyEvent → Views → Sql Views
  unfolding update_journey assign_secrets mirror_all
  apply_event_in_tx journey_id sequence (started id) t =
      version_of sequence >>= λ version. ok (insert_absent id version t (get id t))
  apply_event_in_tx journey_id sequence (modified step payload) t =
      fetched (get journey_id t) >>= λ current.
      update_journey journey_id sequence
        (λ row. record row { shared_data = c.merge current.shared_data payload }) t
  apply_event_in_tx journey_id sequence (person_captured person_ref subject_id name email phone) t =
      insert_under journey_id (upsert_person person_ref subject_id name email phone) t
        (get journey_id t)
      >>= update_journey journey_id sequence (λ row. row)
  apply_event_in_tx journey_id sequence (person_details_updated person_ref subject_id payload) t =
      update_journey journey_id sequence (λ row. row)
        (modify journey_id (concat_details person_ref payload) t)
  apply_event_in_tx journey_id sequence (subject_forgotten subject_id) t =
      update_journey journey_id sequence (λ row. row) (modify journey_id (forget_rows subject_id) t)
  apply_event_in_tx journey_id sequence (workflow_evaluated suggested_actions phase) t =
      let retired = modify journey_id retire_all t in
      insert_under journey_id (add_decision suggested_actions phase) retired
        (get journey_id retired)
      >>= update_journey journey_id sequence (λ row. row)
  apply_event_in_tx journey_id sequence (step_progressed from_step to_step) t =
      update_journey journey_id sequence (λ row. record row { current_step = some to_step }) t
  apply_event_in_tx journey_id sequence completed t =
      update_journey journey_id sequence (λ row. record row { state = "Complete" }) t
  apply_event_in_tx journey_id sequence (attributes_set plaintext secret_partitions) t =
      fetched (get journey_id t) >>= λ current.
      assigned (assign_all c current.shared_data plaintext) >>= λ merged.
      assign_secrets secret_partitions merged >>= λ merged'.
      update_journey journey_id sequence (λ row. record row { shared_data = merged' }) t
      >>= mirror_all journey_id secret_partitions

  -- The loop of `dispatch`, over events with their sequence numbers.
  unfoldable pub apply_events : Uuid → List (ℕ × JourneyEvent) → Views → Sql Views
  apply_events journey_id [] t = ok t
  apply_events journey_id ((sequence, event) ∷ events) t =
      apply_event_in_tx journey_id sequence event t >>= apply_events journey_id events

  -- The end of the transaction: an error rolls back, `none` is a panic.
  abbrev pub committed : Views → Sql Views → Option Views
  committed before (ok t) = some t
  committed before (err (error e)) = some before
  committed before (err panic) = none

  abbrev pub dispatch_to : Option Uuid → List (ℕ × JourneyEvent) → Views → Option Views
  dispatch_to none events t = some t
  dispatch_to (some journey_id) events t = committed t (apply_events journey_id events t)

  unfoldable pub dispatch :
      (String → Option Uuid) → String → List (ℕ × JourneyEvent) → Views → Option Views
  dispatch parse_uuid view_id [] t = some t
  dispatch parse_uuid view_id (event ∷ events) t =
      dispatch_to (parse_uuid view_id) (event ∷ events) t

-- WHERE is_latest = TRUE ORDER BY created_at DESC LIMIT 1
unfoldable pub latest : List DecisionRow → Option WorkflowDecisionView
latest [] = none
latest (row ∷ rows) = elim (latest rows) [
  | some decision ↦ some decision
  | none ↦
      if row.is_latest
      then some (record { suggested_actions = row.suggested_actions; phase = row.phase })
      else none
]

abbrev pub read_state : String → ViewState
read_state state = if str_eq state "Complete" then complete else in_progress

-- `load_persons_with`, in the order of the names.
unfoldable pub person_views : Uuid → BTreeMap String PersonRow → List PersonView
person_views journey_id [] = []
person_views journey_id ((person_ref, row) ∷ rows) =
    record {
      journey_id = journey_id;
      person_ref = person_ref;
      subject_id = row.subject_id;
      name = row.name;
      email = row.email;
      phone = row.phone;
      details = row.details;
      forgotten = row.forgotten;
    }
    ∷ person_views journey_id rows

abbrev pub view_of : Uuid → Option JourneyRow → Option JourneyView
view_of journey_id none = none
view_of journey_id (some row) = some (record {
  id = journey_id;
  state = read_state row.state;
  shared_data = row.shared_data;
  current_step = row.current_step;
  latest_workflow_decision = latest row.decisions;
  persons = person_views journey_id row.persons;
})

-- `load`, in one snapshot
unfoldable pub load : Uuid → Views → Option JourneyView
unfolding latest person_views
load journey_id t = view_of journey_id (get journey_id t)
