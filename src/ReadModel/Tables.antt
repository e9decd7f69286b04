-- ===== src/ReadModel/Tables.antt =====
-- The tables of the read model, and the statements of
-- crates/journey_dynamics/src/view_repository.rs on them. A row of `journey_person` and of
-- `journey_workflow_decision` hangs on the journey that it references. The columns with times are
-- left out; a `version` is what `sequence as i64` gives, which the tables want not to be negative.
use journey_dynamics.Base.{
  ℕ, ◌^◌, String, Bool, true, false, Option, none, some, List, [], ◌∷◌, ◌++◌, map, Result, ok, err,
  ltb, nat_ord, text_ord, ◌==◌, if◌then◌else◌, ◌>>=◌,
}
use journey_dynamics.Base.BTreeMap.{BTreeMap, get, insert, modify_all}
use journey_dynamics.Json.{Uuid, Value, empty_object}
use journey_dynamics.Crypto.Primitives.{Failure, error}

pub record PersonRow : Type 0 where
  pub subject_id : Uuid
  pub name : Option String
  pub email : Option String
  pub phone : Option String
  pub details : Value
  pub forgotten : Bool

pub record DecisionRow : Type 0 where
  pub suggested_actions : List String
  pub phase : Option String
  pub is_latest : Bool

pub record JourneyRow : Type 0 where
  pub state : String
  pub shared_data : Value
  pub current_step : Option String
  pub version : ℕ
  -- by `person_ref`
  pub persons : BTreeMap String PersonRow
  -- in the order of their insertion
  pub decisions : List DecisionRow

abbrev pub Views : Type 0
Views = BTreeMap Uuid JourneyRow

pub data SqlError : Type 0 where
  row_not_found : SqlError
  check_violation : SqlError
  foreign_key_violation : SqlError

abbrev pub Sql {ℓ} : Type ℓ → Type ℓ
Sql A = Result (Failure SqlError) A

-- `event.sequence as i64`, in a column with `CHECK (version >= 0)`
abbrev pub version_of : ℕ → Sql ℕ
version_of sequence = if ltb sequence (2 ^ 63) then ok sequence else err (error check_violation)

-- `fetch_one`
abbrev pub fetched : Option JourneyRow → Sql JourneyRow
fetched none = err (error row_not_found)
fetched (some row) = ok row

-- UPDATE journey_view SET …, version WHERE id: without a row there is nothing to do.
abbrev pub update_found :
    Uuid → ℕ → (JourneyRow → JourneyRow) → Views → Option JourneyRow → Sql Views
update_found id sequence set t none = ok t
update_found id sequence set t (some row) =
    version_of sequence >>= λ version. ok (insert id (record (set row) { version = version }) t)

unfoldable pub update_journey : Uuid → ℕ → (JourneyRow → JourneyRow) → Views → Sql Views
update_journey id sequence set t = update_found id sequence set t (get id t)

-- INSERT INTO journey_view … ON CONFLICT (id) DO NOTHING
abbrev pub insert_absent : Uuid → ℕ → Views → Option JourneyRow → Views
insert_absent id version t (some row) = t
insert_absent id version t none =
    insert id
      (record {
        state = "InProgress";
        shared_data = empty_object;
        current_step = none;
        version = version;
        persons = [];
        decisions = [];
      })
      t

-- INSERT INTO journey_person … ON CONFLICT DO UPDATE
abbrev pub upsert_slot : Uuid → String → String → Option String → Option PersonRow → PersonRow
upsert_slot subject_id name email phone none = record {
  subject_id = subject_id;
  name = some name;
  email = some email;
  phone = phone;
  details = empty_object;
  forgotten = false;
}
upsert_slot subject_id name email phone (some row) = record row {
  subject_id = subject_id;
  name = some name;
  email = some email;
  phone = phone;
}

abbrev pub upsert_person : String → Uuid → String → String → Option String → JourneyRow → JourneyRow
upsert_person person_ref subject_id name email phone row = record row {
  persons =
      insert person_ref (upsert_slot subject_id name email phone (get person_ref row.persons))
        row.persons;
}

-- An INSERT that references the journey.
abbrev pub insert_under : Uuid → (JourneyRow → JourneyRow) → Views → Option JourneyRow → Sql Views
insert_under id set t none = err (error foreign_key_violation)
insert_under id set t (some row) = ok (insert id (set row) t)

-- UPDATE journey_person SET name = NULL, … WHERE journey_id AND subject_id
abbrev pub forget_row : Uuid → PersonRow → PersonRow
forget_row subject_id row =
    if row.subject_id == subject_id
    then record row {
      name = none;
      email = none;
      phone = none;
      details = empty_object;
      forgotten = true;
    }
    else row

abbrev pub forget_rows : Uuid → JourneyRow → JourneyRow
forget_rows subject_id row = record row { persons = modify_all (forget_row subject_id) row.persons }

-- UPDATE journey_workflow_decision SET is_latest = FALSE, and the INSERT
abbrev pub retire : DecisionRow → DecisionRow
retire row = record row { is_latest = false }

abbrev pub retire_all : JourneyRow → JourneyRow
retire_all row = record row { decisions = map retire row.decisions }

abbrev pub add_decision : List String → Option String → JourneyRow → JourneyRow
add_decision suggested_actions phase row = record row {
  decisions =
      row.decisions
      ++ record { suggested_actions = suggested_actions; phase = phase; is_latest = true } ∷ [];
}
