-- ===== src/Examples/Views.antt =====
-- The theorems on the read model at a concrete journey.
use journey_dynamics.Base.{
  ℕ, String, false, Option, none, some, List, [], ◌∷◌, ok, ◌≡◌, ◌≢◌, refl, nat_ord, text_ord, lt,
  eq, gt,
}
use journey_dynamics.Base.BTreeMap.{get, insert, modify, modify_all}
use journey_dynamics.Json.{Uuid, Value, string, object, entry, end, empty_object}
use journey_dynamics.Domain.JsonPath.{assign_all}
use journey_dynamics.Domain.Events.{
  JourneyEvent, started, person_captured, step_progressed, completed, subject_forgotten,
  attributes_set,
}
use journey_dynamics.Domain.Journey.{
  Journey, PersonSlot, default_journey, apply, apply_all, apply_partitions, capture_slot,
  in_progress, complete,
}
use journey_dynamics.ReadModel.{PersonView, JourneyView, default_view, update_all}
use journey_dynamics.ReadModel.Slots.{SameSlot}
use journey_dynamics.ReadModel.Tables.{PersonRow, forget_rows, JourneyRow, Views, update_journey}
use journey_dynamics.ReadModel.Projection.{apply_event_in_tx, apply_events, dispatch, load, latest}
use journey_dynamics.ReadModel.History.{Fitting, Shows, dispatch-Shows}
use journey_dynamics.ReadModel.Updates.{load-update_all}
use journey_dynamics.ReadModel.Forgetting.{Forgets, dispatch-Forgets}
use journey_dynamics.Examples.Fixtures.{crates}

-- The right operand of `||`, and one known id.
abbrev replace : Value → Value → Value
replace old new = new

abbrev parse : String → Option Uuid
parse s = some 7

abbrev shared : Value
shared = object (entry "/persons/ada/name" (string "Ada L.") (entry "/trip/to" (string "Oslo") end))

abbrev ada : PersonSlot
ada = record {
  subject_id = 3;
  name = some "Ada";
  email = some "ada@x";
  phone = none;
  details = empty_object;
  forgotten = false;
}

abbrev written : Journey
written = record {
  id = 7;
  state = in_progress;
  shared_data = shared;
  persons = ("ada", record ada { details = object (entry "/name" (string "Ada L.") end) }) ∷ [];
  current_step = none;
  latest_workflow_decision = none;
}

-- The journey's row before a later batch.
abbrev ada_row : PersonRow
ada_row = record {
  subject_id = 3;
  name = some "Ada";
  email = some "ada@x";
  phone = none;
  details = empty_object;
  forgotten = false;
}

abbrev row : JourneyRow
row = record {
  state = "InProgress";
  shared_data = shared;
  current_step = none;
  version = 2;
  persons = ("ada", ada_row) ∷ [];
  decisions = [];
}

abbrev table : Views
table = (7, row) ∷ []

shows : Shows crates replace 7 written table
unfolding get latest
shows = (
  row,
  refl,
  record {
    state = refl;
    shared = refl;
    step = refl;
    decision = refl;
    persons = λ k.
        elim (text_ord.cmp k "ada")
          as (λ o.
            SameSlot
              (elim o [
                | eq ↦ some (record ada { details = object (entry "/name" (string "Ada L.") end) })
                | _ ↦ none
              ])
              (elim o [ eq ↦ some ada_row | _ ↦ none ])) [
                | eq ↦ record { subject = refl; tombstone = refl; known = λ e. (refl, refl, refl) }
                | lt ↦ tt
                | gt ↦ tt
              ];
  },
)

closing : Fitting crates replace 7 ((3, completed) ∷ []) written
closing = (refl, tt, λ j e. tt)

dispatch-Shows_example :
    (t : Views) × (dispatch crates replace parse "7" ((3, completed) ∷ []) table ≡ some t)
    × Shows crates replace 7 (record written { state = complete }) t
unfolding apply_all apply
dispatch-Shows_example =
    dispatch-Shows crates replace 7 parse "7" refl ((3, completed) ∷ []) table written
      (record written { state = complete }) closing refl shows

dispatch-Forgets_example :
    (t : Views) × (row' : JourneyRow) × (dispatch crates replace parse "7"
        ((3, subject_forgotten 3) ∷ [])
        table
      ≡ some t)
    × (get 7 t ≡ some row')
    × Forgets 3 row row'
    × ((v : Uuid) → v ≢ 7 → get v t ≡ get v table)
unfolding get
dispatch-Forgets_example = dispatch-Forgets crates replace 7 parse "7" refl 3 3 table row refl refl

-- The secret change stays in the shared data of the view.
abbrev shared_of : Option JourneyView → Option Value
shared_of none = none
shared_of (some v) = some v.shared_data

secret_stays :
    apply_events crates replace 7 ((3, subject_forgotten 3) ∷ []) table
    ≡ ok ((7, record (forget_rows 3 row) { version = 3 }) ∷ [])
unfolding apply_events apply_event_in_tx update_journey modify modify_all get insert
secret_stays = refl

secret_shown :
    shared_of (load 7 ((7, record (forget_rows 3 row) { version = 3 }) ∷ [])) ≡ some shared
unfolding load get
secret_shown = refl

-- A history without secrets.
abbrev plain_events : List (ℕ × JourneyEvent)
plain_events =
    (1, person_captured "ada" 3 "Ada" "ada@x" none)
    ∷ (2, attributes_set (("/trip/to", string "Oslo") ∷ []) [])
    ∷ (3, step_progressed none "seats")
    ∷ []

abbrev plain : Journey
plain = record {
  id = 7;
  state = in_progress;
  shared_data = object (entry "/trip/to" (string "Oslo") end);
  persons = ("ada", ada) ∷ [];
  current_step = some "seats";
  latest_workflow_decision = none;
}

plain_fits : Fitting crates replace 7 plain_events (record default_journey { id = 7 })
unfolding get
plain_fits = (refl, tt, λ j e. (refl, tt, λ j' e'. (refl, tt, λ j'' e''. tt)))

load-update_all_example :
    (t : Views) × (v : JourneyView) × (persons : List PersonView) × (dispatch crates replace parse
        "7"
        ((0, started 7) ∷ plain_events)
        []
      ≡ some t)
    × (update_all crates
          (started 7
            ∷ person_captured "ada" 3 "Ada" "ada@x" none
            ∷ attributes_set (("/trip/to", string "Oslo") ∷ []) []
            ∷ step_progressed none "seats"
            ∷ [])
          default_view
        ≡ some v)
    × (load 7 t ≡ some (record v { persons = persons }))
unfolding get apply_all apply apply_partitions capture_slot assign_all insert
load-update_all_example =
    load-update_all crates replace 7 parse "7" 0 plain_events [] plain refl refl refl plain_fits
      refl (tt, (refl, (tt, tt)))
