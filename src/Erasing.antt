-- ===== src/Erasing.antt =====
-- crates/journey_dynamics/src/route_handler.rs: the erasure of subjects, with the search for their
-- journeys in crates/journey_dynamics/src/view_repository.rs. Any step on the database may fail. The
-- execution of a command, by `cqrs_es`, is a parameter that works on the journal only: its event
-- `SubjectForgotten` has no secrets and captures nobody. SQL's `DISTINCT` keeps the last of equals.
pub mod Rows
use journey_dynamics.Base.{
  ℕ, String, Bool, true, false, ◌&&◌, ◌||◌, Option, none, some, List, [], ◌∷◌, any, map, filter,
  Result, ok, err, nat_ord, str_eq, ◌==◌, if◌then◌else◌, ◌>>=◌,
}
use journey_dynamics.Base.BTreeMap.{remove}
use journey_dynamics.Json.{Uuid, Value, string, array}
use journey_dynamics.Json.Map.{as_str}
use journey_dynamics.Domain.Commands.{JourneyCommand, forget_subject}
use journey_dynamics.Crypto.Events.{SerializedEvent}
use journey_dynamics.Crypto.Envelope.{as_array}
use journey_dynamics.Crypto.Postgres.{Table}
use journey_dynamics.SubjectLookup.{
  Lookup, value_get, delete_subject_lookup, find_subjects_by_email,
}

-- `payload -> event_type ->> 'subject_id' = $1`
abbrev pub is_text : String → Option Value → Bool
is_text s (some (string t)) = str_eq t s
is_text s _ = false

abbrev pub path_of : String → String → Value → Option Value
path_of event_type key payload = elim (value_get event_type payload) [
  | none ↦ none
  | some inner ↦ value_get key inner
]

-- `payload -> 'AttributesSet' -> 'subjects' @> jsonb_build_array($1)`
abbrev pub contains_text : String → Option Value → Bool
contains_text s (some (array vs)) = elim (as_array (array vs)) [
  | none ↦ false
  | some items ↦ any (λ v. is_text s (some v)) items
]
contains_text s _ = false

-- The condition of the query.
unfoldable pub refers_to : String → SerializedEvent → Bool
refers_to subject event =
    str_eq event.aggregate_type "Journey"
    && ((str_eq event.event_type "PersonCaptured"
          && is_text subject (path_of "PersonCaptured" "subject_id" event.payload))
        || (str_eq event.event_type "PersonDetailsUpdated"
            && is_text subject (path_of "PersonDetailsUpdated" "subject_id" event.payload))
        || (str_eq event.event_type "AttributesSet"
            && contains_text subject (path_of "AttributesSet" "subjects" event.payload)))

-- `SELECT DISTINCT`
unfoldable pub distinct : List String → List String
distinct [] = []
distinct (s ∷ ss) = let rest = distinct ss in if any (λ t. str_eq t s) ss then rest else s ∷ rest

-- `find_journeys_by_subject`
unfoldable pub find_journeys_by_subject : String → List SerializedEvent → List String
unfolding refers_to distinct
find_journeys_by_subject subject events =
    distinct (map (λ (e : SerializedEvent). e.aggregate_id) (filter (refers_to subject) events))

-- The steps on the database.
pub data Step : Type 0 where
  find_journeys begin_transaction delete_key delete_lookup commit_transaction : Step

-- The message of each step that fails.
abbrev pub Faults : Type 0
Faults = Step → Option String

abbrev pub checked : Option String → Result String (Unit {0})
checked none = ok tt
checked (some e) = err e

-- The two deletions in one transaction.
unfoldable pub erase_rows : Faults → Uuid → Table → Lookup → Result String (Table × Lookup)
erase_rows faults u keys lookup = do
  begun ← checked (faults begin_transaction)
  key ← checked (faults delete_key)
  row ← checked (faults delete_lookup)
  done ← checked (faults commit_transaction)
  ok (remove u keys, delete_subject_lookup u lookup)

-- What the handlers change: the keys, the lookup of subjects, and the journal of the aggregates.
pub record World (J : Type 0) : Type 0 where
  pub keys : Table
  pub lookup : Lookup
  pub journal : J

pub data Status : Type 0 where
  no_content internal_server_error : Status

module _ {J : Type 0} (uuid_to_string : Uuid → String) (lower : String → String)
    (events_of : J → List SerializedEvent)
    (execute : String → JourneyCommand → J → Result String (Unit {0}) × J) where
  -- The best-effort loop: an error is logged.
  unfoldable pub forget_in_all : Uuid → List String → J → J
  forget_in_all u [] journal = journal
  forget_in_all u (aggregate_id ∷ ids) journal =
      forget_in_all u ids (execute aggregate_id (forget_subject u) journal).1

  -- After the transaction.
  abbrev pub after_erasure :
      Uuid
      → List String
      → World J
      → Result String (Table × Lookup)
      → Result String (Unit {0}) × World J
  after_erasure u ids w (err e) = (err e, w)
  after_erasure u ids w (ok (keys, lookup)) =
      (ok tt, record { keys = keys; lookup = lookup; journal = forget_in_all u ids w.journal })

  abbrev pub after_search :
      Faults → Uuid → World J → Result String (Unit {0}) → Result String (Unit {0}) × World J
  after_search faults u w (err e) = (err e, w)
  after_search faults u w (ok done) =
      after_erasure u (find_journeys_by_subject (uuid_to_string u) (events_of w.journal)) w
        (erase_rows faults u w.keys w.lookup)

  unfoldable pub shred_one_subject : Faults → Uuid → World J → Result String (Unit {0}) × World J
  unfolding find_journeys_by_subject erase_rows forget_in_all
  shred_one_subject faults u w = after_search faults u w (checked (faults find_journeys))

  -- `if shred(subject_id).await.is_err() { failed.push(subject_id) }`
  abbrev pub add_failed : Uuid → Result String (Unit {0}) → List Uuid → List Uuid
  add_failed u (ok done) failed = failed
  add_failed u (err e) failed = u ∷ failed

  -- The loop of `shred_each`: the subjects that failed.
  unfoldable pub shred_each : (Uuid → Faults) → List Uuid → World J → List Uuid × World J
  unfolding shred_one_subject
  shred_each faults [] w = ([], w)
  shred_each faults (u ∷ us) w =
      let (result, w₁) = shred_one_subject (faults u) u w in
      let (failed, w') = shred_each faults us w₁ in (add_failed u result failed, w')

  abbrev pub status_of : List Uuid → Status
  status_of [] = no_content
  status_of (u ∷ failed) = internal_server_error

  -- After the search of the subjects.
  abbrev pub shred_found : (Uuid → Faults) → String → World J → Option String → Status × World J
  shred_found faults email w (some e) = (internal_server_error, w)
  shred_found faults email w none =
      let (failed, w') = shred_each faults (find_subjects_by_email lower email w.lookup) w in
      (status_of failed, w')

  unfoldable pub shred_subjects_by_email :
      Option String → (Uuid → Faults) → String → World J → Status × World J
  unfolding shred_each
  shred_subjects_by_email fault faults email w = shred_found faults email w fault
