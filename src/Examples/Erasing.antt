-- ===== src/Examples/Erasing.antt =====
-- The theorem on erasures by email at a concrete state, and the search for journeys.
use journey_dynamics.Base.{
  String, Option, none, some, List, [], ◌∷◌, Result, ok, nat_ord, ◌≡◌, refl, if◌then◌else◌, ◌==◌,
}
use journey_dynamics.Json.{Uuid, string, array, object, entry, end, cons, nil}
use journey_dynamics.Json.Map.{object_get}
use journey_dynamics.Domain.Commands.{JourneyCommand}
use journey_dynamics.Crypto.Primitives.{zeros}
use journey_dynamics.Crypto.Events.{SerializedEvent}
use journey_dynamics.SubjectLookup.{find_subjects_by_email}
use journey_dynamics.Erasing.{
  Faults, Step, commit_transaction, World, find_journeys_by_subject, refers_to, distinct,
  shred_subjects_by_email,
}
use journey_dynamics.Erasing.Rows.{ErasesBy, shred_subjects_by_email-ErasesBy}
use journey_dynamics.Examples.Erasure.{event}

-- The journal is the events, and a command adds none.
abbrev execute :
    String → JourneyCommand → List SerializedEvent → Result String (Unit {0}) × List SerializedEvent
execute id command events = (ok tt, events)

abbrev capture : SerializedEvent
capture = record event {
  event_type = "PersonCaptured";
  payload = object (entry "PersonCaptured" (object (entry "subject_id" (string "s") end)) end);
}

abbrev sealed : SerializedEvent
sealed = record event {
  payload =
      object
        (entry "AttributesSet" (object (entry "subjects" (array (cons (string "s") nil)) end)) end);
}

abbrev world : World (List SerializedEvent)
world = record {
  keys =
      (3, record { key_id = 1; wrapped_key = zeros 40; kek_id = "v1" })
      ∷ (4, record { key_id = 2; wrapped_key = zeros 40; kek_id = "v1" })
      ∷ [];
  lookup = (3, "ada@x") ∷ (4, "ada@x") ∷ [];
  journal = capture ∷ sealed ∷ [];
}

-- The commit of the second subject fails.
abbrev at_commit : Step → Option String
at_commit commit_transaction = some "connection closed"
at_commit _ = none

abbrev faults : Uuid → Faults
faults u = if u == 4 then at_commit else (λ step. none)

shred_subjects_by_email-ErasesBy_example :
    ErasesBy (find_subjects_by_email (λ s. s) "ada@x" world.lookup) world (
      shred_subjects_by_email
        (λ u. "s")
        (λ s. s)
        (λ events. events)
        execute
        none
        faults
        "ada@x"
        world)
shred_subjects_by_email-ErasesBy_example =
    shred_subjects_by_email-ErasesBy (λ u. "s") (λ s. s) (λ events. events) execute none faults
      "ada@x" world

-- One journey, found through both of its events.
one_journey : find_journeys_by_subject "s" (capture ∷ sealed ∷ []) ≡ "7" ∷ []
unfolding find_journeys_by_subject refers_to distinct object_get
one_journey = refl
