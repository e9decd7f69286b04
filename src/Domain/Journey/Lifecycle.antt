-- ===== src/Domain/Journey/Lifecycle.antt =====
-- The life of a journey: what a command may do before the start, while it is open and after its
-- completion.
use journey_dynamics.Base.{
  Bool, true, false, some, [], ◌∷◌, ok, err, ◌≡◌, refl, ◌≢◌, arith, text_ord,
}
use journey_dynamics.Json.{Uuid, nil_uuid, Crates}
use journey_dynamics.Domain.Events.{started, completed}
use journey_dynamics.Domain.Commands.{
  JourneyCommand, start, capture, set_attributes, capture_person, capture_person_details,
  complete as complete_command, forget_subject,
}
use journey_dynamics.Domain.Journey.{Journey, in_progress, complete, apply, apply_all}
use journey_dynamics.Domain.Journey.Handle.{
  not_found, already_completed, handle_start, handle_capture_person, handle_capture_person_details,
  handle_capture, handle_complete, handle_forget_subject, handle_set_attributes, handle,
}
use journey_dynamics.Services.{JourneyServices}

abbrev pub is_start : JourneyCommand → Bool
is_start (start _) = true
is_start _ = false

abbrev pub is_forget : JourneyCommand → Bool
is_forget (forget_subject _) = true
is_forget _ = false

module _ (c : Crates) (services : JourneyServices) (j : Journey) where
  -- Before its start a journey answers every command but `start` with `not_found`.
  pub unstarted_not_found :
      (cmd : JourneyCommand)
      → j.id ≡ nil_uuid
      → is_start cmd ≡ false
      → handle c services cmd j ≡ err not_found
  unfolding handle handle_capture handle_capture_person handle_capture_person_details
      handle_complete handle_forget_subject handle_set_attributes
  unstarted_not_found (start id) h n = cc
  unstarted_not_found (capture step payload) h n = ground arith
  unstarted_not_found (set_attributes changes) h n = ground arith
  unstarted_not_found (capture_person r s name email phone) h n = ground arith
  unstarted_not_found (capture_person_details r payload) h n = ground arith
  unstarted_not_found complete_command h n = ground arith
  unstarted_not_found (forget_subject s) h n = ground arith

  -- A started journey that is complete answers every command but `start` and `forget_subject` with
  -- `already_completed`.
  pub completed_rejects :
      (cmd : JourneyCommand)
      → j.id ≢ nil_uuid
      → j.state ≡ complete
      → is_start cmd ≡ false
      → is_forget cmd ≡ false
      → handle c services cmd j ≡ err already_completed
  unfolding handle handle_capture handle_capture_person handle_capture_person_details
      handle_complete handle_set_attributes
  completed_rejects (start id) h s n f = cc
  completed_rejects (forget_subject u) h s n f = cc
  completed_rejects (capture step payload) h s n f = ground arith
  completed_rejects (set_attributes changes) h s n f = ground arith
  completed_rejects (capture_person r u name email phone) h s n f = ground arith
  completed_rejects (capture_person_details r payload) h s n f = ground arith
  completed_rejects complete_command h s n f = ground arith

  -- `start` with an id that is neither the journey's own nor nil is accepted by a complete journey
  -- too: the journey takes the new id and is in progress, keeps its persons, its data and its
  -- step, and `complete` is then accepted a second time.
  pub start_reopens :
      (id : Uuid)
      → j.state ≡ complete
      → j.id ≢ id
      → id ≢ nil_uuid
      → (handle c services (start id) j ≡ ok (started id ∷ []))
        × (apply_all c (started id ∷ []) j ≡ some (record j { id = id; state = in_progress }))
        × (handle c services complete_command (record j { id = id; state = in_progress })
            ≡ ok (completed ∷ []))
  unfolding handle handle_start handle_complete apply_all apply
  start_reopens id done other proper = (ground arith, refl, ground arith)
