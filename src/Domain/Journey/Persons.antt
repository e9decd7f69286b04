-- ===== src/Domain/Journey/Persons.antt =====
-- The commands `capture_person` and `forget_subject`, by what they do to the slots.
use mathlib.Core.Option
use journey_dynamics.Base.Text.{str_ne}
use journey_dynamics.Base.{
  false, String, Option, none, some, List, [], ◌∷◌, any, ok, ◌≡◌, refl, ◌≢◌, ◌∙◌, inl, inr, ap,
  arith, text_ord, key-cases, Bool-cases, str_eq, eq_iff, if◌then◌else◌,
}
use journey_dynamics.Base.BTreeMap.{
  BTreeMap, get, insert, values, modify_all, get-insert_self, get-insert_ne, get-modify_all,
}
use journey_dynamics.Json.{Uuid, nil_uuid, Crates}
use journey_dynamics.Domain.Events.{JourneyEvent, person_captured, subject_forgotten}
use journey_dynamics.Domain.Commands.{capture_person, forget_subject}
use journey_dynamics.Domain.Journey.{
  Journey, PersonSlot, in_progress, slot_or_fresh, forget_slot, capture_slot, apply, apply_all,
}
use journey_dynamics.Domain.Journey.Handle.{
  handle, handle_capture_person, handle_forget_subject, is_live_slot_of, slot_conflicts,
}
use journey_dynamics.Services.{JourneyServices}

-- The slot after a capture that is accepted.
abbrev pub captured : Option PersonSlot → Uuid → String → String → Option String → PersonSlot
captured o u name email phone = record {
  subject_id = u;
  name = some name;
  email = some email;
  phone = phone;
  details = (slot_or_fresh o u).details;
  forgotten = (slot_or_fresh o u).forgotten;
}

captured_lem :
    (o : Option PersonSlot) (u : Uuid) (name email : String) (phone : Option String)
    → slot_conflicts o u ≡ false
    → record (slot_or_fresh o u) { name = some name; email = some email; phone = phone }
      ≡ captured o u name email phone
captured_lem none u name email phone h = refl
captured_lem (some slot) u name email phone h = ground arith

get-insert_text :
    (q r : String) (slot : PersonSlot) (persons : BTreeMap String PersonSlot)
    → get q (insert r slot persons) ≡ (if str_eq q r then some slot else get q persons)
get-insert_text q r slot persons = elim (key-cases q r) [
  | inl same ↦
      ap (λ k. get k (insert r slot persons)) same
      ∙ get-insert_self r slot persons
      ∙ rw ((eq_iff q r).1 same) refl
  | inr other ↦ get-insert_ne q r slot persons other ∙ rw (str_ne q r other) refl
]

-- Where no slot of the subject is live, the erasure has nothing to change.
forget_slot_dead :
    (u : Uuid) (persons : BTreeMap String PersonSlot) (r : String)
    → any (is_live_slot_of u) (values persons) ≡ false
    → get r persons ≡ Option.map (forget_slot u) (get r persons)
unfolding get
forget_slot_dead u [] r h = refl
forget_slot_dead u ((q, s) ∷ persons) r h = ground (arith, forget_slot_dead u persons r)

forgotten_none_live :
    (u : Uuid) (persons : BTreeMap String PersonSlot)
    → any (is_live_slot_of u) (values (modify_all (forget_slot u) persons)) ≡ false
unfolding modify_all
forgotten_none_live u [] = refl
forgotten_none_live u ((q, s) ∷ persons) = ground (arith, forgotten_none_live u persons)

-- What `forget_subject` leaves: every slot of the subject forgotten, every other as it was.
abbrev pub Forgets : Uuid → Journey → Journey → Type 0
Forgets u j j' = (r : String) → get r j'.persons ≡ Option.map (forget_slot u) (get r j.persons)

module _ (c : Crates) (services : JourneyServices) (j : Journey)
    (is_started : j.id ≢ nil_uuid) where
  -- `capture_person` on an open journey, for a slot that is free or bound to the same subject: the
  -- slot of that name holds the subject and the identity that the command gives, with the details
  -- and the tombstone that it had, and no other slot changes.
  pub capture_person_lem :
      (r : String) (u : Uuid) (name email : String) (phone : Option String)
      → j.state ≡ in_progress
      → slot_conflicts (get r j.persons) u ≡ false
      → (j' : Journey) × (handle c services (capture_person r u name email phone) j
          ≡ ok (person_captured r u name email phone ∷ []))
        × (apply_all c (person_captured r u name email phone ∷ []) j ≡ some j')
        × ((q : String)
            → get q j'.persons ≡ (
                if str_eq q r
                then some (captured (get r j.persons) u name email phone)
                else get q j.persons))
  unfolding handle handle_capture_person apply_all apply capture_slot
  capture_person_lem r u name email phone is_open free =
      let slot = record (slot_or_fresh (get r j.persons) u) {
        name = some name;
        email = some email;
        phone = phone;
      } in
      (
        record j { persons = insert r slot j.persons },
        ground arith,
        refl,
        λ q.
            get-insert_text q r slot j.persons
            ∙ ap (λ x. if str_eq q r then some x else get q j.persons)
                (captured_lem (get r j.persons) u name email phone free),
      )

  -- `forget_subject` on a started journey, complete or not, is accepted: afterwards every slot of
  -- the subject is marked forgotten and every other slot is unchanged, and asking again is
  -- accepted with no event.
  pub forget_subject_lem :
      (u : Uuid)
      → (events : List JourneyEvent) × (j' : Journey) × (handle c services (forget_subject u) j
          ≡ ok events)
        × (apply_all c events j ≡ some j')
        × Forgets u j j'
        × (handle c services (forget_subject u) j' ≡ ok [])
  unfolding handle handle_forget_subject apply_all apply
  forget_subject_lem u = elim (Bool-cases (any (is_live_slot_of u) (values j.persons))) [
    | inl live ↦ (
      subject_forgotten u ∷ [],
      record j { persons = modify_all (forget_slot u) j.persons },
      ground arith,
      refl,
      λ r. get-modify_all r (forget_slot u) j.persons,
      ground (arith, forgotten_none_live u j.persons),
    )
    | inr dead ↦ ([], j, ground arith, refl, λ r. forget_slot_dead u j.persons r dead, ground arith)
  ]
