-- ===== src/ReadModel/Following.antt =====
-- The read model after an event is that of the journey.
use journey_dynamics.Base.{
  ℕ, true, some, map, nat_ord, text_ord, ◌≡◌, refl, sym, ap, subst, ◌∙◌, ◌>>=◌,
}
use journey_dynamics.Base.Partial.{some-eq-some, bind-eq-some, unwrap}
use journey_dynamics.Base.BTreeMap.{get, modify}
use journey_dynamics.Json.{Uuid, Value, Crates}
use journey_dynamics.Domain.JsonPath.{assign_all}
use journey_dynamics.Domain.Events.{
  JourneyEvent, started, modified, person_captured, person_details_updated, workflow_evaluated,
  step_progressed, completed, subject_forgotten, attributes_set,
}
use journey_dynamics.Domain.Journey.{Journey, capture_slot, apply}
use journey_dynamics.ReadModel.Tables.{
  JourneyRow, Views, Sql, fetched, update_journey, upsert_person, forget_rows, retire, retire_all,
  add_decision,
}
use journey_dynamics.ReadModel.Projection.{
  assigned, assign_secrets, concat_details, mirror_all, apply_event_in_tx,
}
use journey_dynamics.ReadModel.Rows.{
  Reaches, IsSequence, update_journey-Reaches, insert_under-Reaches, get-modify_found,
  fetch-Reaches, latest-append,
}
use journey_dynamics.ReadModel.Slots.{insert-SamePersons, forget-SamePersons, modify-SamePersons}
use journey_dynamics.ReadModel.Agreement.{
  Agrees, state_text, decision_view, Fits, Follows, capture-SlotAgrees, unwrapped,
  apply_partitions-Assigned, mirror_all-Follows,
}

module _ (c : Crates) (concat : Value → Value → Value) (id : Uuid) where
  update-Follows :
      (n : ℕ) (set : JourneyRow → JourneyRow) (t : Views) (row : JourneyRow) (j : Journey)
      → IsSequence n
      → get id t ≡ some row
      → Agrees j (record (set row) { version = n })
      → Follows c concat id j (update_journey id n set t)
  update-Follows n set t row j small found h =
      (record (set row) { version = n }, update_journey-Reaches id n set t row found small, h)

  fetch-Follows :
      (k : JourneyRow → Sql Views) (t : Views) (row : JourneyRow) (j : Journey)
      → get id t ≡ some row
      → Follows c concat id j (k row)
      → Follows c concat id j (fetched (get id t) >>= k)
  fetch-Follows k t row j found (row', reaches, h) =
      (row', fetch-Reaches id k t row row' found reaches, h)

  pub bind-Follows :
      (m : Sql Views) (k : Views → Sql Views) (row : JourneyRow) (j : Journey)
      → Reaches id row m
      → ((t : Views) → get id t ≡ some row → Follows c concat id j (k t))
      → Follows c concat id j (m >>= k)
  bind-Follows m k row j (t, ran, found) next =
      let (row', (t', ran', found'), h) = next t found in
      (row', (t', ap (λ (x : Sql Views). x >>= k) ran ∙ ran', found'), h)

  pub apply_event_in_tx-Follows :
      (event : JourneyEvent) (n : ℕ) (t : Views) (row : JourneyRow) (j j' : Journey)
      → IsSequence n
      → Fits c concat event j
      → apply c event j ≡ some j'
      → get id t ≡ some row
      → Agrees j row
      → Follows c concat id j' (apply_event_in_tx c concat id n event t)
  unfolding apply apply_event_in_tx capture_slot
  apply_event_in_tx-Follows (started u) n t row j j' small fits h found a = absurd fits
  apply_event_in_tx-Follows (modified step payload) n t row j j' small fits h found a =
      subst (λ x. Follows c concat id x (apply_event_in_tx c concat id n (modified step payload) t))
        (some-eq-some h)
        (fetch-Follows _ t row _ found (
          update-Follows n (λ r. record r { shared_data = c.merge row.shared_data payload }) t row _
            small found
            (record {
              state = a.state;
              shared = ap (λ v. c.merge v payload) a.shared;
              step = a.step;
              decision = a.decision;
              persons = a.persons;
            })))
  apply_event_in_tx-Follows (person_captured person_ref u name email phone) n t row j j' small fits
        h found a =
      let set = upsert_person person_ref u name email phone in
      subst
        (λ x.
          Follows c concat id x
            (apply_event_in_tx c concat id n (person_captured person_ref u name email phone) t))
        (some-eq-some h)
        (bind-Follows _ _ (set row) _ (insert_under-Reaches id set t row found) (λ t' found'.
          update-Follows n (λ r. r) t' (set row) _ small found'
            (record {
              state = a.state;
              shared = a.shared;
              step = a.step;
              decision = a.decision;
              persons =
                  insert-SamePersons person_ref _ _ j.persons row.persons
                    (capture-SlotAgrees c concat u name email phone (get person_ref j.persons)
                      (get person_ref row.persons) fits (a.persons person_ref))
                    a.persons;
            })))
  apply_event_in_tx-Follows (person_details_updated person_ref u payload) n t row j j' small fits h
        found a =
      let set = concat_details c concat person_ref payload in
      subst
        (λ x.
          Follows c concat id x
            (apply_event_in_tx c concat id n (person_details_updated person_ref u payload) t))
        (some-eq-some h)
        (update-Follows n (λ r. r) (modify id set t) (set row) _ small
          (get-modify_found id set t row found)
          (record {
            state = a.state;
            shared = a.shared;
            step = a.step;
            decision = a.decision;
            persons =
                modify-SamePersons person_ref _ _ j.persons row.persons
                  (λ s r e. record {
                    subject = e.subject;
                    tombstone = e.tombstone;
                    known = e.known;
                  })
                  a.persons;
          }))
  apply_event_in_tx-Follows (subject_forgotten u) n t row j j' small fits h found a =
      subst (λ x. Follows c concat id x (apply_event_in_tx c concat id n (subject_forgotten u) t))
        (some-eq-some h)
        (update-Follows n (λ r. r) (modify id (forget_rows u) t) (forget_rows u row) _ small
          (get-modify_found id (forget_rows u) t row found)
          (record {
            state = a.state;
            shared = a.shared;
            step = a.step;
            decision = a.decision;
            persons = forget-SamePersons u j.persons row.persons a.persons;
          }))
  apply_event_in_tx-Follows (workflow_evaluated actions phase) n t row j j' small fits h found a =
      let retired = modify id retire_all t in
      let set = add_decision actions phase in
      subst
        (λ x.
          Follows c concat id x
            (apply_event_in_tx c concat id n (workflow_evaluated actions phase) t))
        (some-eq-some h)
        (bind-Follows _ _ (set (retire_all row)) _
          (insert_under-Reaches id set retired (retire_all row)
            (get-modify_found id retire_all t row found))
          (λ t' found'.
            update-Follows n (λ r. r) t' (set (retire_all row)) _ small found'
              (record {
                state = a.state;
                shared = a.shared;
                step = a.step;
                decision =
                    latest-append (map retire row.decisions)
                      (record { suggested_actions = actions; phase = phase; is_latest = true })
                      refl;
                persons = a.persons;
              })))
  apply_event_in_tx-Follows (step_progressed from_step to_step) n t row j j' small fits h found a =
      subst
        (λ x.
          Follows c concat id x
            (apply_event_in_tx c concat id n (step_progressed from_step to_step) t))
        (some-eq-some h)
        (update-Follows n (λ r. record r { current_step = some to_step }) t row _ small found
          (record {
            state = a.state;
            shared = a.shared;
            step = refl;
            decision = a.decision;
            persons = a.persons;
          }))
  apply_event_in_tx-Follows completed n t row j j' small fits h found a =
      subst (λ x. Follows c concat id x (apply_event_in_tx c concat id n completed t))
        (some-eq-some h)
        (update-Follows n (λ r. record r { state = "Complete" }) t row _ small found
          (record {
            state = refl;
            shared = a.shared;
            step = a.step;
            decision = a.decision;
            persons = a.persons;
          }))
  apply_event_in_tx-Follows (attributes_set plaintext parts) n t row j j' small fits h found a =
      let (shared, laid, rest) = bind-eq-some (unwrap (assign_all c j.shared_data plaintext)) _ h in
      let j₁ : Journey = record j { shared_data = shared } in
      let (kept, ran) = apply_partitions-Assigned c concat parts j₁ j' rest in
      let set = λ (r : JourneyRow). record r { shared_data = j'.shared_data } in
      let stored =
        bind-Follows (update_journey id n set t) (mirror_all c concat id parts)
          (record (set row) { version = n }) j' (update_journey-Reaches id n set t row found small)
          (λ t' found'.
            mirror_all-Follows c concat id parts j' t' (record (set row) { version = n }) fits
              found'
              (record {
                state = a.state ∙ ap state_text (sym kept.state);
                shared = refl;
                step = a.step ∙ sym kept.step;
                decision = a.decision ∙ ap decision_view (sym kept.decision);
                persons = kept.persons row.persons a.persons;
              })) in
      let finish = λ (merged : Value).
        update_journey id n (λ r. record r { shared_data = merged }) t
        >>= mirror_all c concat id parts in
      let secrets = λ (merged : Value). assign_secrets c concat parts merged >>= finish in
      let computed =
        ap (λ v. assigned (assign_all c v plaintext) >>= secrets) a.shared
        ∙ ap (λ (x : Sql Value). x >>= secrets)
            (unwrapped c concat (assign_all c j.shared_data plaintext) shared laid)
        ∙ ap (λ (x : Sql Value). x >>= finish) ran in
      fetch-Follows _ t row j' found (subst (Follows c concat id j') (sym computed) stored)
