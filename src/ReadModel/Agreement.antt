-- ===== src/ReadModel/Agreement.antt =====
-- The read model follows `Journey::apply`.
use journey_dynamics.Base.{
  String, Option, none, some, List, [], ◌∷◌, All, Result, ok, err, nat_ord, text_ord, ◌≡◌, refl,
  sym, ap, subst, ◌∙◌, ◌>>=◌,
}
use journey_dynamics.Base.Partial.{some-eq-some, bind-eq-some, unwrap}
use journey_dynamics.Base.BTreeMap.{BTreeMap, get, modify}
use journey_dynamics.Json.{Uuid, Value, AssignError, Crates}
use journey_dynamics.Domain.JsonPath.{assign_all}
use journey_dynamics.Domain.Events.{
  SecretPartitionData, JourneyEvent, started, person_captured, attributes_set,
}
use journey_dynamics.Domain.Journey.{
  Journey, PersonSlot, WorkflowDecisionState, JourneyState, slot_or_fresh, assign_secret,
  mirror_slot, apply_partition, apply_partitions,
}
use journey_dynamics.ReadModel.{WorkflowDecisionView}
use journey_dynamics.ReadModel.Tables.{PersonRow, JourneyRow, Views, Sql, upsert_slot}
use journey_dynamics.ReadModel.Projection.{
  assigned, assign_secrets, concat_details, details_update, mirror_all, latest,
}
use journey_dynamics.ReadModel.Rows.{Reaches, get-modify_found}
use journey_dynamics.ReadModel.Slots.{
  SlotAgrees, SameSlot, SamePersons, modify-SamePersons_right, insert-SamePersons_left,
}

abbrev pub state_text : JourneyState → String
state_text JourneyState.in_progress = "InProgress"
state_text JourneyState.complete = "Complete"

abbrev pub decision_view : Option WorkflowDecisionState → Option WorkflowDecisionView
decision_view none = none
decision_view (some d) = some (record { suggested_actions = d.suggested_actions; phase = d.phase })

-- The row is that of the journey.
pub record Agrees (j : Journey) (row : JourneyRow) : Type 0 where
  pub state : row.state ≡ state_text j.state
  pub shared : row.shared_data ≡ j.shared_data
  pub step : row.current_step ≡ j.current_step
  pub decision : latest row.decisions ≡ decision_view j.latest_workflow_decision
  pub persons : SamePersons j.persons row.persons

abbrev pub IsOwnSlot : Uuid → Option PersonSlot → Type 0
IsOwnSlot u none = Unit
IsOwnSlot u (some slot) = slot.subject_id ≡ u

module _ (c : Crates) (concat : Value → Value → Value) where
  -- Only the first event starts the journey, a captured slot keeps its subject, and the secrets of
  -- each partition can be laid out as details.
  abbrev pub Fits : JourneyEvent → Journey → Type 0
  Fits (started id) j = ⊥
  Fits (person_captured person_ref u name email phone) j = IsOwnSlot u (get person_ref j.persons)
  Fits (attributes_set plaintext parts) j =
      All (λ part. (update : Value) × (details_update c concat part ≡ ok update)) parts
  Fits _ j = Unit

  pub capture-SlotAgrees :
      (u : Uuid) (name email : String) (phone : Option String) (s : Option PersonSlot)
      (r : Option PersonRow)
      → IsOwnSlot u s
      → SameSlot s r
      → SlotAgrees
          (record (slot_or_fresh s u) { name = some name; email = some email; phone = phone })
          (upsert_slot u name email phone r)
  capture-SlotAgrees u name email phone none none own h = record {
    subject = refl;
    tombstone = refl;
    known = λ e. (refl, refl, refl);
  }
  capture-SlotAgrees u name email phone none (some r) own h = absurd h
  capture-SlotAgrees u name email phone (some s) none own h = absurd h
  capture-SlotAgrees u name email phone (some s) (some r) own h = record {
    subject = own;
    tombstone = h.tombstone;
    known = λ e. (refl, refl, refl);
  }

  pub unwrapped :
      (r : Result AssignError Value) (value : Value) → unwrap r ≡ some value → assigned r ≡ ok value
  unwrapped (ok v) value h = ap ok (some-eq-some h)
  unwrapped (err e) value h = absurd (no_value h)
    where
      no_value : none ≡ some value → ⊥
      no_value h = cc

  -- What a journey keeps while secrets are assigned.
  pub record Assigned (j j' : Journey) : Type 0 where
    pub state : j'.state ≡ j.state
    pub step : j'.current_step ≡ j.current_step
    pub decision : j'.latest_workflow_decision ≡ j.latest_workflow_decision
    pub persons :
        (rows : BTreeMap String PersonRow)
        → SamePersons j.persons rows
        → SamePersons j'.persons rows

  mirror_slot-Assigned :
      (part : SecretPartitionData) (j : Journey) (o : Option PersonSlot) (j' : Journey)
      → get part.person_ref j.persons ≡ o
      → mirror_slot c part j o ≡ some j'
      → Assigned j j' × (j'.shared_data ≡ j.shared_data)
  unfolding mirror_slot
  mirror_slot-Assigned part j none j' found h =
      subst (λ x. Assigned j x × (x.shared_data ≡ j.shared_data)) (some-eq-some h)
        (record { state = refl; step = refl; decision = refl; persons = λ rows p. p }, refl)
  mirror_slot-Assigned part j (some slot) j' found h =
      let (prefix, parsed, rest) = bind-eq-some (c.parse _) _ h in
      let (details, laid, last) = bind-eq-some (unwrap (assign_all c slot.details _)) _ rest in
      subst (λ x. Assigned j x × (x.shared_data ≡ j.shared_data)) (some-eq-some last)
        (
          record {
            state = refl;
            step = refl;
            decision = refl;
            persons = λ rows p.
                insert-SamePersons_left part.person_ref details slot j.persons rows found p;
          },
          refl,
        )

  Assigned-trans : (j j₁ j₂ : Journey) → Assigned j j₁ → Assigned j₁ j₂ → Assigned j j₂
  Assigned-trans j j₁ j₂ first second = record {
    state = second.state ∙ first.state;
    step = second.step ∙ first.step;
    decision = second.decision ∙ first.decision;
    persons = λ rows p. second.persons rows (first.persons rows p);
  }

  assign_secret-Assigned :
      (part : SecretPartitionData) (j j' : Journey)
      → assign_secret c part j ≡ some j'
      → Assigned j j' × (assigned (assign_all c j.shared_data part.changes) ≡ ok j'.shared_data)
  unfolding assign_secret
  assign_secret-Assigned part j j' h =
      let (shared, laid, last) =
        bind-eq-some (unwrap (assign_all c j.shared_data part.changes)) _ h in
      subst
        (λ x.
          Assigned j x × (assigned (assign_all c j.shared_data part.changes) ≡ ok x.shared_data))
        (some-eq-some last)
        (
          record { state = refl; step = refl; decision = refl; persons = λ rows p. p },
          unwrapped (assign_all c j.shared_data part.changes) shared laid,
        )

  pub apply_partitions-Assigned :
      (parts : List SecretPartitionData) (j j' : Journey)
      → apply_partitions c parts j ≡ some j'
      → Assigned j j' × (assign_secrets c concat parts j.shared_data ≡ ok j'.shared_data)
  unfolding apply_partitions apply_partition assign_secrets
  apply_partitions-Assigned [] j j' h =
      subst (λ x. Assigned j x × (◌≡◌ {A = Sql Value} (ok j.shared_data) (ok x.shared_data)))
        (some-eq-some h)
        (record { state = refl; step = refl; decision = refl; persons = λ rows p. p }, refl)
  apply_partitions-Assigned (part ∷ parts) j j' h =
      let (j₂, one, rest) = bind-eq-some (apply_partition c part j) _ h in
      let (j₁, put, mirrored) = bind-eq-some (assign_secret c part j) _ one in
      let (first, laid) = assign_secret-Assigned part j j₁ put in
      let (kept, same) =
        mirror_slot-Assigned part j₁ (get part.person_ref j₁.persons) j₂ refl mirrored in
      let (later, ran) = apply_partitions-Assigned parts j₂ j' rest in
      (
        Assigned-trans j j₁ j' first (Assigned-trans j₁ j₂ j' kept later),
        ap (λ (x : Sql Value). x >>= assign_secrets c concat parts) laid
            ∙ ap (assign_secrets c concat parts) (sym same)
            ∙ ran,
      )

  module _ (id : Uuid) where
    -- The statements succeed, and the row is then that of the journey.
    abbrev pub Follows : Journey → Sql Views → Type 0
    Follows j result = (row : JourneyRow) × Reaches id row result × Agrees j row

    pub mirror_all-Follows :
        (parts : List SecretPartitionData) (j : Journey) (t : Views) (row : JourneyRow)
        → All (λ part. (update : Value) × (details_update c concat part ≡ ok update)) parts
        → get id t ≡ some row
        → Agrees j row
        → Follows j (mirror_all c concat id parts t)
    unfolding mirror_all
    mirror_all-Follows [] j t row laid found h = (row, (t, refl, found), h)
    mirror_all-Follows (part ∷ parts) j t row laid found h =
        let ((update, one), rest) = laid in
        let set = concat_details c concat part.person_ref update in
        let (row', (t', ran, found'), h') =
          mirror_all-Follows parts j (modify id set t) (set row) rest
            (get-modify_found id set t row found)
            (record {
              state = h.state;
              shared = h.shared;
              step = h.step;
              decision = h.decision;
              persons =
                  modify-SamePersons_right part.person_ref (λ r. concat r.details update) j.persons
                    row.persons h.persons;
            }) in
        (
          row',
          (
            t',
            ap
                  (λ (x : Sql Value). x >>= λ u.
                    mirror_all c concat id parts
                      (modify id (concat_details c concat part.person_ref u) t))
                  one
                ∙ ran,
            found',
          ),
          h',
        )
