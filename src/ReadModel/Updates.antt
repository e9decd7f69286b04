-- ===== src/ReadModel/Updates.antt =====
-- Without secrets, `JourneyView::update` and the tables show the same.
use journey_dynamics.Base.{
  ℕ, String, Option, none, some, List, [], ◌∷◌, All, nat_ord, ◌≡◌, refl, sym, ap, subst, ◌∙◌,
}
use journey_dynamics.Base.Partial.{some-eq-some, bind-eq-some, unwrap, ◌>>=◌}
use journey_dynamics.Base.BTreeMap.{get}
use journey_dynamics.Json.{Uuid, Value, Crates}
use journey_dynamics.Domain.JsonPath.{assign_all}
use journey_dynamics.Domain.Events.{
  JourneyEvent, started, modified, person_captured, person_details_updated, workflow_evaluated,
  step_progressed, completed, subject_forgotten, attributes_set,
}
use journey_dynamics.Domain.Journey.{
  Journey, JourneyState, default_journey, apply, apply_all, apply_partitions,
}
use journey_dynamics.ReadModel.{
  ViewState, in_progress, complete, JourneyView, PersonView, WorkflowDecisionView, default_view,
  update, update_all,
}
use journey_dynamics.ReadModel.Tables.{Views}
use journey_dynamics.ReadModel.Projection.{
  read_state, person_views, view_of, latest, dispatch, load,
}
use journey_dynamics.ReadModel.Rows.{IsSequence}
use journey_dynamics.ReadModel.Agreement.{state_text, decision_view, Fits}
use journey_dynamics.ReadModel.History.{Fitting, payloads, dispatch_started}

abbrev pub view_state : JourneyState → ViewState
view_state JourneyState.in_progress = in_progress
view_state JourneyState.complete = complete

-- The view is that of the journey with this id, persons aside.
pub record SameView (u : Uuid) (j : Journey) (v : JourneyView) : Type 0 where
  pub id : v.id ≡ u
  pub state : v.state ≡ view_state j.state
  pub shared : v.shared_data ≡ j.shared_data
  pub step : v.current_step ≡ j.current_step
  pub decision : v.latest_workflow_decision ≡ decision_view j.latest_workflow_decision

abbrev pub HasNoSecrets : JourneyEvent → Type 0
HasNoSecrets (attributes_set plaintext parts) = parts ≡ []
HasNoSecrets _ = Unit

read_state_text : (s : JourneyState) → read_state (state_text s) ≡ view_state s
read_state_text JourneyState.in_progress = refl
read_state_text JourneyState.complete = refl

built :
    (v : JourneyView) (id : Uuid) (state : ViewState) (shared : Value) (step : Option String)
    (decision : Option WorkflowDecisionView) (persons : List PersonView)
    → v.id ≡ id
    → v.state ≡ state
    → v.shared_data ≡ shared
    → v.current_step ≡ step
    → v.latest_workflow_decision ≡ decision
    → ◌≡◌ {A = Option JourneyView}
        (some (record {
          id = id;
          state = state;
          shared_data = shared;
          current_step = step;
          latest_workflow_decision = decision;
          persons = persons;
        }))
        (some (record v { persons = persons }))
built v id state shared step decision persons e₁ e₂ e₃ e₄ e₅ = rw (e₁, e₂, e₃, e₄, e₅) refl

module _ (c : Crates) (concat : Value → Value → Value) where
  unwrapped_same :
      (a b : Value) (changes : _) (value : Value)
      → a ≡ b
      → unwrap (assign_all c b changes) ≡ some value
      → unwrap (assign_all c a changes) ≡ some value
  unwrapped_same a b changes value same h = ap (λ x. unwrap (assign_all c x changes)) same ∙ h

  updated :
      (u : Uuid) (v' : JourneyView) (j₁ j' : Journey)
      → some j₁ ≡ some j'
      → SameView u j₁ v'
      → (v : JourneyView) × (some v' ≡ some v) × SameView u j' v
  updated u v' j₁ j' h a = (v', refl, subst (λ x. SameView u x v') (some-eq-some h) a)

  update-SameView :
      (u : Uuid) (event : JourneyEvent) (j j' : Journey) (v : JourneyView)
      → HasNoSecrets event
      → Fits c concat event j
      → apply c event j ≡ some j'
      → SameView u j v
      → (v' : JourneyView) × (update c event v ≡ some v') × SameView u j' v'
  unfolding apply update apply_partitions
  update-SameView i (started id) j j' v plain fits h a = absurd fits
  update-SameView i (modified step payload) j j' v plain fits h a = updated i _ _ j' h (record {
    id = a.id;
    state = a.state;
    shared = ap (λ d. c.merge d payload) a.shared;
    step = a.step;
    decision = a.decision;
  })
  update-SameView i (person_captured person_ref u name email phone) j j' v plain fits h a =
      updated i _ _ j' h (record {
        id = a.id;
        state = a.state;
        shared = a.shared;
        step = a.step;
        decision = a.decision;
      })
  update-SameView i (person_details_updated person_ref u payload) j j' v plain fits h a =
      updated i _ _ j' h (record {
        id = a.id;
        state = a.state;
        shared = a.shared;
        step = a.step;
        decision = a.decision;
      })
  update-SameView i (subject_forgotten u) j j' v plain fits h a = updated i _ _ j' h (record {
    id = a.id;
    state = a.state;
    shared = a.shared;
    step = a.step;
    decision = a.decision;
  })
  update-SameView i (workflow_evaluated actions phase) j j' v plain fits h a =
      updated i _ _ j' h
        (record { id = a.id; state = a.state; shared = a.shared; step = a.step; decision = refl })
  update-SameView i (step_progressed from_step to_step) j j' v plain fits h a =
      updated i _ _ j' h (record {
        id = a.id;
        state = a.state;
        shared = a.shared;
        step = refl;
        decision = a.decision;
      })
  update-SameView i completed j j' v plain fits h a =
      updated i _ _ j' h (record {
        id = a.id;
        state = refl;
        shared = a.shared;
        step = a.step;
        decision = a.decision;
      })
  update-SameView i (attributes_set plaintext parts) j j' v plain fits h a =
      let (shared, laid, rest) = bind-eq-some (unwrap (assign_all c j.shared_data plaintext)) _ h in
      let same = some-eq-some (
        subst (λ ps. apply_partitions c ps (record j { shared_data = shared }) ≡ some j') plain
          rest) in
      let v' : JourneyView = record v { shared_data = shared } in
      (
        v',
        ap (λ (o : Option Value). o >>= λ s. some (record v { shared_data = s }))
            (unwrapped_same v.shared_data j.shared_data plaintext shared a.shared laid),
        subst (λ x. SameView i x v') same
            (record {
              id = a.id;
              state = a.state;
              shared = refl;
              step = a.step;
              decision = a.decision;
            }),
      )

  update_all-SameView :
      (u id : Uuid) (events : List (ℕ × JourneyEvent)) (j j' : Journey) (v : JourneyView)
      → All HasNoSecrets (payloads c concat id events)
      → Fitting c concat id events j
      → apply_all c (payloads c concat id events) j ≡ some j'
      → SameView u j v
      → (v' : JourneyView) × (update_all c (payloads c concat id events) v ≡ some v')
        × SameView u j' v'
  unfolding apply_all update_all
  update_all-SameView u id [] j j' v plain fits h a =
      (v, refl, subst (λ x. SameView u x v) (some-eq-some h) a)
  update_all-SameView u id ((n, event) ∷ events) j j' v (first, plain) (small, fit, later) h a =
      let (j₁, applied, rest) = bind-eq-some (apply c event j) _ h in
      let (v₁, updated, a₁) = update-SameView u event j j₁ v first fit applied a in
      let (v', ran, a') =
        update_all-SameView u id events j₁ j' v₁ plain (later j₁ applied) rest a₁ in
      (
        v',
        ap (λ (o : Option JourneyView). o >>= update_all c (payloads c concat id events)) updated
            ∙ ran,
        a',
      )

  -- On tables without the journey, for a batch that begins with `Started` under the id that
  -- `view_id` is parsed to, goes on with events without secret partitions that fit as in
  -- `dispatch-Shows`, and is taken by `Journey::apply` from `Journey::default` without a panic:
  -- `dispatch` commits it, and `load` shows the view that `JourneyView::update` gives on the same
  -- events from the default view, persons aside.
  pub load-update_all :
      (id : Uuid) (parse_uuid : String → Option Uuid) (view_id : String) (n : ℕ)
      (events : List (ℕ × JourneyEvent)) (t : Views) (j : Journey)
      → parse_uuid view_id ≡ some id
      → get id t ≡ none
      → IsSequence n
      → Fitting c concat id events (record default_journey { id = id })
      → apply_all c (started id ∷ payloads c concat id events) default_journey ≡ some j
      → All HasNoSecrets (payloads c concat id events)
      → (t' : Views) × (v : JourneyView) × (persons : List PersonView) × (dispatch c concat
            parse_uuid view_id
            ((n, started id) ∷ events)
            t
          ≡ some t')
        × (update_all c (started id ∷ payloads c concat id events) default_view ≡ some v)
        × (load id t' ≡ some (record v { persons = persons }))
  unfolding apply_all apply update_all update load
  load-update_all id parse_uuid view_id n events t j parsed absent small fits h plain =
      let (t', ran, (row, found, a)) =
        dispatch_started c concat id parse_uuid view_id parsed n events t j absent small fits h in
      let (v, updated', b) =
        update_all-SameView id id events (record default_journey { id = id }) j
          (record default_view { id = id }) plain fits h
          (record { id = refl; state = refl; shared = refl; step = refl; decision = refl }) in
      (
        t',
        v,
        person_views id row.persons,
        ran,
        updated',
        ap (view_of id) found
            ∙ built v id (read_state row.state) row.shared_data row.current_step
                (latest row.decisions) (person_views id row.persons) b.id
                (b.state ∙ sym (ap read_state a.state ∙ read_state_text j.state))
                (b.shared ∙ sym a.shared) (b.step ∙ sym a.step) (b.decision ∙ sym a.decision),
      )
