-- ===== src/ReadModel/History.antt =====
-- The read model after a history, as `dispatch` gets it in batches, is that of the journey.
use journey_dynamics.Base.{
  ℕ, String, Option, none, some, List, [], ◌∷◌, ok, map, nat_ord, text_ord, ◌≡◌, refl, ap, subst,
  ◌∙◌,
}
use journey_dynamics.Base.Partial.{some-eq-some, bind-eq-some}
use journey_dynamics.Base.BTreeMap.{get, insert, get-insert_self}
use journey_dynamics.Json.{Uuid, Value, empty_object, Crates}
use journey_dynamics.Domain.Events.{JourneyEvent, started}
use journey_dynamics.Domain.Journey.{Journey, default_journey, apply, apply_all}
use journey_dynamics.ReadModel.Tables.{JourneyRow, Views, Sql, insert_absent}
use journey_dynamics.ReadModel.Projection.{
  apply_event_in_tx, apply_events, committed, dispatch_to, dispatch, latest,
}
use journey_dynamics.ReadModel.Rows.{Reaches, IsSequence}
use journey_dynamics.ReadModel.Agreement.{Agrees, Fits, Follows}
use journey_dynamics.ReadModel.Following.{bind-Follows, apply_event_in_tx-Follows}

module _ (c : Crates) (concat : Value → Value → Value) (id : Uuid) where
  -- A batch that fits the journey at each event.
  abbrev pub Fitting : List (ℕ × JourneyEvent) → Journey → Type 0
  Fitting [] j = Unit
  Fitting ((n, event) ∷ events) j =
      IsSequence n
      × Fits c concat event j
      × ((j' : Journey) → apply c event j ≡ some j' → Fitting events j')

  abbrev pub payloads : List (ℕ × JourneyEvent) → List JourneyEvent
  payloads = map (λ (e : ℕ × JourneyEvent). e.1)

  apply_events-Follows :
      (events : List (ℕ × JourneyEvent)) (t : Views) (row : JourneyRow) (j j' : Journey)
      → Fitting events j
      → apply_all c (payloads events) j ≡ some j'
      → get id t ≡ some row
      → Agrees j row
      → Follows c concat id j' (apply_events c concat id events t)
  unfolding apply_all apply_events
  apply_events-Follows [] t row j j' fits h found a =
      (row, (t, refl, found), subst (λ x. Agrees x row) (some-eq-some h) a)
  apply_events-Follows ((n, event) ∷ events) t row j j' (small, fit, later) h found a =
      let (j₁, applied, rest) = bind-eq-some (apply c event j) _ h in
      let (row₁, reaches, a₁) =
        apply_event_in_tx-Follows c concat id event n t row j j₁ small fit applied found a in
      bind-Follows c concat id _ _ row₁ j' reaches
        (λ t' found'. apply_events-Follows events t' row₁ j₁ j' (later j₁ applied) rest found' a₁)

  -- The row of the journey is there, and is that of the journey.
  abbrev pub Shows : Journey → Views → Type 0
  Shows j t = (row : JourneyRow) × (get id t ≡ some row) × Agrees j row

  committed-Shows :
      (before : Views) (j : Journey) (result : Sql Views)
      → Follows c concat id j result
      → (t : Views) × (committed c concat before result ≡ some t) × Shows j t
  committed-Shows before j result (row, (t, ran, found), a) =
      (t, ap (committed c concat before) ran, (row, found, a))

  abbrev started_row : ℕ → JourneyRow
  started_row n = record {
    state = "InProgress";
    shared_data = empty_object;
    current_step = none;
    version = n;
    persons = [];
    decisions = [];
  }

  started-Reaches :
      (n : ℕ) (t : Views)
      → get id t ≡ none
      → IsSequence n
      → Reaches id (started_row n) (apply_event_in_tx c concat id n (started id) t)
  unfolding apply_event_in_tx
  started-Reaches n t absent small = (
    insert id (started_row n) t,
    rw small (ap (λ o. ok (insert_absent id n t o)) absent),
    get-insert_self id (started_row n) t,
  )

  module _ (parse_uuid : String → Option Uuid) (view_id : String)
      (parsed : parse_uuid view_id ≡ some id) where
    -- If the tables of the read model show a journey under the id that `view_id` is parsed to, the
    -- batch has sequence numbers below 2^63 and `Journey::apply` takes its events without a panic,
    -- only the first event of a history is `Started`, a captured slot keeps its subject, and the
    -- secrets of each partition can be laid out as details: `dispatch` commits the batch, and the
    -- tables show the journey that `Journey::apply` gives: the same state, shared data, step and
    -- latest decision, the same slots with the same subjects and tombstones, and the same name,
    -- email and phone in each slot that is not forgotten.
    pub dispatch-Shows :
        (events : List (ℕ × JourneyEvent)) (t : Views) (j j' : Journey)
        → Fitting events j
        → apply_all c (payloads events) j ≡ some j'
        → Shows j t
        → (t' : Views) × (dispatch c concat parse_uuid view_id events t ≡ some t') × Shows j' t'
    unfolding dispatch apply_all
    dispatch-Shows [] t j j' fits h (row, found, a) =
        (t, refl, (row, found, subst (λ x. Agrees x row) (some-eq-some h) a))
    dispatch-Shows (event ∷ events) t j j' fits h (row, found, a) =
        let (t', ran, shown) =
          committed-Shows t j' _
            (apply_events-Follows (event ∷ events) t row j j' fits h found a) in
        (t', ap (λ o. dispatch_to c concat o (event ∷ events) t) parsed ∙ ran, shown)

    -- On tables without the journey, for a batch that begins with `Started` under the id that
    -- `view_id` is parsed to and goes on as a batch that `dispatch-Shows` takes: `dispatch`
    -- commits it, and the tables show the journey that `Journey::apply` gives from
    -- `Journey::default`.
    pub dispatch_started :
        (n : ℕ) (events : List (ℕ × JourneyEvent)) (t : Views) (j : Journey)
        → get id t ≡ none
        → IsSequence n
        → Fitting events (record default_journey { id = id })
        → apply_all c (started id ∷ payloads events) default_journey ≡ some j
        → (t' : Views) × (dispatch c concat parse_uuid view_id ((n, started id) ∷ events) t
            ≡ some t')
          × Shows j t'
    unfolding dispatch apply_all apply apply_events apply_event_in_tx latest get
    dispatch_started n events t j absent small fits h =
        let row = started_row n in
        let (t', ran, shown) = committed-Shows t j _ (
          bind-Follows c concat id (apply_event_in_tx c concat id n (started id) t)
            (apply_events c concat id events) row j (started-Reaches n t absent small)
            (λ t' found'.
              apply_events-Follows events t' row (record default_journey { id = id }) j fits h
                found'
                (record {
                  state = refl;
                  shared = refl;
                  step = refl;
                  decision = refl;
                  persons = λ k. tt;
                }))) in
        (t', ap (λ o. dispatch_to c concat o ((n, started id) ∷ events) t) parsed ∙ ran, shown)
