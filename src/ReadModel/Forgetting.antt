-- ===== src/ReadModel/Forgetting.antt =====
-- What `SubjectForgotten` leaves of a subject in the rows of a journey, and what it does not touch.
use mathlib.Core.Option
use journey_dynamics.Base.{
  ℕ, String, true, false, Option, none, some, [], ◌∷◌, ok, nat_ord, text_ord, ◌≡◌, ◌≢◌, refl, sym,
  ap, subst, ◌∙◌, ◌>>=◌, ◌==◌, arith,
}
use journey_dynamics.Base.BTreeMap.{
  get, insert, modify, get-modify_all, get-modify_ne, get-insert_ne, get-insert_self,
}
use journey_dynamics.Json.{Uuid, Value, empty_object, Crates}
use journey_dynamics.Domain.Events.{subject_forgotten}
use journey_dynamics.ReadModel.Tables.{
  PersonRow, JourneyRow, Views, forget_row, forget_rows, update_found, update_journey,
}
use journey_dynamics.ReadModel.Projection.{
  apply_event_in_tx, apply_events, committed, dispatch_to, dispatch,
}
use journey_dynamics.ReadModel.Rows.{IsSequence, get-modify_found}

pub record IsErased (u : Uuid) (row : PersonRow) : Type 0 where
  pub subject : row.subject_id ≡ u
  pub name : row.name ≡ none
  pub email : row.email ≡ none
  pub phone : row.phone ≡ none
  pub details : row.details ≡ empty_object
  pub forgotten : row.forgotten ≡ true

-- What becomes of a person's row: the subject's own is erased, another's is the same.
abbrev pub Erases : Uuid → Option PersonRow → Option PersonRow → Type 0
Erases u none after = after ≡ none
Erases u (some row) after =
    (row' : PersonRow) × (after ≡ some row')
    × (row.subject_id ≡ u → IsErased u row')
    × (row.subject_id ≢ u → row' ≡ row)

forget_row-Erases : (u : Uuid) (o : Option PersonRow) → Erases u o (Option.map (forget_row u) o)
forget_row-Erases u none = refl
forget_row-Erases u (some row) = (forget_row u row, refl, λ e. own e, λ ne. other ne)
  where
    own : row.subject_id ≡ u → IsErased u (forget_row u row)
    own e =
        let same : (row.subject_id == u) ≡ true = ground arith in
        rw same (record {
          subject = e;
          name = refl;
          email = refl;
          phone = refl;
          details = refl;
          forgotten = refl;
        })

    other : row.subject_id ≢ u → forget_row u row ≡ row
    other ne = let differs : (row.subject_id == u) ≡ false = ground arith in rw differs refl

-- The row after the event.
pub record Forgets (u : Uuid) (row row' : JourneyRow) : Type 0 where
  pub persons : (k : String) → Erases u (get k row.persons) (get k row'.persons)
  pub shared : row'.shared_data ≡ row.shared_data
  pub state : row'.state ≡ row.state
  pub step : row'.current_step ≡ row.current_step

module _ (c : Crates) (concat : Value → Value → Value) (id : Uuid)
    (parse_uuid : String → Option Uuid) (view_id : String)
    (parsed : parse_uuid view_id ≡ some id) where
  -- On tables with the journey, `dispatch` of a `SubjectForgotten` with a sequence number below
  -- 2^63 is committed: in the rows of this subject in the journey the name, the email and the
  -- phone are gone, the details are empty and the tombstone is set, and every other person's row
  -- of the journey, its shared data, state and step, and every other journey are the same.
  pub dispatch-Forgets :
      (u : Uuid) (n : ℕ) (t : Views) (row : JourneyRow)
      → get id t ≡ some row
      → IsSequence n
      → (t' : Views) × (row' : JourneyRow) × (dispatch c concat parse_uuid view_id
            ((n, subject_forgotten u) ∷ [])
            t
          ≡ some t')
        × (get id t' ≡ some row')
        × Forgets u row row'
        × ((v : Uuid) → v ≢ id → get v t' ≡ get v t)
  unfolding dispatch apply_events apply_event_in_tx update_journey
  dispatch-Forgets u n t row found small =
      let erased = modify id (forget_rows u) t in
      let row' : JourneyRow = record (forget_rows u row) { version = n } in
      let events = (n, subject_forgotten u) ∷ [] in
      let ran : apply_events c concat id events t ≡ ok (insert id row' erased) =
        ap (λ o. update_found id n (λ r. r) erased o >>= apply_events c concat id [])
          (get-modify_found id (forget_rows u) t row found)
        ∙ rw small refl in
      (
        insert id row' erased,
        row',
        ap (λ o. dispatch_to c concat o events t) parsed ∙ ap (committed c concat t) ran,
        get-insert_self id row' erased,
        record {
          persons = λ k.
              subst (Erases u (get k row.persons))
                (sym (get-modify_all k (forget_row u) row.persons))
                (forget_row-Erases u (get k row.persons));
          shared = refl;
          state = refl;
          step = refl;
        },
        λ v ne. get-insert_ne v id row' erased ne ∙ get-modify_ne v id (forget_rows u) t ne,
      )
