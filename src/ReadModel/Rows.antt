-- ===== src/ReadModel/Rows.antt =====
-- What the statements of the read model leave in the row of a journey that is there.
use journey_dynamics.Base.{
  ℕ, ◌^◌, true, some, List, [], ◌∷◌, ◌++◌, ok, ltb, nat_ord, ◌≡◌, refl, ap, ◌∙◌, ◌>>=◌,
}
use mathlib.Core.Option
use journey_dynamics.Base.BTreeMap.{get, insert, modify, get-insert_self, get-modify_self}
use journey_dynamics.Json.{Uuid}
use journey_dynamics.ReadModel.Tables.{
  DecisionRow, JourneyRow, Views, Sql, fetched, update_found, update_journey, insert_under,
}
use journey_dynamics.ReadModel.Projection.{latest}

-- The statements succeed, and then the journey has this row.
abbrev pub Reaches : Uuid → JourneyRow → Sql Views → Type 0
Reaches id row result = (t : Views) × (result ≡ ok t) × (get id t ≡ some row)

abbrev pub IsSequence : ℕ → Type 0
IsSequence n = ltb n (2 ^ 63) ≡ true

module _ (id : Uuid) where
  pub update_journey-Reaches :
      (n : ℕ) (set : JourneyRow → JourneyRow) (t : Views) (row : JourneyRow)
      → get id t ≡ some row
      → IsSequence n
      → Reaches id (record (set row) { version = n }) (update_journey id n set t)
  unfolding update_journey
  update_journey-Reaches n set t row found small =
      let row' : JourneyRow = record (set row) { version = n } in
      (
        insert id row' t,
        ap (update_found id n set t) found ∙ rw small refl,
        get-insert_self id row' t,
      )

  pub insert_under-Reaches :
      (set : JourneyRow → JourneyRow) (t : Views) (row : JourneyRow)
      → get id t ≡ some row
      → Reaches id (set row) (insert_under id set t (get id t))
  insert_under-Reaches set t row found =
      (insert id (set row) t, ap (insert_under id set t) found, get-insert_self id (set row) t)

  pub get-modify_found :
      (f : JourneyRow → JourneyRow) (t : Views) (row : JourneyRow)
      → get id t ≡ some row
      → get id (modify id f t) ≡ some (f row)
  get-modify_found f t row found = get-modify_self id f t ∙ ap (Option.map f) found

  pub fetch-Reaches :
      (k : JourneyRow → Sql Views) (t : Views) (row row' : JourneyRow)
      → get id t ≡ some row
      → Reaches id row' (k row)
      → Reaches id row' (fetched (get id t) >>= k)
  fetch-Reaches k t row row' found (t', ran, found') =
      (t', ap (λ o. fetched o >>= k) found ∙ ran, found')

  -- Statements one after the other.
  pub bind-Reaches :
      (m : Sql Views) (k : Views → Sql Views) (row row' : JourneyRow)
      → Reaches id row m
      → ((t : Views) → get id t ≡ some row → Reaches id row' (k t))
      → Reaches id row' (m >>= k)
  bind-Reaches m k row row' (t, ran, found) next =
      let (t', ran', found') = next t found in
      (t', ap (λ (x : Sql Views). x >>= k) ran ∙ ran', found')

-- The decision that is inserted last is the latest.
pub latest-append :
    (rows : List DecisionRow) (row : DecisionRow)
    → row.is_latest ≡ true
    → latest (rows ++ row ∷ [])
      ≡ some (record { suggested_actions = row.suggested_actions; phase = row.phase })
unfolding latest
latest-append [] row h = rw h refl
latest-append (first ∷ rows) row h = rw (latest-append rows row h) refl
