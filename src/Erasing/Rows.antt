-- ===== src/Erasing/Rows.antt =====
-- An erasure by email takes both rows of a subject, or neither, and tells when one is left.
use journey_dynamics.Base.{
  String, Bool, true, false, ◌||◌, Option, none, some, List, [], ◌∷◌, any, Result, ok, err,
  bind-eq-ok, ok-eq-ok, nat_ord, ◌==◌, Bool-cases, key-cases, ◌≡◌, ◌≢◌, refl, sym, subst, ◌∙◌, ◌⊎◌,
  inl, inr, arith,
}
use journey_dynamics.Base.BTreeMap.{get, get-remove_self, get-remove_ne}
use journey_dynamics.Json.{Uuid}
use journey_dynamics.Domain.Commands.{JourneyCommand}
use journey_dynamics.Crypto.Events.{SerializedEvent}
use journey_dynamics.Crypto.Postgres.{Table}
use journey_dynamics.SubjectLookup.{Lookup, delete_subject_lookup, find_subjects_by_email}
use journey_dynamics.Erasing.{
  Faults, checked, begin_transaction, delete_key, delete_lookup, commit_transaction, find_journeys,
  erase_rows, World, Status, no_content, internal_server_error, find_journeys_by_subject,
  after_erasure, after_search, shred_one_subject, add_failed, shred_each, status_of,
  shred_subjects_by_email,
}

module _ {J : Type 0} where
  -- Both rows of the subject are gone.
  abbrev pub IsGone : Uuid → World J → Type 0
  IsGone v w = (get v w.keys ≡ none) × (get v w.lookup ≡ none)

  -- Both rows of the subject are as they were.
  abbrev pub IsKept : Uuid → World J → World J → Type 0
  IsKept v w w' = (get v w'.keys ≡ get v w.keys) × (get v w'.lookup ≡ get v w.lookup)

  Kept-trans : (v : Uuid) (w w₁ w₂ : World J) → IsKept v w w₁ → IsKept v w₁ w₂ → IsKept v w w₂
  Kept-trans v w w₁ w₂ h k = (k.0 ∙ h.0, k.1 ∙ h.1)

  Kept-Gone : (v : Uuid) (w w' : World J) → IsKept v w w' → IsGone v w → IsGone v w'
  Kept-Gone v w w' h g = (h.0 ∙ g.0, h.1 ∙ g.1)

  -- What one erasure does to the rows of a subject, if it succeeds or fails.
  abbrev Erasure : Uuid → World J → Result String (Unit {0}) × World J → Type 0
  Erasure u w (ok done, w') = IsGone u w' × ((v : Uuid) → v ≢ u → IsKept v w w')
  Erasure u w (err e, w') = (v : Uuid) → IsKept v w w'

  -- What a list of erasures does to the rows of a subject.
  pub record Erased (us : List Uuid) (w : World J) (failed : List Uuid) (w' : World J)
      : Type 0 where
    pub other : (v : Uuid) → any (λ u. u == v) us ≡ false → IsKept v w w'
    pub either : (v : Uuid) → IsGone v w' ⊎ IsKept v w w'
    pub complete : failed ≡ [] → (v : Uuid) → any (λ u. u == v) us ≡ true → IsGone v w'

  -- What the answer to an erasure by email says of the rows of the subjects that were listed.
  pub record ErasesBy (us : List Uuid) (w : World J) (r : Status × World J) : Type 0 where
    pub other : (v : Uuid) → any (λ u. u == v) us ≡ false → IsKept v w r.1
    pub either : (v : Uuid) → IsGone v r.1 ⊎ IsKept v w r.1
    pub complete : r.0 ≡ no_content → (v : Uuid) → any (λ u. u == v) us ≡ true → IsGone v r.1

neither : (a b : Bool) → a || b ≡ false → (a ≡ false) × (b ≡ false)
neither true b h = cc
neither false b h = (refl, h)

first_true : (a b : Bool) → b ≡ false → a || b ≡ true → a ≡ true
first_true a b h e = ground (arith, h, e)

differ : (u v : Uuid) → (u == v) ≡ false → v ≢ u
differ u v h e = let same : (u == v) ≡ true = ground (arith, e) in cc

agree : (u v : Uuid) → (u == v) ≡ true → u ≡ v
agree u v h = ground (arith, h)

module _ {J : Type 0} (uuid_to_string : Uuid → String) (lower : String → String)
    (events_of : J → List SerializedEvent)
    (execute : String → JourneyCommand → J → Result String (Unit {0}) × J) where
  after_erasure-Erasure :
      (u : Uuid) (ids : List String) (w : World J) (faults : Faults)
      (r : Result String (Table × Lookup))
      → erase_rows faults u w.keys w.lookup ≡ r
      → Erasure u w (after_erasure uuid_to_string lower events_of execute u ids w r)
  unfolding erase_rows delete_subject_lookup
  after_erasure-Erasure u ids w faults (err e) h = λ v. (refl, refl)
  after_erasure-Erasure u ids w faults (ok rows) h =
      let (begun, a, h₁) = bind-eq-ok (checked (faults begin_transaction)) _ h in
      let (key, b, h₂) = bind-eq-ok (checked (faults delete_key)) _ h₁ in
      let (row, c, h₃) = bind-eq-ok (checked (faults delete_lookup)) _ h₂ in
      let (done, d, last) = bind-eq-ok (checked (faults commit_transaction)) _ h₃ in
      subst (λ r. Erasure u w (after_erasure uuid_to_string lower events_of execute u ids w (ok r)))
        (ok-eq-ok _ refl last)
        (
          (get-remove_self u w.keys, get-remove_self u w.lookup),
          λ v ne. (get-remove_ne v u w.keys ne, get-remove_ne v u w.lookup ne),
        )

  shred_one-Erasure :
      (faults : Faults) (u : Uuid) (w : World J)
      → Erasure u w (shred_one_subject uuid_to_string lower events_of execute faults u w)
  unfolding shred_one_subject
  shred_one-Erasure faults u w = searched (checked (faults find_journeys))
    where
      searched :
          (r : Result String (Unit {0}))
          → Erasure u w (after_search uuid_to_string lower events_of execute faults u w r)
      searched (err e) = λ v. (refl, refl)
      searched (ok done) =
          after_erasure-Erasure u
            (find_journeys_by_subject (uuid_to_string u) (events_of w.journal)) w faults
            (erase_rows faults u w.keys w.lookup) refl

  added_done :
      (u : Uuid) (us : List Uuid) (w w₁ w' : World J) (failed : List Uuid)
      → IsGone u w₁
      → ((v : Uuid) → v ≢ u → IsKept v w w₁)
      → Erased us w₁ failed w'
      → Erased (u ∷ us) w failed w'
  added_done u us w w₁ w' failed gone others h = record {
    other = λ v e.
        let (differs, rest) = neither (u == v) (any (λ i. i == v) us) e in
        Kept-trans v w w₁ w' (others v (differ u v differs)) (h.other v rest);
    either = λ v. elim (h.either v) [
      | inl g ↦ inl g
      | inr k ↦ elim (key-cases v u) [
        | inl same ↦ inl (Kept-Gone v w₁ w' k (subst (λ i. IsGone i w₁) (sym same) gone))
        | inr ne ↦ inr (Kept-trans v w w₁ w' (others v ne) k)
      ]
    ];
    complete = λ none_failed v listed. elim (Bool-cases (any (λ i. i == v) us)) [
      | inl later ↦ h.complete none_failed v later
      | inr absent ↦
          let same = agree u v (first_true (u == v) _ absent listed) in
          Kept-Gone v w₁ w' (h.other v absent) (subst (λ i. IsGone i w₁) same gone)
    ];
  }

  added_failed :
      (u : Uuid) (us : List Uuid) (w w₁ w' : World J) (failed : List Uuid)
      → ((v : Uuid) → IsKept v w w₁)
      → Erased us w₁ failed w'
      → Erased (u ∷ us) w (u ∷ failed) w'
  added_failed u us w w₁ w' failed kept h = record {
    other = λ v e.
        let (differs, rest) = neither (u == v) (any (λ i. i == v) us) e in
        Kept-trans v w w₁ w' (kept v) (h.other v rest);
    either =
        λ v. elim (h.either v) [ inl g ↦ inl g | inr k ↦ inr (Kept-trans v w w₁ w' (kept v) k) ];
    complete = λ none_failed v listed. absurd (some_failed none_failed);
  }
    where
      some_failed : u ∷ failed ≡ [] → ⊥
      some_failed e = cc

  added :
      (u : Uuid) (us : List Uuid) (w : World J) (first : Result String (Unit {0}) × World J)
      → Erasure u w first
      → (r : List Uuid × World J) → Erased us first.1 r.0 r.1
      → Erased (u ∷ us) w (add_failed uuid_to_string lower events_of execute u first.0 r.0) r.1
  added u us w (ok done, w₁) (gone, others) (failed, w') h =
      added_done u us w w₁ w' failed gone others h
  added u us w (err e, w₁) kept (failed, w') h = added_failed u us w w₁ w' failed kept h

  shred_each-Erased :
      (faults : Uuid → Faults) (us : List Uuid) (w : World J)
      → Erased us w
          (shred_each uuid_to_string lower events_of execute faults us w).0
          (shred_each uuid_to_string lower events_of execute faults us w).1
  unfolding shred_each
  shred_each-Erased faults [] w = record {
    other = λ v h. (refl, refl);
    either = λ v. inr (refl, refl);
    complete = λ e v h. absurd (no_subject h);
  }
    where
      no_subject : false ≡ true → ⊥
      no_subject h = cc
  shred_each-Erased faults (u ∷ us) w =
      let first = shred_one_subject uuid_to_string lower events_of execute (faults u) u w in
      added u us w first (shred_one-Erasure (faults u) u w)
        (shred_each uuid_to_string lower events_of execute faults us first.1)
        (shred_each-Erased faults us first.1)

  none_failed :
      (failed : List Uuid)
      → status_of uuid_to_string lower events_of execute failed ≡ no_content
      → failed ≡ []
  none_failed [] h = refl
  none_failed (u ∷ failed) h = cc

  -- Whatever steps on the database fail, an erasure by email leaves of each subject either both
  -- its key and its row of the lookup as they were, or neither; of a subject that the search did
  -- not list both are as they were; and if the answer is 204, every listed subject has lost both.
  pub shred_subjects_by_email-ErasesBy :
      (fault : Option String) (faults : Uuid → Faults) (email : String) (w : World J)
      → ErasesBy
          (find_subjects_by_email lower email w.lookup)
          w
          (shred_subjects_by_email uuid_to_string lower events_of execute fault faults email w)
  unfolding shred_subjects_by_email
  shred_subjects_by_email-ErasesBy (some e) faults email w = record {
    other = λ v h. (refl, refl);
    either = λ v. inr (refl, refl);
    complete = λ h v listed. absurd (refused h);
  }
    where
      refused : internal_server_error ≡ no_content → ⊥
      refused h = cc
  shred_subjects_by_email-ErasesBy none faults email w =
      let us = find_subjects_by_email lower email w.lookup in
      let h = shred_each-Erased faults us w in
      record {
        other = h.other;
        either = h.either;
        complete = λ status.
            h.complete (
              none_failed (shred_each uuid_to_string lower events_of execute faults us w).0 status);
      }
