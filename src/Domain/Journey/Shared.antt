-- ===== src/Domain/Journey/Shared.antt =====
-- Two slots with one subject: `capture_person` allows them, and `set_attributes` then labels the
-- subject's partition with the last of the slot names.
use journey_dynamics.Base.{
  String, Option, none, some, [], ◌∷◌, lt, ◌≡◌, refl, ◌⊎◌, inl, inr, ◌∙◌, sym, ap, subst, subst₂,
  arith, text_ord, nat_ord, key-cases, Option-cases, ◌==◌, if◌then◌else◌,
}
use journey_dynamics.Base.BTreeMap.{
  BTreeMap, get, insert, IsAfter, IsOrdered, get-nil, get-cons_self, get-cons_ne, get-insert_self,
  get-insert_ne,
}
use journey_dynamics.Base.Partial.{some-eq-some}
use journey_dynamics.Json.{Uuid}
use journey_dynamics.Domain.Schema.{or_else}
use journey_dynamics.Domain.Journey.{PersonSlot}
use journey_dynamics.Domain.Journey.Handle.{subject_to_ref, subject_to_ref_from}

-- The last slot of a subject.
last_ref : Uuid → BTreeMap String PersonSlot → Option String
last_ref u [] = none
last_ref u ((r, s) ∷ persons) =
    or_else (last_ref u persons) (if s.subject_id == u then some r else none)

get-subject_to_ref_from :
    (u : Uuid) (acc : BTreeMap Uuid String) (persons : BTreeMap String PersonSlot)
    → get u (subject_to_ref_from acc persons) ≡ or_else (last_ref u persons) (get u acc)
unfolding subject_to_ref_from last_ref
get-subject_to_ref_from u acc [] = refl
get-subject_to_ref_from u acc ((r, s) ∷ persons) = elim (key-cases u s.subject_id) [
  | inl same ↦ ground (
    arith,
    get-subject_to_ref_from u (insert s.subject_id r acc) persons,
    get-insert_self s.subject_id r acc,
  )
  | inr other ↦ ground (
    arith,
    get-subject_to_ref_from u (insert s.subject_id r acc) persons,
    get-insert_ne u s.subject_id r acc other,
  )
]

get-subject_to_ref :
    (u : Uuid) (persons : BTreeMap String PersonSlot)
    → get u (subject_to_ref persons) ≡ last_ref u persons
unfolding subject_to_ref
get-subject_to_ref u persons =
    ground (arith, get-subject_to_ref_from u [] persons, get-nil {V = String} u)

last_ref-IsAfter :
    (u : Uuid) (k : String) (persons : BTreeMap String PersonSlot) {r : String}
    → IsAfter k persons
    → last_ref u persons ≡ some r
    → text_ord.cmp k r ≡ lt
unfolding last_ref
last_ref-IsAfter u k [] a h = cc
last_ref-IsAfter u k ((q, s) ∷ persons) {r} a h =
    ground (arith, last_ref-IsAfter u k persons {r = r} a.1)

abbrev AtOrBefore : String → String → Type 0
AtOrBefore b r = (b ≡ r) ⊎ (text_ord.cmp b r ≡ lt)

-- The label of a subject: a slot of that subject, at or after `b`.
abbrev pub IsLabelFrom : String → Uuid → BTreeMap String PersonSlot → String → Type 0
IsLabelFrom b u persons r =
    (slot : PersonSlot) × (get r persons ≡ some slot) × (slot.subject_id ≡ u) × AtOrBefore b r

-- Below a first slot of another name.
IsLabelFrom-cons :
    (b q r : String) (u : Uuid) (s : PersonSlot) (persons : BTreeMap String PersonSlot)
    → text_ord.cmp q r ≡ lt
    → IsLabelFrom b u persons r
    → IsLabelFrom b u ((q, s) ∷ persons) r
IsLabelFrom-cons b q r u s persons after (slot, found, mine, order) =
    (slot, get-cons_ne r q s persons (λ e. cc (after, e, text_ord.cmp_self q)) ∙ found, mine, order)

-- The label of the first slot's subject.
head_label :
    (q : String) (s : PersonSlot) (persons : BTreeMap String PersonSlot) (o : Option String)
    → IsAfter q persons
    → last_ref s.subject_id persons ≡ o
    → ((r : String)
        → o ≡ some r
        → (slot : PersonSlot) × (get r persons ≡ some slot) × (slot.subject_id ≡ s.subject_id))
    → (r : String) × (last_ref s.subject_id ((q, s) ∷ persons) ≡ some r)
      × IsLabelFrom q s.subject_id ((q, s) ∷ persons) r
unfolding last_ref
head_label q s persons none a e k =
    (q, ground arith, (s, get-cons_self q s persons, refl, inl refl))
head_label q s persons (some r) a e k =
    let after = last_ref-IsAfter s.subject_id q persons {r = r} a e in
    let (slot, found, mine) = k r refl in
    (
      r,
      ground arith,
      IsLabelFrom-cons q q r s.subject_id s persons after (slot, found, mine, inr after),
    )

last_ref_sound :
    (u : Uuid) (persons : BTreeMap String PersonSlot) (r : String)
    → IsOrdered persons
    → last_ref u persons ≡ some r
    → (slot : PersonSlot) × (get r persons ≡ some slot) × (slot.subject_id ≡ u)
unfolding last_ref
last_ref_sound u [] r h e = cc
last_ref_sound u ((q, s) ∷ persons) r h e = elim (Option-cases (last_ref u persons)) [
  | inl miss ↦ (s, ground (arith, get-cons_self q s persons), ground arith)
  | inr (r', found) ↦
      let (slot, at, mine) = last_ref_sound u persons r' h.1 found in
      let after = last_ref-IsAfter u q persons {r = r'} h.0 found in
      let same : r' ≡ r = ground arith in
      subst
        (λ (k : String).
          (slot : PersonSlot) × (get k ((q, s) ∷ persons) ≡ some slot) × (slot.subject_id ≡ u))
        same (slot, get-cons_ne r' q s persons (λ e. cc (after, e, text_ord.cmp_self q)) ∙ at, mine)
]

last_ref_label :
    (b : String) (slot : PersonSlot) (persons : BTreeMap String PersonSlot)
    → IsOrdered persons
    → get b persons ≡ some slot
    → (r : String) × (last_ref slot.subject_id persons ≡ some r)
      × IsLabelFrom b slot.subject_id persons r
unfolding last_ref
last_ref_label b slot [] h g = cc (g, get-nil {V = PersonSlot} b)
last_ref_label b slot ((q, s) ∷ persons) h g = elim (key-cases b q) [
  | inl same ↦
      let mine : s ≡ slot =
        some-eq-some
          (sym (get-cons_self q s persons) ∙ ap (λ k. get k ((q, s) ∷ persons)) (sym same) ∙ g) in
      subst₂
        (λ (k : String) (t : PersonSlot).
          (r : String) × (last_ref t.subject_id ((q, s) ∷ persons) ≡ some r)
          × IsLabelFrom k t.subject_id ((q, s) ∷ persons) r)
        (sym same) mine
        (head_label q s persons (last_ref s.subject_id persons) h.0 refl
          (λ r e. last_ref_sound s.subject_id persons r h.1 e))
  | inr other ↦
      let (r, last, label) =
        last_ref_label b slot persons h.1 (sym (get-cons_ne b q s persons other) ∙ g) in
      (
        r,
        ground (arith, last),
        IsLabelFrom-cons b q r slot.subject_id s persons
            (last_ref-IsAfter slot.subject_id q persons {r = r} h.0 last) label,
      )
]

-- For slots in the order of their names, the reverse map of `set_attributes` is defined at the
-- subject of every slot, and gives the name of a slot of that subject that stands at or after the
-- slot: where several slots have one subject, the last.
pub subject_to_ref_label :
    (b : String) (slot : PersonSlot) (persons : BTreeMap String PersonSlot)
    → IsOrdered persons
    → get b persons ≡ some slot
    → (r : String) × (get slot.subject_id (subject_to_ref persons) ≡ some r)
      × IsLabelFrom b slot.subject_id persons r
subject_to_ref_label b slot persons h g =
    let (r, last, label) = last_ref_label b slot persons h g in
    (r, get-subject_to_ref slot.subject_id persons ∙ last, label)
