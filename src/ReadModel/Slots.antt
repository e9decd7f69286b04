-- ===== src/ReadModel/Slots.antt =====
-- When the slots of a journey and the rows of the read model are of the same persons.
use journey_dynamics.Base.{
  String, true, false, Option, none, some, text_ord, nat_ord, ◌≡◌, refl, sym, ap, subst, subst₂,
  ◌∙◌, inl, inr, ◌==◌, key-cases, Bool-cases,
}
use mathlib.Core.Option
use journey_dynamics.Base.BTreeMap.{
  BTreeMap, get, insert, modify, modify_all, get-insert_self, get-insert_ne, get-modify_self,
  get-modify_ne, get-modify_all,
}
use journey_dynamics.Json.{Uuid, Value}
use journey_dynamics.Domain.Journey.{PersonSlot, forget_slot}
use journey_dynamics.ReadModel.Tables.{PersonRow, forget_row}

-- The same subject, forgotten or not; as long as it is not, the same name, email and phone.
pub record SlotAgrees (slot : PersonSlot) (row : PersonRow) : Type 0 where
  pub subject : slot.subject_id ≡ row.subject_id
  pub tombstone : slot.forgotten ≡ row.forgotten
  pub known :
      slot.forgotten ≡ false
      → (row.name ≡ slot.name) × (row.email ≡ slot.email) × (row.phone ≡ slot.phone)

abbrev pub SameSlot : Option PersonSlot → Option PersonRow → Type 0
SameSlot none none = Unit
SameSlot none (some row) = ⊥
SameSlot (some slot) none = ⊥
SameSlot (some slot) (some row) = SlotAgrees slot row

abbrev pub SamePersons : BTreeMap String PersonSlot → BTreeMap String PersonRow → Type 0
SamePersons slots rows = (k : String) → SameSlot (get k slots) (get k rows)

pub insert-SamePersons :
    (k : String) (slot : PersonSlot) (row : PersonRow) (slots : BTreeMap String PersonSlot)
    (rows : BTreeMap String PersonRow)
    → SlotAgrees slot row
    → SamePersons slots rows
    → SamePersons (insert k slot slots) (insert k row rows)
insert-SamePersons k slot row slots rows one all j = elim (key-cases j k) [
  | inl same ↦
      subst (λ i. SameSlot (get i (insert k slot slots)) (get i (insert k row rows))) (sym same)
        (subst₂ SameSlot (sym (get-insert_self k slot slots)) (sym (get-insert_self k row rows))
          one)
  | inr other ↦
      subst₂ SameSlot (sym (get-insert_ne j k slot slots other))
        (sym (get-insert_ne j k row rows other)) (all j)
]

map-SameSlot :
    (f : PersonSlot → PersonSlot) (g : PersonRow → PersonRow)
    → ((s : PersonSlot) (r : PersonRow) → SlotAgrees s r → SlotAgrees (f s) (g r))
    → (s : Option PersonSlot) (r : Option PersonRow) → SameSlot s r
    → SameSlot (Option.map f s) (Option.map g r)
map-SameSlot f g keeps none none h = tt
map-SameSlot f g keeps none (some r) h = absurd h
map-SameSlot f g keeps (some s) none h = absurd h
map-SameSlot f g keeps (some s) (some r) h = keeps s r h

pub modify-SamePersons :
    (k : String) (f : PersonSlot → PersonSlot) (g : PersonRow → PersonRow)
    (slots : BTreeMap String PersonSlot) (rows : BTreeMap String PersonRow)
    → ((s : PersonSlot) (r : PersonRow) → SlotAgrees s r → SlotAgrees (f s) (g r))
    → SamePersons slots rows
    → SamePersons (modify k f slots) (modify k g rows)
modify-SamePersons k f g slots rows keeps all j = elim (key-cases j k) [
  | inl same ↦
      subst (λ i. SameSlot (get i (modify k f slots)) (get i (modify k g rows))) (sym same)
        (subst₂ SameSlot (sym (get-modify_self k f slots)) (sym (get-modify_self k g rows))
          (map-SameSlot f g keeps (get k slots) (get k rows) (all k)))
  | inr other ↦
      subst₂ SameSlot (sym (get-modify_ne j k f slots other)) (sym (get-modify_ne j k g rows other))
        (all j)
]

forget-SlotAgrees :
    (u : Uuid) (s : PersonSlot) (r : PersonRow)
    → SlotAgrees s r
    → SlotAgrees (forget_slot u s) (forget_row u r)
forget-SlotAgrees u s r h = elim (Bool-cases (r.subject_id == u)) [
  | inl theirs ↦
      rw (ap (λ v. v == u) h.subject ∙ theirs, theirs)
        (record {
          subject = h.subject;
          tombstone = refl;
          known = λ (e : true ≡ false). absurd (not_both e);
        })
  | inr other ↦ rw (ap (λ v. v == u) h.subject ∙ other, other) h
]
  where
    not_both : true ≡ false → ⊥
    not_both e = cc

pub forget-SamePersons :
    (u : Uuid) (slots : BTreeMap String PersonSlot) (rows : BTreeMap String PersonRow)
    → SamePersons slots rows
    → SamePersons (modify_all (forget_slot u) slots) (modify_all (forget_row u) rows)
forget-SamePersons u slots rows all k =
    subst₂ SameSlot (sym (get-modify_all k (forget_slot u) slots))
      (sym (get-modify_all k (forget_row u) rows))
      (map-SameSlot (forget_slot u) (forget_row u) (forget-SlotAgrees u) (get k slots) (get k rows)
        (all k))

-- The details may differ: only those of a journey are merged at every depth.
pub modify-SamePersons_right :
    (k : String) (f : PersonRow → Value) (slots : BTreeMap String PersonSlot)
    (rows : BTreeMap String PersonRow)
    → SamePersons slots rows
    → SamePersons slots (modify k (λ (r : PersonRow). record r { details = f r }) rows)
modify-SamePersons_right k f slots rows all j = elim (key-cases j k) [
  | inl same ↦
      subst (λ i. SameSlot (get i slots) (get i (modify k g rows))) (sym same)
        (subst (SameSlot (get k slots)) (sym (get-modify_self k g rows))
          (keeps (get k slots) (get k rows) (all k)))
  | inr other ↦ subst (SameSlot (get j slots)) (sym (get-modify_ne j k g rows other)) (all j)
]
  where
    g : PersonRow → PersonRow
    g r = record r { details = f r }

    keeps :
        (s : Option PersonSlot) (r : Option PersonRow) → SameSlot s r → SameSlot s (Option.map g r)
    keeps none none h = tt
    keeps none (some r) h = absurd h
    keeps (some s) none h = absurd h
    keeps (some s) (some r) h = record {
      subject = h.subject;
      tombstone = h.tombstone;
      known = h.known;
    }

pub insert-SamePersons_left :
    (k : String) (details : Value) (slot : PersonSlot) (slots : BTreeMap String PersonSlot)
    (rows : BTreeMap String PersonRow)
    → get k slots ≡ some slot
    → SamePersons slots rows
    → SamePersons (insert k (record slot { details = details }) slots) rows
insert-SamePersons_left k details slot slots rows found all j = elim (key-cases j k) [
  | inl same ↦
      subst (λ i. SameSlot (get i (insert k slot' slots)) (get i rows)) (sym same)
        (subst (λ o. SameSlot o (get k rows)) (sym (get-insert_self k slot' slots))
          (keeps (get k rows) (subst (λ o. SameSlot o (get k rows)) found (all k))))
  | inr other ↦
      subst (λ o. SameSlot o (get j rows)) (sym (get-insert_ne j k slot' slots other)) (all j)
]
  where
    slot' : PersonSlot
    slot' = record slot { details = details }

    keeps : (r : Option PersonRow) → SameSlot (some slot) r → SameSlot (some slot') r
    keeps none h = absurd h
    keeps (some r) h = record { subject = h.subject; tombstone = h.tombstone; known = h.known }
