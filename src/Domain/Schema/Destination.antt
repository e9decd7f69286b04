-- ===== src/Domain/Schema/Destination.antt =====
-- Where a change belongs, by the class of its path and the subject lookup, and what a destination
-- means for each bucket of a classification.
use journey_dynamics.Base.{
  Bool, true, false, ◌||◌, List, ◌++◌, str_eq, Option, none, some, [], ◌∷◌, ◌≡◌, refl, ◌≢◌, inl,
  inr, arith, text_ord, nat_ord, key-cases, ◌==◌, if◌then◌else◌,
}
use journey_dynamics.Base.BTreeMap.{BTreeMap, insert, get, get-insert_self, get-insert_ne, get-nil}
use journey_dynamics.Json.{Uuid, Value, PointerBuf, Changes, Crates}
use journey_dynamics.Domain.Schema.{
  PiiClass, plaintext, secret, AttributeSchema, contains, or_else, or_default, classify, add_secret,
}

pub data Destination : Type 0 where
  to_plaintext to_unknown : Destination
  to_subject : Uuid → Destination

abbrev pub value_in : Option Changes → PointerBuf → Option Value
value_in none p = none
value_in (some group) p = get p group

-- The value that the group of subject `u` holds for a path.
abbrev pub secret_value : Uuid → PointerBuf → BTreeMap Uuid Changes → Option Value
secret_value u p groups = value_in (get u groups) p

pub value_in-or_default :
    (o : Option Changes) (p : PointerBuf) → get p (or_default o) ≡ value_in o p
value_in-or_default none p = get-nil p
value_in-or_default (some group) p = refl

pub secret_value-add_secret_same :
    (u w : Uuid) (p : PointerBuf) (v : Value) (groups : BTreeMap Uuid Changes)
    → secret_value u p (add_secret w p v groups)
      ≡ (if u == w then some v else secret_value u p groups)
unfolding add_secret
secret_value-add_secret_same u w p v groups =
    let group = insert p v (or_default (get w groups)) in
    elim (key-cases u w) [
      | inl same ↦
          ground
            (arith, get-insert_self w group groups, get-insert_self p v (or_default (get w groups)))
      | inr other ↦ ground (arith, get-insert_ne u w group groups other)
    ]

pub secret_value-add_secret_ne :
    (u w : Uuid) (p q : PointerBuf) (v : Value) (groups : BTreeMap Uuid Changes)
    → p ≢ q
    → secret_value u p (add_secret w q v groups) ≡ secret_value u p groups
unfolding add_secret
secret_value-add_secret_ne u w p q v groups h =
    let group = insert q v (or_default (get w groups)) in
    elim (key-cases u w) [
      | inl same ↦ ground (
        arith,
        get-insert_self w group groups,
        get-insert_ne p q v (or_default (get w groups)) h,
        value_in-or_default (get w groups) p,
      )
      | inr other ↦ ground (arith, get-insert_ne u w group groups other)
    ]

pub contains-append :
    (xs : List PointerBuf) (q p : PointerBuf)
    → contains (xs ++ q ∷ []) p ≡ contains xs p || str_eq q p
contains-append [] q p = ground arith
contains-append (x ∷ xs) q p = ground (arith, contains-append xs q p)

-- What the bucket of plaintext changes holds at a path, from what it held and what comes.
abbrev pub plaintext_at : Destination → Option Value → Option Value → Option Value
plaintext_at to_plaintext incoming held = or_else incoming held
plaintext_at to_unknown incoming held = held
plaintext_at (to_subject _) incoming held = held

-- What the group of the subject `u` holds at a path.
abbrev pub secret_at : Uuid → Destination → Option Value → Option Value → Option Value
secret_at u to_plaintext incoming held = held
secret_at u to_unknown incoming held = held
secret_at u (to_subject w) incoming held = if u == w then or_else incoming held else held

abbrev pub is_unknown : Destination → Bool
is_unknown to_unknown = true
is_unknown to_plaintext = false
is_unknown (to_subject _) = false

pub secret_at-eq-some :
    (u : Uuid) (d : Destination) (o : Option Value) {v : Value}
    → secret_at u d o none ≡ some v
    → (d ≡ to_subject u) × (o ≡ some v)
secret_at-eq-some u to_plaintext o h = cc
secret_at-eq-some u to_unknown o h = cc
secret_at-eq-some u (to_subject w) none h = ground arith
secret_at-eq-some u (to_subject w) (some x) h = ground arith

pub plaintext_at-eq-some :
    (d : Destination) (o : Option Value) {v : Value}
    → plaintext_at d o none ≡ some v
    → (d ≡ to_plaintext) × (o ≡ some v)
plaintext_at-eq-some to_plaintext none h = cc
plaintext_at-eq-some to_plaintext (some x) h = (refl, h)
plaintext_at-eq-some to_unknown o h = cc
plaintext_at-eq-some (to_subject w) o h = cc

module _ (c : Crates) (schema : AttributeSchema) (subject_lookup : PointerBuf → Option Uuid) where
  abbrev pub resolved : Option Uuid → Destination
  resolved none = to_unknown
  resolved (some uuid) = to_subject uuid

  abbrev pub class_destination : Option PiiClass → Destination
  class_destination none = to_unknown
  class_destination (some plaintext) = to_plaintext
  class_destination (some (secret subject)) = resolved (subject_lookup subject)

  abbrev pub destination : PointerBuf → Destination
  destination path = class_destination (classify c schema path)
