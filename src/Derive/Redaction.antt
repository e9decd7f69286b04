-- ===== src/Derive/Redaction.antt =====
-- crates/cqrs-es-crypto-derive/src/lib.rs, `redact_value_to_tokens`: what a redacted field has to show.
use journey_dynamics.Base.{
  String, Bool, true, false, Option, none, some, List, [], ◌∷◌, filter, All, str_eq, if◌then◌else◌,
  ◌≡◌, refl, sym, ap, ◌∙◌, inl, inr, Bool-cases,
}
use journey_dynamics.Json.{Value, null as json_null, string, array, nil, object, end}
use journey_dynamics.Derive.Model.{
  RedactValue, literal, null, empty_object, empty_array, PiiFieldModel, is_secret,
}
use journey_dynamics.Derive.Validation.{SaysRedaction}
use journey_dynamics.Derive.Codec.{redact_value_to_tokens, redact_ts, secret_field_data}
use journey_dynamics.Derive.Fields.{or_else, last_value}
use journey_dynamics.Derive.Accepted.{some_of}

abbrev pub later_or : Option RedactValue → Option RedactValue → Option RedactValue
later_or none earlier = earlier
later_or (some value) earlier = some value

-- The redaction of the secret field of this name: of the last one, if there are several.
abbrev pub redaction_of : String → List PiiFieldModel → Option RedactValue
redaction_of k [] = none
redaction_of k (f ∷ fs) =
    later_or (redaction_of k fs)
      (if is_secret f then (if str_eq k f.ident then f.redact else none) else none)

-- A key with this redaction shows the text of a literal, null, an empty object or an empty array; a
-- key without one shows what it had.
abbrev pub Shows : Option RedactValue → Option Value → Option Value → Type 0
Shows none before now = now ≡ before
Shows (some (literal s)) before now = now ≡ some (string s)
Shows (some null) before now = now ≡ some json_null
Shows (some empty_object) before now = now ≡ some (object end)
Shows (some empty_array) before now = now ≡ some (array nil)

pub or_else-Shows :
    (o : Option RedactValue) (before now : Option Value)
    → now ≡ or_else (redact_ts o) before
    → Shows o before now
unfolding redact_value_to_tokens
or_else-Shows none before now h = h
or_else-Shows (some (literal s)) before now h = h
or_else-Shows (some null) before now h = h
or_else-Shows (some empty_object) before now h = h
or_else-Shows (some empty_array) before now h = h

later_or-none : (o : Option RedactValue) → later_or o none ≡ o
later_or-none none = refl
later_or-none (some value) = refl

redact_ts-later_or :
    (o : Option RedactValue) (b : Bool) (value : RedactValue)
    → or_else (redact_ts o) (if b then some (redact_value_to_tokens value) else none)
      ≡ redact_ts (later_or o (if b then some value else none))
redact_ts-later_or none true value = refl
redact_ts-later_or none false value = refl
redact_ts-later_or (some other) b value = refl

-- Every secret field of a valid variant has a redaction, which is the value that its key is given.
pub secret_field_data_total :
    (fs : List PiiFieldModel)
    → All SaysRedaction fs
    → (pairs : List (String × Value)) × (secret_field_data (filter is_secret fs) ≡ some pairs)
      × ((k : String) → last_value k pairs ≡ redact_ts (redaction_of k fs))
unfolding secret_field_data
secret_field_data_total [] h = ([], refl, λ k. refl)
secret_field_data_total (f ∷ fs) h =
    let (pairs, rest, given) = secret_field_data_total fs h.1 in
    elim (Bool-cases (is_secret f)) [
      | inl hidden ↦
          let (value, said) = some_of f.redact (h.0 ∙ hidden) in
          (
            (f.ident, redact_value_to_tokens value) ∷ pairs,
            rw (hidden, said, rest) refl,
            λ k.
                rw (given k, hidden, said)
                  (redact_ts-later_or (redaction_of k fs) (str_eq k f.ident) value),
          )
      | inr shown ↦ (
        pairs,
        rw shown rest,
        λ k. given k ∙ rw shown (ap redact_ts (sym (later_or-none (redaction_of k fs)))),
      )
    ]
