-- ===== src/Derive/Accepted.antt =====
-- What holds of the models that the macro accepts: a secret field, and a redaction for each.
use journey_dynamics.Base.{
  String, Bool, true, false, ◌||◌, Option, none, some, List, [], ◌∷◌, length, filter, map, is_some,
  text_ord, str_eq, if◌then◌else◌, ◌≡◌, ◌≢◌, refl, sym, subst, ◌∙◌, inl, inr, Bool-cases,
}
use journey_dynamics.Base.Partial.{some-eq-some, bind-eq-some}
use journey_dynamics.Json.{Value}
use journey_dynamics.Derive.Model.{
  RedactValue, PiiFieldModel, PiiVariantModel, is_secret, secret_fields,
}
use journey_dynamics.Derive.Options.{Variant}
use journey_dynamics.Derive.Validation.{IsValid, Models}
use journey_dynamics.Derive.Codec.{redact_ts, secret_strs, secret_field_data, arm_of}
use journey_dynamics.Derive.Fields.{is_listed, or_else, last_value}

pub arm_of-IsValid_in :
    (variants : List Variant) (models : List PiiVariantModel) (t : String) {v : PiiVariantModel}
    → Models variants models
    → arm_of models t ≡ some v
    → IsValid v
unfolding arm_of
arm_of-IsValid_in variants [] t h e = cc
arm_of-IsValid_in [] (m ∷ models) t h e = absurd h
arm_of-IsValid_in (variant ∷ variants) (m ∷ models) t {v} h e =
    elim (Bool-cases (str_eq t m.event_type)) [
      | inl mine ↦ subst IsValid (some-eq-some (sym (rw mine refl) ∙ e)) h.0.1
      | inr other ↦ arm_of-IsValid_in variants models t h.1 (sym (rw other refl) ∙ e)
    ]

pub secrets_nonempty :
    (v : PiiVariantModel) → IsValid v → (s : String) × (ss : List String) × (secret_strs v ≡ s ∷ ss)
unfolding secret_fields
secrets_nonempty v h = go (filter is_secret v.fields) h.has_secret
  where
    go :
        (fs : List PiiFieldModel)
        → length fs ≢ 0
        → (s : String) × (ss : List String) × (map (λ (f : PiiFieldModel). f.ident) fs ≡ s ∷ ss)
    go [] ne = absurd (ne refl)
    go (f ∷ fs) ne = (f.ident, map (λ (g : PiiFieldModel). g.ident) fs, refl)

pub some_of : (o : Option RedactValue) → is_some o ≡ true → (value : RedactValue) × (o ≡ some value)
some_of none h = cc
some_of (some value) h = (value, refl)

pub same_unless :
    (o : Option Value) (c : Bool) {a b : Option Value}
    → is_some o ≡ c
    → (c ≡ false → a ≡ b)
    → or_else o a ≡ or_else o b
same_unless none c e h = h (sym e)
same_unless (some w) c e h = refl

is_some-or_else :
    (o : Option Value) (b : Bool) (v : Value) (c : Bool)
    → is_some o ≡ c
    → is_some (or_else o (if b then some v else none)) ≡ (b || c)
is_some-or_else none true v c h = refl
is_some-or_else none false v c h = h
is_some-or_else (some w) true v c h = refl
is_some-or_else (some w) false v c h = h

pub keys_listed :
    (k : String) (fs : List PiiFieldModel) (pairs : List (String × Value))
    → secret_field_data fs ≡ some pairs
    → is_some (last_value k pairs) ≡ is_listed k (map (λ (f : PiiFieldModel). f.ident) fs)
unfolding secret_field_data
keys_listed k [] pairs e = subst (λ ps. is_some (last_value k ps) ≡ false) (some-eq-some e) refl
keys_listed k (f ∷ fs) pairs e =
    let (value, said, e₁) = bind-eq-some (redact_ts f.redact) _ e in
    let (rest, others, e₂) = bind-eq-some (secret_field_data fs) _ e₁ in
    let names = map (λ (g : PiiFieldModel). g.ident) fs in
    subst (λ ps. is_some (last_value k ps) ≡ (str_eq k f.ident || is_listed k names))
      (some-eq-some e₂)
      (is_some-or_else (last_value k rest) (str_eq k f.ident) value (is_listed k names)
        (keys_listed k fs rest others))
