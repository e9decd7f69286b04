-- ===== src/Derive/Validation.antt =====
-- What `parse_pii_variants` lets through: every model has one subject and a secret, and says how
-- each secret is redacted.
use journey_dynamics.Base.{
  Bool, Option, none, some, List, [], ◌∷◌, map, length, filter, All, is_some, ok, if◌then◌else◌,
  not, ◌==◌, ◌≡◌, ◌≢◌, refl, ap₂, String, bind-eq-ok, bail_if-eq-ok, ok_or, Ensures-ok, arith,
}
use journey_dynamics.Derive.Model.{
  PiiFieldRole, subject, plaintext, secret, RedactValue, PiiFieldModel, PiiVariantModel, is_subject,
  is_secret, has_secret_role,
}
use journey_dynamics.Derive.Options.{
  Field, Fields, named, unnamed, unit, Variant, Attribute, SynType, SynResult, RawVariantAttr,
  find_pii_attr, parse_variant_pii_attr, parse_field_pii_attr,
}
use journey_dynamics.Derive.Parse.{
  role_count, role_of, redact_of, infer_redact, parse_field, parse_fields, parse_named, parse_shape,
  parse_pii_variant, parse_annotated, parse_pii_variants, not_annotated, not_one_role,
  not_one_subject, no_secret,
}

-- A field says how it is redacted exactly if it is secret.
abbrev pub SaysRedaction : PiiFieldModel → Type 0
SaysRedaction f = is_some f.redact ≡ is_secret f

pub record IsValid (v : PiiVariantModel) : Type 0 where
  pub one_subject : length (filter is_subject v.fields) ≡ 1
  pub has_secret : length (filter is_secret v.fields) ≢ 0
  pub redactions : All SaysRedaction v.fields

abbrev pub field_names : List Field → List String
field_names = map (λ (f : Field). f.ident)

abbrev pub model_names : List PiiFieldModel → List String
model_names = map (λ (f : PiiFieldModel). f.ident)

-- The variants with an attribute, in their order.
abbrev pub annotated : List Variant → List Variant
annotated [] = []
annotated (v ∷ vs) =
    let rest = annotated vs in if is_some (find_pii_attr v.attrs) then v ∷ rest else rest

-- A model is that of a variant: it has the fields of the variant, in their order.
abbrev pub IsModelOf : Variant → PiiVariantModel → Type 0
IsModelOf variant v =
    (fs : List Field) × (variant.fields ≡ named fs) × (model_names v.fields ≡ field_names fs)

-- The lists have the same length, and hold related elements at each place.
abbrev pub Models : List Variant → List PiiVariantModel → Type 0
Models [] [] = Unit
Models [] (v ∷ vs) = ⊥
Models (variant ∷ variants) [] = ⊥
Models (variant ∷ variants) (v ∷ vs) = (IsModelOf variant v × IsValid v) × Models variants vs

module _ (chrono : Bool) where
  redact_of_says :
      (role : PiiFieldRole) (ty : SynType) (raw : Option String) {o : Option RedactValue}
      → redact_of chrono role ty raw ≡ ok o
      → is_some o ≡ has_secret_role role
  unfolding redact_of
  redact_of_says secret ty (some value) h = ground arith
  redact_of_says secret ty none h =
      let (value, inferred, done) = bind-eq-ok (infer_redact chrono ty) _ h in ground arith
  redact_of_says subject ty none h = ground arith
  redact_of_says subject ty (some value) h = ground arith
  redact_of_says plaintext ty none h = ground arith
  redact_of_says plaintext ty (some value) h = ground arith

  parse_field_says :
      (variant : String) (f : Field) {m : PiiFieldModel}
      → parse_field chrono variant f ≡ ok m
      → (m.ident ≡ f.ident) × SaysRedaction m
  unfolding parse_field
  parse_field_says variant f h =
      let (attr, found, h₁) =
        bind-eq-ok (ok_or (find_pii_attr f.attrs) (not_annotated f.ident variant)) _ h in
      let (raw, parsed, h₂) = bind-eq-ok (parse_field_pii_attr attr) _ h₁ in
      let (one, h₃) = bail_if-eq-ok (not (role_count raw == 1)) (not_one_role f.ident) _ h₂ in
      let (o, redacts, h₄) = bind-eq-ok (redact_of chrono (role_of raw) f.ty raw.redact) _ h₃ in
      let says = redact_of_says (role_of raw) f.ty raw.redact redacts in
      Ensures-ok (λ m. (m.ident ≡ f.ident) × SaysRedaction m) h₄ (refl, says)

  parse_fields_say :
      (variant : String) (fs : List Field) {ms : List PiiFieldModel}
      → parse_fields chrono variant fs ≡ ok ms
      → (model_names ms ≡ field_names fs) × All SaysRedaction ms
  unfolding parse_fields
  parse_fields_say variant [] h =
      Ensures-ok (λ ms. (model_names ms ≡ []) × All SaysRedaction ms) h (refl, tt)
  parse_fields_say variant (f ∷ fs) h =
      let (m, first, h₁) = bind-eq-ok (parse_field chrono variant f) _ h in
      let (rest, others, h₂) = bind-eq-ok (parse_fields chrono variant fs) _ h₁ in
      let (name, says) = parse_field_says variant f first in
      let (names, say) = parse_fields_say variant fs others in
      Ensures-ok (λ ms. (model_names ms ≡ field_names (f ∷ fs)) × All SaysRedaction ms) h₂
        (ap₂ (λ x xs. x ∷ xs) name names, (says, say))

  parse_shape-IsValid :
      (variant : Variant) (raw : RawVariantAttr) (fields : Fields) {v : PiiVariantModel}
      → variant.fields ≡ fields
      → parse_shape chrono variant.ident raw fields ≡ ok v
      → IsModelOf variant v × IsValid v
  unfolding parse_named
  parse_shape-IsValid variant raw unnamed e h = cc
  parse_shape-IsValid variant raw unit e h = cc
  parse_shape-IsValid variant raw (named fs) e h =
      let (ms, parsed, h₁) = bind-eq-ok (parse_fields chrono variant.ident fs) _ h in
      let (one, h₂) =
        bail_if-eq-ok (not (length (filter is_subject ms) == 1))
          (not_one_subject variant.ident (length (filter is_subject ms))) _ h₁ in
      let (secrets, h₃) =
        bail_if-eq-ok (length (filter is_secret ms) == 0) (no_secret variant.ident) _ h₂ in
      let (names, say) = parse_fields_say variant.ident fs parsed in
      Ensures-ok (λ v. IsModelOf variant v × IsValid v) h₃
        (
          (fs, e, names),
          record { one_subject = ground arith; has_secret = ground arith; redactions = say },
        )

  parse_annotated-Models :
      (variant : Variant) (o : Option Attribute) (variants : List Variant)
      (rest : SynResult (List PiiVariantModel)) {models : List PiiVariantModel}
      → ((ms : List PiiVariantModel) → rest ≡ ok ms → Models (annotated variants) ms)
      → parse_annotated chrono variant o rest ≡ ok models
      → Models (if is_some o then variant ∷ annotated variants else annotated variants) models
  unfolding parse_pii_variant
  parse_annotated-Models variant none variants rest {models} later h = later models h
  parse_annotated-Models variant (some attr) variants rest later h =
      let (raw, read, h₁) = bind-eq-ok (parse_variant_pii_attr attr) _ h in
      let (v, parsed, h₂) = bind-eq-ok (parse_pii_variant chrono variant raw) _ h₁ in
      let (vs, others, h₃) = bind-eq-ok rest _ h₂ in
      Ensures-ok (Models (variant ∷ annotated variants)) h₃
        (parse_shape-IsValid variant raw variant.fields refl parsed, later vs others)

  -- Whatever the macro accepts: there is one model for each variant with an attribute, in their
  -- order; each of these variants has named fields, and its model has these fields in their order;
  -- each model has exactly one subject, at least one secret, and a redaction on each secret field
  -- and on no other.
  pub parse_pii_variants-Models :
      (variants : List Variant) {models : List PiiVariantModel}
      → parse_pii_variants chrono variants ≡ ok models
      → Models (annotated variants) models
  unfolding parse_pii_variants
  parse_pii_variants-Models [] h = Ensures-ok (Models []) h tt
  parse_pii_variants-Models (variant ∷ variants) h =
      parse_annotated-Models variant (find_pii_attr variant.attrs) variants
        (parse_pii_variants chrono variants) (λ ms e. parse_pii_variants-Models variants e) h
