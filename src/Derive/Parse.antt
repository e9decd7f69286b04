-- ===== src/Derive/Parse.antt =====
-- crates/cqrs-es-crypto-derive/src/parse.rs: the variants of an enum with attributes, checked and read
-- into models.
use Prim.Native.String.{◌++◌ as text_append}
use journey_dynamics.Base.{
  ℕ, ◌+◌, String, Bool, true, false, ◌&&◌, ◌||◌, Option, none, some, List, [], ◌∷◌, length, filter,
  is_some, ok, err, ◌>>=◌, ok_or, bail_if, ◌>>◌, not, str_eq, ◌==◌, if◌then◌else◌,
}
use journey_dynamics.Base.Encode.{decimal}
use journey_dynamics.Derive.Model.{
  PiiFieldRole, subject, plaintext, secret, RedactValue, literal, PiiFieldModel, PiiVariantModel,
  is_subject, is_secret,
}
use journey_dynamics.Derive.Options.{
  Attribute, SynType, path_type, other_type, Field, Fields, named, unnamed, unit, Variant,
  SynResult, RawVariantAttr, RawFieldAttr, find_pii_attr, parse_variant_pii_attr,
  parse_field_pii_attr,
}

-- `tp.path.segments.last()`
abbrev pub last_segment : List String → Option String
last_segment [] = none
last_segment (s ∷ []) = some s
last_segment (s ∷ s' ∷ ss) = last_segment (s' ∷ ss)

abbrev pub last_ident : SynType → Option String
last_ident (path_type segments) = last_segment segments
last_ident other_type = none

abbrev pub fixed_name : Option String → Bool
fixed_name none = false
fixed_name (some name) =
    str_eq name "String" || str_eq name "Option" || str_eq name "Value" || str_eq name "Vec"

unfoldable pub has_fixed_default : SynType → Bool
has_fixed_default ty = fixed_name (last_ident ty)

abbrev pub one_if : Bool → ℕ
one_if true = 1
one_if false = 0

abbrev pub role_count : RawFieldAttr → ℕ
role_count raw = one_if raw.subject + one_if raw.plaintext + one_if raw.secret

abbrev pub role_of : RawFieldAttr → PiiFieldRole
role_of raw = if raw.subject then subject else if raw.plaintext then plaintext else secret

abbrev pub not_annotated : String → String → String
not_annotated field variant = text_append "field `" (
    text_append field (
      text_append "` on PII variant `" (
        text_append variant
          "` must be annotated with `#[pii(subject)]`, `#[pii(plaintext)]`, or `#[pii(secret)]`")))

abbrev pub not_one_role : String → String
not_one_role field =
    text_append "field `" (
      text_append field
        "` must have exactly one `#[pii]` role: `subject`, `plaintext`, or `secret`")

abbrev pub not_one_subject : String → ℕ → String
not_one_subject variant n = text_append "PII variant `" (
    text_append variant
      (text_append "` must have exactly one `#[pii(subject)]` field, found " (decimal n)))

abbrev pub no_secret : String → String
no_secret variant =
    text_append "PII variant `"
      (text_append variant "` must have at least one `#[pii(secret)]` field")

module _ (chrono : Bool) where
  -- The `match`; `chrono` is the crate's feature.
  abbrev pub infer_from : Option String → SynResult RedactValue
  infer_from none =
      err
        "cannot infer redaction value for this type; only `String`, `Option<_>`, `serde_json::Value`, and `Vec<_>` are supported out of the box. Enable the `chrono` feature for `NaiveDate`, or specify `#[pii(secret, redact = \"...\")]` explicitly."
  infer_from (some name) =
      if str_eq name "String"
      then ok (literal "[redacted]")
      else if str_eq name "Option"
      then ok RedactValue.null
      else if str_eq name "Value"
      then ok RedactValue.empty_object
      else if str_eq name "Vec"
      then ok RedactValue.empty_array
      else if chrono && str_eq name "NaiveDate"
      then ok (literal "0000-01-01")
      else err
          "cannot infer redaction value for this type; only `String`, `Option<_>`, `serde_json::Value`, and `Vec<_>` are supported out of the box. Enable the `chrono` feature for `NaiveDate`, or specify `#[pii(secret, redact = \"...\")]` explicitly."

  unfoldable pub infer_redact : SynType → SynResult RedactValue
  infer_redact ty = infer_from (last_ident ty)

  -- The redaction of a field of this role.
  unfoldable pub redact_of : PiiFieldRole → SynType → Option String → SynResult (Option RedactValue)
  redact_of secret ty (some override_val) =
      if has_fixed_default ty
      then err
          "redact override is not allowed on `String`, `Option<_>`, `serde_json::Value`, or `Vec<_>` fields — their redaction values are part of the crate's contract. Remove the `redact = \"...\"` argument, or wrap the field in a newtype if you need a different sentinel."
      else ok (some (literal override_val))
  redact_of secret ty none = infer_redact ty >>= λ value. ok (some value)
  redact_of subject ty redact =
      bail_if (is_some redact) "`redact` only applies to `#[pii(secret)]` fields" >> ok none
  redact_of plaintext ty redact =
      bail_if (is_some redact) "`redact` only applies to `#[pii(secret)]` fields" >> ok none

  unfoldable pub parse_field : String → Field → SynResult PiiFieldModel
  parse_field variant field = do
    pii_attr ← ok_or (find_pii_attr field.attrs) (not_annotated field.ident variant)
    raw ← parse_field_pii_attr pii_attr
    bail_if (not (role_count raw == 1)) (not_one_role field.ident)
    redact ← redact_of (role_of raw) field.ty raw.redact
    ok (record { ident = field.ident; role = role_of raw; redact = redact })

  unfoldable pub parse_fields : String → List Field → SynResult (List PiiFieldModel)
  unfolding parse_field
  parse_fields variant [] = ok []
  parse_fields variant (f ∷ fs) = do
    first ← parse_field variant f
    rest ← parse_fields variant fs
    ok (first ∷ rest)

  -- On the fields of the variant.
  unfoldable pub parse_named : String → RawVariantAttr → List Field → SynResult PiiVariantModel
  parse_named variant raw fs = do
    fields ← parse_fields variant fs
    bail_if (not (length (filter is_subject fields) == 1))
        (not_one_subject variant (length (filter is_subject fields)))
    bail_if (length (filter is_secret fields) == 0) (no_secret variant)
    ok (record { event_type = raw.event_type; sentinel = raw.sentinel; fields = fields })

  abbrev pub parse_shape : String → RawVariantAttr → Fields → SynResult PiiVariantModel
  parse_shape variant raw (named fs) = parse_named variant raw fs
  parse_shape variant raw unnamed = err "`#[pii]` variants must have named fields"
  parse_shape variant raw unit = err "`#[pii]` variants must have named fields"

  unfoldable pub parse_pii_variant : Variant → RawVariantAttr → SynResult PiiVariantModel
  unfolding parse_named
  parse_pii_variant variant raw = parse_shape variant.ident raw variant.fields

  -- A variant on its attribute, before those of the rest.
  abbrev pub parse_annotated :
      Variant
      → Option Attribute
      → SynResult (List PiiVariantModel)
      → SynResult (List PiiVariantModel)
  parse_annotated variant none rest = rest
  parse_annotated variant (some pii_attr) rest = do
    raw ← parse_variant_pii_attr pii_attr
    model ← parse_pii_variant variant raw
    models ← rest
    ok (model ∷ models)

  unfoldable pub parse_pii_variants : List Variant → SynResult (List PiiVariantModel)
  unfolding parse_pii_variant
  parse_pii_variants [] = ok []
  parse_pii_variants (variant ∷ variants) =
      parse_annotated variant (find_pii_attr variant.attrs) (parse_pii_variants variants)
