-- ===== src/Derive/Model.antt =====
-- crates/cqrs-es-crypto-derive/src/model.rs: a variant with its fields, after parsing.
use journey_dynamics.Base.{
  String, Bool, true, false, Option, none, some, List, [], ◌∷◌, filter, length, ◌==◌,
}

pub data PiiFieldRole : Type 0 where
  subject plaintext secret : PiiFieldRole

pub data RedactValue : Type 0 where
  literal : String → RedactValue
  null empty_object empty_array : RedactValue

pub record PiiFieldModel : Type 0 where
  pub ident : String
  pub role : PiiFieldRole
  pub redact : Option RedactValue

pub record PiiVariantModel : Type 0 where
  pub event_type : String
  pub sentinel : String
  pub fields : List PiiFieldModel

-- `matches!(f.role, …)`
abbrev pub has_subject_role : PiiFieldRole → Bool
has_subject_role subject = true
has_subject_role _ = false

abbrev pub has_plaintext_role : PiiFieldRole → Bool
has_plaintext_role plaintext = true
has_plaintext_role _ = false

abbrev pub has_secret_role : PiiFieldRole → Bool
has_secret_role secret = true
has_secret_role _ = false

abbrev pub is_subject : PiiFieldModel → Bool
is_subject f = has_subject_role f.role

abbrev pub is_plaintext : PiiFieldModel → Bool
is_plaintext f = has_plaintext_role f.role

abbrev pub is_secret : PiiFieldModel → Bool
is_secret f = has_secret_role f.role

abbrev first_of : List PiiFieldModel → Option PiiFieldModel
first_of [] = none
first_of (f ∷ fs) = some f

-- `none` is the panic of its `expect`.
unfoldable pub subject_field : PiiVariantModel → Option PiiFieldModel
subject_field v = first_of (filter is_subject v.fields)

unfoldable pub plaintext_fields : PiiVariantModel → List PiiFieldModel
plaintext_fields v = filter is_plaintext v.fields

unfoldable pub secret_fields : PiiVariantModel → List PiiFieldModel
secret_fields v = filter is_secret v.fields

unfoldable pub is_single_secret : PiiVariantModel → Bool
unfolding secret_fields
is_single_secret v = length (secret_fields v) == 1
