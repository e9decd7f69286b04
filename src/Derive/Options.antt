-- ===== src/Derive/Options.antt =====
-- crates/cqrs-es-crypto-derive/src/parse.rs: the options that an attribute `#[pii(…)]` gives. The
-- syntax is that of the crate `syn`; an error is its message.
use journey_dynamics.Base.{
  String, Bool, true, false, Option, none, some, List, [], ◌∷◌, Result, ok, err, ◌>>=◌, ok_or, ◌>>◌,
  str_eq, if◌then◌else◌,
}

-- What follows the path of a nested meta item: nothing, `= "text"`, or something else.
pub data MetaValue : Type 0 where
  bare : MetaValue
  text : String → MetaValue
  other : MetaValue

pub record Meta : Type 0 where
  pub path : String
  pub value : MetaValue

-- `syn::Attribute`: `#[path(args)]`, or `#[path]` alone.
pub record Attribute : Type 0 where
  pub path : String
  pub args : Option (List Meta)

-- `syn::Type`: a path by its segments' names, or another type.
pub data SynType : Type 0 where
  path_type : List String → SynType
  other_type : SynType

-- `syn::Field`, named.
pub record Field : Type 0 where
  pub ident : String
  pub ty : SynType
  pub attrs : List Attribute

pub data Fields : Type 0 where
  named : List Field → Fields
  unnamed unit : Fields

-- `syn::Variant`
pub record Variant : Type 0 where
  pub ident : String
  pub attrs : List Attribute
  pub fields : Fields

-- `syn::Result`
abbrev pub SynResult {ℓ} : Type ℓ → Type ℓ
SynResult A = Result String A

pub record RawVariantAttr : Type 0 where
  pub event_type : String
  pub sentinel : String

pub record RawFieldAttr : Type 0 where
  pub subject : Bool
  pub plaintext : Bool
  pub secret : Bool
  pub redact : Option String

unfoldable pub find_pii_attr : List Attribute → Option Attribute
find_pii_attr [] = none
find_pii_attr (a ∷ attrs) =
    let rest = find_pii_attr attrs in if str_eq a.path "pii" then some a else rest

-- `meta.value()?.parse::<LitStr>()?`
abbrev pub literal_of : MetaValue → SynResult String
literal_of (text s) = ok s
literal_of bare = err "expected `=`"
literal_of other = err "expected string literal"

-- A flag is followed by a comma or by nothing.
abbrev pub flag_of : MetaValue → SynResult (Unit {0})
flag_of bare = ok tt
flag_of (text s) = err "expected `,`"
flag_of other = err "expected `,`"

-- `attr.parse_nested_meta`, with what one item does to the result so far.
abbrev pub fold_meta {ℓ} : {A : Type ℓ} → (Meta → A → SynResult A) → List Meta → A → SynResult A
fold_meta f [] acc = ok acc
fold_meta f (meta ∷ metas) acc = f meta acc >>= fold_meta f metas

abbrev pub parse_nested_meta {ℓ} :
    {A : Type ℓ} → Attribute → (Meta → A → SynResult A) → A → SynResult A
parse_nested_meta attr f acc =
    ok_or attr.args "expected attribute arguments in parentheses" >>= λ metas. fold_meta f metas acc

-- The options of a variant: `event_type`, if any, and `sentinel`.
unfoldable pub variant_option : Meta → Option String × String → SynResult (Option String × String)
variant_option meta (event_type, sentinel) =
    if str_eq meta.path "event_type"
    then (literal_of meta.value >>= λ value. ok (some value, sentinel))
    else if str_eq meta.path "sentinel"
    then (literal_of meta.value >>= λ value. ok (event_type, value))
    else err "unknown `#[pii]` option; expected `event_type` or `sentinel`"

unfoldable pub parse_variant_pii_attr : Attribute → SynResult RawVariantAttr
parse_variant_pii_attr attr = do
  options ← parse_nested_meta attr variant_option (none, "encrypted_pii")
  event_type ← ok_or options.0 "`event_type` is required on `#[pii(...)]`"
  ok (record { event_type = event_type; sentinel = options.1 })

unfoldable pub field_option : Meta → RawFieldAttr → SynResult RawFieldAttr
field_option meta result =
    if str_eq meta.path "subject"
    then (flag_of meta.value >> ok (record result { subject = true }))
    else if str_eq meta.path "plaintext"
    then (flag_of meta.value >> ok (record result { plaintext = true }))
    else if str_eq meta.path "secret"
    then (flag_of meta.value >> ok (record result { secret = true }))
    else if str_eq meta.path "redact"
    then (literal_of meta.value >>= λ value. ok (record result { redact = some value }))
    else err
        "unknown `#[pii]` option on field; expected `subject`, `plaintext`, `secret`, or `redact = \"...\"`"

abbrev pub no_roles : RawFieldAttr
no_roles = record { subject = false; plaintext = false; secret = false; redact = none }

unfoldable pub parse_field_pii_attr : Attribute → SynResult RawFieldAttr
parse_field_pii_attr attr = parse_nested_meta attr field_option no_roles
