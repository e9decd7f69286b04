-- ===== src/Json.antt =====
-- The JSON that the program holds: `serde_json::Value`, whose constructors the source matches,
-- with its map as ordered entries, and the crates that compute with it or with pointers into it.
pub mod Map
use journey_dynamics.Base.{ℕ, String, Bool, Option, List, Result}
use journey_dynamics.Base.BTreeMap.{BTreeMap}

-- A number is kept as its text. `array` and `object` hold their own lists.
mutual
  pub data Value : Type 0 where
    null : Value
    bool : Bool → Value
    number : String → Value
    string : String → Value
    array : Values → Value
    object : Object → Value

  pub data Values : Type 0 where
    nil : Values
    cons : Value → Values → Values

  pub data Object : Type 0 where
    end : Object
    entry : String → Value → Object → Object

-- `json!({})`
abbrev pub empty_object : Value
empty_object = object end

-- A UUID is its 128-bit number; `Ord` on it is the order of the numbers.
abbrev pub Uuid : Type 0
Uuid = ℕ

-- `Uuid::default()`
abbrev pub nil_uuid : Uuid
nil_uuid = 0

-- `PointerBuf` is its RFC 6901 text; `Ord` on it is the order of the texts.
abbrev pub PointerBuf : Type 0
PointerBuf = String

-- `jsonptr::assign::Error`, known by its message only.
abbrev pub AssignError : Type 0
AssignError = String

-- A path-keyed batch of changes.
abbrev pub Changes : Type 0
Changes = BTreeMap PointerBuf Value

-- The crates that the domain calls: `json_patch`, `jsonptr` and `uuid`.
pub record Crates : Type 0 where
  -- `json_patch::merge(target, patch)`
  pub merge : Value → Value → Value
  -- `Pointer::assign(dest, value)`: the new document, or an error
  pub assign : PointerBuf → Value → Value → Result AssignError Value
  -- `path.tokens()`, decoded
  pub tokens : PointerBuf → List String
  -- `PointerBuf::from_tokens`
  pub from_tokens : List String → PointerBuf
  -- `PointerBuf::parse`: `none` for a text that is no pointer
  pub parse : String → Option PointerBuf
  -- `Pointer::strip_prefix`
  pub strip_prefix : PointerBuf → PointerBuf → Option PointerBuf
  -- `with_trailing_token`, for a key and for an index
  pub with_trailing_token : PointerBuf → String → PointerBuf
  pub index_token : ℕ → String
  -- `Uuid::to_string`
  pub uuid_to_string : Uuid → String
