-- ===== src/Crypto/Kek.antt =====
-- crates/cqrs-es-crypto/src/kek.rs: the provider of key encryption keys, as an interface, and
-- `StaticKekProvider`. A `HashMap` is the ordered map of Base/BTreeMap: no result here depends on
-- the order.
pub mod Rotation
use journey_dynamics.Base.{
  ℕ, ◌-◌, String, Bool, true, false, Option, none, some, List, [], ◌∷◌, length, is_some, Result, ok,
  err, ◌>>=◌, ◌>>◌, bail_if, not, map_err, ok_or, text_ord, str_eq, ◌==◌, if◌then◌else◌,
}
use Prim.Native.String.{◌++◌ as text_append}
use journey_dynamics.Base.BTreeMap.{BTreeMap, get, insert, keys}
use journey_dynamics.Base.Text.{strip_prefix, trim}
use journey_dynamics.Base.Encode.{decimal}
use journey_dynamics.Json.{Uuid}
use journey_dynamics.Crypto.Primitives.{Bytes, Failure, panic, error, expect, zeros, Primitives}
use journey_dynamics.Crypto.Cipher.{
  KeyMaterial, CryptoError, decryption_failed, key_unwrap_failed, invalid_kek_length,
  new_from_slice,
}

pub record WrappedDek : Type 0 where
  pub key_id : Uuid
  pub kek_id : String
  pub wrapped_key : Bytes

pub record KekHandle : Type 0 where
  pub id : String

-- The boxed errors are their messages.
pub data KekError : Type 0 where
  unknown_version : String → KekError
  wrap_failed unwrap_failed transport : String → KekError

-- `trait KekProvider`
pub record KekProvider : Type 0 where
  pub current : KekHandle
  pub by_id : String → Option KekHandle
  pub wrap : KekHandle → KeyMaterial → Result (Failure KekError) WrappedDek
  pub unwrap : WrappedDek → Result (Failure KekError) KeyMaterial

pub record StaticKekProvider : Type 0 where
  pub primary : String
  pub keks : BTreeMap String Bytes

-- What `from_env` takes from outside: the environment's variables and the crate `base64`.
pub record Environment : Type 0 where
  pub vars : BTreeMap String String
  pub decode : String → Result String Bytes

unfoldable pub new : String → BTreeMap String Bytes → Result KekError StaticKekProvider
new primary keks =
    if is_some (get primary keks)
    then ok (record { primary = primary; keks = keks })
    else err (unknown_version primary)

unfoldable pub single : String → Bytes → Result KekError StaticKekProvider
single id key_bytes =
    if length key_bytes == 32
    then ok (record { primary = id; keks = insert id key_bytes [] })
    else err (
        wrap_failed (text_append "KEK must be exactly 32 bytes, got " (decimal (length key_bytes))))

-- The messages of `from_env`.
abbrev pub not_set : String → KekError
not_set primary_var =
    transport (text_append "Environment variable " (text_append primary_var " is not set"))

abbrev pub not_base64 : String → String → KekError
not_base64 key e =
    transport (
      text_append "Environment variable "
        (text_append key (text_append " is not valid base64: " e)))

abbrev pub not_32_bytes : String → Bytes → KekError
not_32_bytes key bytes = transport (
    text_append "Environment variable " (
      text_append key
        (text_append " must decode to exactly 32 bytes, got " (decimal (length bytes)))))

abbrev pub no_keks : String → KekError
no_keks prefix =
    transport (text_append "No KEK variables found with prefix " (text_append prefix "_"))

-- One variable of the environment that is a key version, decoded and tested.
unfoldable pub read_kek : Environment → String → String → Result KekError Bytes
read_kek env key val = do
  bytes ← map_err (not_base64 key) (env.decode (trim val))
  bail_if (not (length bytes == 32)) (not_32_bytes key bytes)
  ok bytes

-- The version id that a variable's name gives, if it is one.
unfoldable pub version_of : String → String → Option String
version_of prefix key = elim (strip_prefix (text_append prefix "_") key) [
  | none ↦ none
  | some rest ↦ if str_eq rest "PRIMARY" then none else some rest
]

-- One turn of the loop.
unfoldable pub add_var :
    Environment
    → Option String
    → String
    → String
    → BTreeMap String Bytes
    → Result KekError (BTreeMap String Bytes)
add_var env none key val keks = ok keks
add_var env (some id) key val keks = do bytes ← read_kek env key val; ok (insert id bytes keks)

unfoldable pub read_vars :
    Environment
    → String
    → BTreeMap String String
    → BTreeMap String Bytes
    → Result KekError (BTreeMap String Bytes)
read_vars env prefix [] keks = ok keks
read_vars env prefix ((key, val) ∷ vars) keks = do
  keks' ← add_var env (version_of prefix key) key val keks
  read_vars env prefix vars keks'

abbrev pub is_empty_map : BTreeMap String Bytes → Bool
is_empty_map [] = true
is_empty_map (_ ∷ _) = false

unfoldable pub from_env : Environment → String → Result KekError StaticKekProvider
from_env env prefix = do
  primary ←
      ok_or (get (text_append prefix "_PRIMARY") env.vars) (not_set (text_append prefix "_PRIMARY"))
  keks ← read_vars env prefix env.vars []
  bail_if (is_empty_map keks) (no_keks prefix)
  new primary keks

abbrev pub known_ids : StaticKekProvider → List String
known_ids provider = keys provider.keks

unfoldable pub current : StaticKekProvider → KekHandle
current provider = record { id = provider.primary }

unfoldable pub by_id : StaticKekProvider → String → Option KekHandle
by_id provider id = if is_some (get id provider.keks) then some (record { id = id }) else none

module _ (p : Primitives) where
  unfoldable pub kwp_wrap : Bytes → KeyMaterial → Result (Failure KekError) Bytes
  kwp_wrap kek_bytes dek = do
    cipher ← expect (new_from_slice kek_bytes)
    map_err (λ e. error (wrap_failed e)) (p.wrap_key cipher dek.key (zeros 40))

  unfoldable pub kwp_unwrap : Bytes → Uuid → Bytes → Result (Failure KekError) KeyMaterial
  kwp_unwrap kek_bytes key_id wrapped_key = do
    cipher ← expect (new_from_slice kek_bytes)
    key ←
        map_err (λ e. error (unwrap_failed e))
          (p.unwrap_key cipher wrapped_key (zeros (length wrapped_key - 8)))
    ok (record { key_id = key_id; key = key })

  unfoldable pub wrap :
      StaticKekProvider → KekHandle → KeyMaterial → Result (Failure KekError) WrappedDek
  wrap provider kek dek = do
    kek_bytes ← ok_or (get kek.id provider.keks) (error (unknown_version kek.id))
    wrapped_key ← kwp_wrap kek_bytes dek
    ok (record { key_id = dek.key_id; kek_id = kek.id; wrapped_key = wrapped_key })

  unfoldable pub unwrap : StaticKekProvider → WrappedDek → Result (Failure KekError) KeyMaterial
  unwrap provider wrapped = do
    kek_bytes ← ok_or (get wrapped.kek_id provider.keks) (error (unknown_version wrapped.kek_id))
    kwp_unwrap kek_bytes wrapped.key_id wrapped.wrapped_key

  -- `impl KekProvider for StaticKekProvider`
  unfoldable pub static_provider : StaticKekProvider → KekProvider
  static_provider provider = record {
    current = current provider;
    by_id = by_id provider;
    wrap = wrap provider;
    unwrap = unwrap provider;
  }
