-- ===== src/Crypto/Events.antt =====
-- crates/cqrs-es-crypto/src/repository.rs: the partitions of an event's secrets and the codec
-- between them and the event.
use journey_dynamics.Base.{ℕ, String, Option, List, Result}
use journey_dynamics.Json.{Uuid, Value}
use journey_dynamics.Crypto.Primitives.{Bytes, Failure}
use journey_dynamics.Crypto.Cipher.{CryptoError}
use journey_dynamics.Crypto.Kek.{KekError}
use journey_dynamics.Crypto.KeyStore.{KeyStoreError}

-- `cqrs_es::persist::SerializedEvent`
pub record SerializedEvent : Type 0 where
  pub aggregate_id : String
  pub sequence : ℕ
  pub aggregate_type : String
  pub event_type : String
  pub event_version : String
  pub payload : Value
  pub metadata : Value

pub record SecretPartition : Type 0 where
  pub subject_id : Uuid
  pub label : String
  pub payload : Bytes

pub record DecryptedPartition : Type 0 where
  pub subject_id : Uuid
  pub label : String
  pub payload : Bytes

pub record EncryptedPiiExtract : Type 0 where
  pub subject_id : Uuid
  pub ciphertext : Bytes
  pub nonce : Bytes

pub data PiiCodecError : Type 0 where
  json other : String → PiiCodecError

-- `OptimisticLockError`, and what `PersistenceError::UnknownError` boxes.
pub data PersistenceError : Type 0 where
  optimistic_lock_error : PersistenceError
  wrapping_error : KekError → PersistenceError
  database_error : String → PersistenceError
  codec_error : PiiCodecError → PersistenceError
  key_store_error : KeyStoreError → PersistenceError
  crypto_error : CryptoError → PersistenceError
  base64_error message : String → PersistenceError

-- `trait PiiEventCodec`; an event that is changed in place is returned.
pub record PiiEventCodec : Type 0 where
  pub extract_partitions :
      SerializedEvent → Result (Failure PiiCodecError) (SerializedEvent × List SecretPartition)
  pub reconstruct :
      SerializedEvent → List DecryptedPartition → Result (Failure PiiCodecError) SerializedEvent
  pub redact_partitions :
      SerializedEvent → List String → Result (Failure PiiCodecError) SerializedEvent
  pub extract_encrypted_legacy : SerializedEvent → Option EncryptedPiiExtract

-- The crates `uuid` and `base64`.
pub record Encodings : Type 0 where
  pub uuid_to_string : Uuid → String
  pub parse_uuid : String → Option Uuid
  pub encode : Bytes → String
  pub decode : String → Result String Bytes
