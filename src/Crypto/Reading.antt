-- ===== src/Crypto/Reading.antt =====
-- crates/cqrs-es-crypto/src/repository.rs: `decrypt_events`, which first fetches the keys of all
-- subjects and then decrypts or redacts each event.
pub mod RoundTrip
pub mod Fetch
pub mod Restored
pub mod Erasure
pub mod Batch
pub mod Recreated
use Prim.Native.String.{◌++◌ as text_append}
use journey_dynamics.Base.{
  ℕ, suc, ◌+◌, String, Bool, true, false, Option, none, some, List, [], ◌∷◌, ◌++◌, map, length,
  Result, ok, err, ◌>>=◌, map_err, ok_or, text_ord, nat_ord,
}
use journey_dynamics.Base.BTreeMap.{BTreeMap, get, insert}
use journey_dynamics.Base.Encode.{utf8, decimal}
use journey_dynamics.Json.{
  Uuid, Value, null, bool, number, string, array, object, Values, nil, cons, Object, end,
}
use journey_dynamics.Json.Map.{
  object_get, object_insert, object_remove, index, as_object, as_str, set_index,
}
use journey_dynamics.Crypto.Primitives.{Bytes, Failure, panic, error, expect, Primitives}
use journey_dynamics.Crypto.Cipher.{KeyMaterial, EncryptedPayload, CryptoError, encrypt, decrypt}
use journey_dynamics.Crypto.KeyStore.{KeyStoreError, KeyStore}
use journey_dynamics.Crypto.Events.{
  SerializedEvent, SecretPartition, DecryptedPartition, EncryptedPiiExtract, PiiCodecError,
  PersistenceError, codec_error, key_store_error, crypto_error, base64_error, message,
  PiiEventCodec, Encodings,
}
use journey_dynamics.Crypto.Envelope.{
  add_envelope, remove_envelope, change_inner, as_array, partition_aad, part_json, Persisted, boxed,
  failed, Sealed,
}

-- `dek_cache`
abbrev pub DekCache : Type 0
DekCache = BTreeMap Uuid (Option KeyMaterial)

-- `dek_cache.get(&subject_id).and_then(Option::as_ref)`
abbrev pub cached_of : Option (Option KeyMaterial) → Option KeyMaterial
cached_of none = none
cached_of (some o) = o

abbrev pub cached : DekCache → Uuid → Option KeyMaterial
cached cache subject_id = cached_of (get subject_id cache)

abbrev pub text_or : String → Option String → String
text_or default none = default
text_or default (some s) = s

-- What becomes of a partition.
pub data Opened : Type 0 where
  decrypted : DecryptedPartition → Opened
  redacted : String → Opened

-- `decrypted.push(…)` and `redacted_labels.push(…)`, before those of the later partitions.
abbrev pub sort_opened :
    Opened → List DecryptedPartition × List String → List DecryptedPartition × List String
sort_opened (decrypted part) (parts, labels) = (part ∷ parts, labels)
sort_opened (redacted label) (parts, labels) = (parts, label ∷ labels)

module _ (p : Primitives) (enc : Encodings) (codec : PiiEventCodec) where
  -- `p["subject_id"].as_str()`, parsed
  abbrev pub parse_opt : Option String → Option Uuid
  parse_opt none = none
  parse_opt (some s) = enc.parse_uuid s

  unfoldable pub subject_of : Value → Option Uuid
  subject_of part = parse_opt (as_str (index part "subject_id"))

  -- The `match` on the cached key.
  abbrev pub open_with :
      Option KeyMaterial → SerializedEvent → Uuid → String → EncryptedPayload → Persisted Opened
  open_with none event subject_id label payload = ok (redacted label)
  open_with (some dek) event subject_id label payload =
      boxed crypto_error (decrypt p dek payload (partition_aad enc event subject_id label))
      >>= λ bytes.
          ok (decrypted (record { subject_id = subject_id; label = label; payload = bytes }))

  unfoldable pub open_part : DekCache → SerializedEvent → Value → Persisted Opened
  unfolding subject_of
  open_part cache event part = do
    subject_id ←
        ok_or (subject_of part)
          (error (message "missing or invalid subject_id in encrypted_partition"))
    let label = text_or "default" (as_str (index part "label"))
    nonce ← failed base64_error (enc.decode (text_or "" (as_str (index part "nonce"))))
    ciphertext ← failed base64_error (enc.decode (text_or "" (as_str (index part "ciphertext"))))
    open_with (cached cache subject_id) event subject_id label
        (record { ciphertext = ciphertext; nonce = nonce })

  unfoldable pub open_parts :
      DekCache → SerializedEvent → List Value → Persisted (List DecryptedPartition × List String)
  unfolding open_part
  open_parts cache event [] = ok ([], [])
  open_parts cache event (part ∷ parts) = do
    opened ← open_part cache event part
    rest ← open_parts cache event parts
    ok (sort_opened opened rest)

  -- `if !redacted_labels.is_empty()`
  abbrev pub redact : List String → SerializedEvent → Persisted SerializedEvent
  redact [] event = ok event
  redact (label ∷ labels) event = boxed codec_error (codec.redact_partitions event (label ∷ labels))

  -- Reconstruction, then redaction.
  unfoldable pub put_back :
      SerializedEvent → List DecryptedPartition × List String → Persisted SerializedEvent
  put_back event (parts, labels) =
      boxed codec_error (codec.reconstruct event parts) >>= λ whole. redact labels whole

  -- The new shape.
  unfoldable pub decrypt_parts : DekCache → SerializedEvent → List Value → Persisted SerializedEvent
  unfolding open_parts put_back change_inner
  decrypt_parts cache event parts = do
    bare ← expect (change_inner remove_envelope event)
    opened ← open_parts cache bare parts
    put_back bare opened

  -- `{aggregate_id}:{sequence}`
  abbrev pub legacy_aad : SerializedEvent → Bytes
  legacy_aad event =
      utf8 (text_append event.aggregate_id (text_append ":" (decimal event.sequence)))

  -- The legacy shape, on the extract and on the cached key of its subject.
  abbrev pub decrypt_extract :
      SerializedEvent → EncryptedPiiExtract → Option KeyMaterial → Persisted SerializedEvent
  decrypt_extract event extract none =
      boxed codec_error (codec.redact_partitions event ("default" ∷ []))
  decrypt_extract event extract (some dek) =
      boxed crypto_error (
        decrypt p dek (record { ciphertext = extract.ciphertext; nonce = extract.nonce })
          (legacy_aad event))
      >>= λ bytes. boxed codec_error (
          codec.reconstruct event
            (record { subject_id = extract.subject_id; label = "default"; payload = bytes } ∷ []))

  abbrev pub decrypt_legacy :
      DekCache → SerializedEvent → Option EncryptedPiiExtract → Persisted SerializedEvent
  decrypt_legacy cache event none = ok event
  decrypt_legacy cache event (some extract) =
      decrypt_extract event extract (cached cache extract.subject_id)

  -- The array of the new shape, if the event has one.
  abbrev pub envelope_of : SerializedEvent → Option (List Value)
  envelope_of event = as_array (index (index event.payload event.event_type) "encrypted_partitions")

  -- One event of the second pass.
  abbrev pub decrypt_shape :
      DekCache → SerializedEvent → Option (List Value) → Persisted SerializedEvent
  decrypt_shape cache event (some parts) = decrypt_parts cache event parts
  decrypt_shape cache event none = decrypt_legacy cache event (codec.extract_encrypted_legacy event)

  unfoldable pub decrypt_event : DekCache → SerializedEvent → Persisted SerializedEvent
  unfolding decrypt_parts
  decrypt_event cache event = decrypt_shape cache event (envelope_of event)

  unfoldable pub decrypt_all : DekCache → List SerializedEvent → Persisted (List SerializedEvent)
  decrypt_all cache [] = ok []
  decrypt_all cache (event ∷ events) = do
    first ← decrypt_event cache event
    rest ← decrypt_all cache events
    ok (first ∷ rest)

  module _ {S : Type 0} (store : KeyStore S) (s : S) where
    -- `if let Entry::Vacant(e) = dek_cache.entry(id)`
    abbrev pub fetch_vacant : Uuid → DekCache → Option (Option KeyMaterial) → Persisted DekCache
    fetch_vacant subject_id cache (some key) = ok cache
    fetch_vacant subject_id cache none =
        failed key_store_error (store.get_key subject_id s) >>= λ dek.
        ok (insert subject_id dek cache)

    unfoldable pub fetch : Uuid → DekCache → Persisted DekCache
    fetch subject_id cache = fetch_vacant subject_id cache (get subject_id cache)

    abbrev pub fetch_opt : Option Uuid → DekCache → Persisted DekCache
    fetch_opt none cache = ok cache
    fetch_opt (some subject_id) cache = fetch subject_id cache

    unfoldable pub fetch_parts : List Value → DekCache → Persisted DekCache
    unfolding fetch subject_of
    fetch_parts [] cache = ok cache
    fetch_parts (part ∷ parts) cache = do
      cache' ← fetch_opt (subject_of part) cache
      fetch_parts parts cache'

    abbrev pub fetch_legacy : Option EncryptedPiiExtract → DekCache → Persisted DekCache
    fetch_legacy none cache = ok cache
    fetch_legacy (some extract) cache = fetch extract.subject_id cache

    abbrev pub fetch_shape : SerializedEvent → Option (List Value) → DekCache → Persisted DekCache
    fetch_shape event (some parts) cache = fetch_parts parts cache
    fetch_shape event none cache = fetch_legacy (codec.extract_encrypted_legacy event) cache

    -- The first pass.
    unfoldable pub fetch_all : List SerializedEvent → DekCache → Persisted DekCache
    fetch_all [] cache = ok cache
    fetch_all (event ∷ events) cache = do
      cache' ← fetch_shape event (envelope_of event) cache
      fetch_all events cache'

    unfoldable pub decrypt_events : List SerializedEvent → Persisted (List SerializedEvent)
    decrypt_events events = do cache ← fetch_all events []; decrypt_all cache events
