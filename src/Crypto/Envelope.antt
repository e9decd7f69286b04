-- ===== src/Crypto/Envelope.antt =====
-- crates/cqrs-es-crypto/src/repository.rs: the envelope of encrypted partitions in an event's
-- payload, and the errors that both directions box.
use Prim.Native.String.{◌++◌ as text_append}
use journey_dynamics.Base.Partial.{◌>>=◌}
use journey_dynamics.Base.{
  String, Option, none, some, List, [], ◌∷◌, map, Result, ok, err, text_ord, nat_ord,
}
use journey_dynamics.Base.Encode.{utf8, decimal}
use journey_dynamics.Json.{
  Uuid, Value, null, bool, number, string, array, object, Values, nil, cons, Object, end,
}
use journey_dynamics.Json.Map.{object_insert, object_remove, index, set_index}
use journey_dynamics.Crypto.Primitives.{Bytes, Failure, panic, error}
use journey_dynamics.Crypto.Cipher.{EncryptedPayload}
use journey_dynamics.Crypto.Events.{SerializedEvent, PersistenceError, Encodings}

abbrev pub Persisted {ℓ} : Type ℓ → Type ℓ
Persisted A = Result (Failure PersistenceError) A

-- `map_err(|e| UnknownError(Box::new(e)))`, past a panic.
abbrev pub boxed {ℓ κ} :
    {E : Type κ} {A : Type ℓ} → (E → PersistenceError) → Result (Failure E) A → Persisted A
boxed f (ok a) = ok a
boxed f (err panic) = err panic
boxed f (err (error e)) = err (error (f e))

abbrev pub failed {ℓ κ} :
    {E : Type κ} {A : Type ℓ} → (E → PersistenceError) → Result E A → Persisted A
failed f (ok a) = ok a
failed f (err e) = err (error (f e))

-- A partition of the envelope, with its subject's text.
pub record Sealed : Type 0 where
  pub subject : String
  pub part : Value

abbrev pub to_values : List Value → Values
to_values [] = nil
to_values (v ∷ vs) = cons v (to_values vs)

abbrev pub from_values : Values → List Value
from_values nil = []
from_values (cons v vs) = v ∷ from_values vs

abbrev pub as_array : Value → Option (List Value)
as_array (array vs) = some (from_values vs)
as_array _ = none

-- `inner.insert("subjects", …); inner.insert("encrypted_partitions", …)`
unfoldable pub add_envelope : List Sealed → Object → Object
add_envelope parts inner =
    object_insert "encrypted_partitions" (array (to_values (map (λ (s : Sealed). s.part) parts))) (
      object_insert "subjects" (array (to_values (map (λ (s : Sealed). string s.subject) parts)))
        inner)

-- `inner.remove("encrypted_partitions"); inner.remove("subjects")`
unfoldable pub remove_envelope : Object → Object
remove_envelope inner = object_remove "subjects" (object_remove "encrypted_partitions" inner)

-- A change of a value that is an object.
abbrev pub map_object : (Object → Object) → Value → Value
map_object f (object map) = object (f map)
map_object f null = null
map_object f (bool b) = bool b
map_object f (number n) = number n
map_object f (string s) = string s
map_object f (array a) = array a

-- `if let Some(inner) = payload[event_type].as_object_mut()` with a change of `inner`: the indexing
-- panics, here `none`, where the payload is neither an object nor null, and enters null for a
-- missing key.
unfoldable pub change_inner : (Object → Object) → SerializedEvent → Option SerializedEvent
change_inner f event = do
  let inner = index event.payload event.event_type
  payload ← set_index event.payload event.event_type (map_object f inner)
  some (record event { payload = payload })

module _ (enc : Encodings) where
  -- `{aggregate_id}:{sequence}:{subject_id}:{label}`
  unfoldable pub partition_aad : SerializedEvent → Uuid → String → Bytes
  partition_aad event subject_id label = utf8 (
      text_append event.aggregate_id (
        text_append ":" (
          text_append (decimal event.sequence) (
            text_append ":"
              (text_append (enc.uuid_to_string subject_id) (text_append ":" label))))))

  -- The JSON of an encrypted partition.
  abbrev pub part_json : Uuid → String → EncryptedPayload → Value
  part_json subject_id label encrypted = object (
      object_insert "subject_id" (string (enc.uuid_to_string subject_id)) (
        object_insert "label" (string label) (
          object_insert "nonce" (string (enc.encode encrypted.nonce))
            (object_insert "ciphertext" (string (enc.encode encrypted.ciphertext)) end))))
