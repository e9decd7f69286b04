-- ===== src/Derive/Codec.antt =====
-- crates/cqrs-es-crypto-derive/src/lib.rs: what the code that the macro generates does, for the
-- model of an enum. A panic of the macro is a panic of every call.
use journey_dynamics.Base.{
  String, Option, none, some, List, [], ◌∷◌, map, ok, ◌>>=◌, text_ord, str_eq, if◌then◌else◌,
}
use journey_dynamics.Base.Partial.{◌>>=◌ as ◌bind◌, unwrap}
use journey_dynamics.Json.{Uuid, Value, null as json_null, string, array, nil, object, Object, end}
use journey_dynamics.Json.Map.{
  object_get, object_insert, object_remove, or_null, index, as_object, as_str,
}
use journey_dynamics.Crypto.Primitives.{Bytes, expect}
use journey_dynamics.Crypto.Events.{
  SerializedEvent, SecretPartition, DecryptedPartition, EncryptedPiiExtract, PiiEventCodec,
  Encodings,
}
use journey_dynamics.Crypto.Envelope.{change_inner}
use journey_dynamics.PiiCodec.{JsonBytes, Coded, from_json, has_label, default_partition}
use journey_dynamics.Derive.Model.{
  RedactValue, literal, PiiFieldModel, PiiVariantModel, subject_field, secret_fields,
}

-- `json!(…)` of the tokens that `redact_value_to_tokens` makes.
unfoldable pub redact_value_to_tokens : RedactValue → Value
redact_value_to_tokens (literal s) = string s
redact_value_to_tokens RedactValue.null = json_null
redact_value_to_tokens RedactValue.empty_object = object end
redact_value_to_tokens RedactValue.empty_array = array nil

-- The keys of the secret fields.
abbrev pub secret_strs : PiiVariantModel → List String
secret_strs v = map (λ (f : PiiFieldModel). f.ident) (secret_fields v)

abbrev pub redact_ts : Option RedactValue → Option Value
redact_ts none = none
redact_ts (some value) = some (redact_value_to_tokens value)

-- The keys of the secret fields with their redactions; `none` is the panic of a field without one.
unfoldable pub secret_field_data : List PiiFieldModel → Option (List (String × Value))
unfolding redact_value_to_tokens
secret_field_data [] = some []
secret_field_data (f ∷ fs) = redact_ts f.redact bind λ value.
    secret_field_data fs bind λ rest. some ((f.ident, value) ∷ rest)

-- `obj.remove(s)` and `obj.insert(s, …)` for each key in turn.
unfoldable pub remove_all : List String → Object → Object
remove_all [] map = map
remove_all (s ∷ ss) map = remove_all ss (object_remove s map)

unfoldable pub insert_all : (String → Value) → List String → Object → Object
insert_all f [] map = map
insert_all f (s ∷ ss) map = insert_all f ss (object_insert s (f s) map)

unfoldable pub insert_pairs : List (String × Value) → Object → Object
insert_pairs [] map = map
insert_pairs ((s, value) ∷ pairs) map = insert_pairs pairs (object_insert s value map)

-- `obj.remove(sentinel); obj.remove("nonce")`
abbrev pub strip_legacy : String → Object → Object
strip_legacy sentinel map = object_remove "nonce" (object_remove sentinel map)

-- `json!({ s: inner.get(s).cloned().unwrap_or(Null), … })`
abbrev pub bundle : List String → Object → Value
bundle ss inner = object (insert_all (λ s. or_null (object_get s inner)) ss end)

-- What a partition puts back.
abbrev pub put_secrets : List String → Value → Object → Object
put_secrets (s ∷ []) pii map = object_insert s pii map
put_secrets ss pii map = insert_all (index pii) ss map

-- `.get(sentinel)?` on the object
abbrev pub sentinel_in : String → Option Object → Option Value
sentinel_in sentinel none = none
sentinel_in sentinel (some map) = object_get sentinel map

-- `match event.event_type.as_str()`: the first arm of this type.
unfoldable pub arm_of : List PiiVariantModel → String → Option PiiVariantModel
arm_of [] event_type = none
arm_of (v ∷ vs) event_type =
    let rest = arm_of vs event_type in if str_eq event_type v.event_type then some v else rest

abbrev pub on_arm {ℓ} : {A : Type ℓ} → Option PiiVariantModel → (PiiVariantModel → A) → A → A
on_arm none f default = default
on_arm (some v) f default = f v

module _ (enc : Encodings) (jb : JsonBytes) where
  abbrev pub parse_text : Option String → Option Uuid
  parse_text none = none
  parse_text (some s) = enc.parse_uuid s

  -- The object at the event's type.
  abbrev pub inner_of : SerializedEvent → Value
  inner_of event = index event.payload event.event_type

  -- `subject_id`, `none` where the arm returns no partition.
  abbrev pub subject_in : String → SerializedEvent → Option Uuid
  subject_in subject_str event = parse_text (as_str (index (inner_of event) subject_str))

  abbrev pub Extracted : Type 0
  Extracted = Coded (SerializedEvent × List SecretPartition)

  abbrev pub take_out : Uuid → Value → (Object → Object) → SerializedEvent → Extracted
  take_out subject_id pii change event = expect (change_inner change event) >>= λ event'.
      ok (event', default_partition enc jb subject_id pii ∷ [])

  -- One secret: its value itself.
  abbrev pub extract_single : Uuid → String → Value → SerializedEvent → Extracted
  extract_single subject_id s json_null event = ok (event, [])
  extract_single subject_id s pii event = take_out subject_id pii (object_remove s) event

  -- Several secrets, in an object.
  abbrev pub extract_bundle : Uuid → List String → Option Object → SerializedEvent → Extracted
  extract_bundle subject_id ss none event = ok (event, [])
  extract_bundle subject_id ss (some inner) event =
      take_out subject_id (bundle ss inner) (remove_all ss) event

  abbrev pub extract_secrets : Uuid → List String → SerializedEvent → Extracted
  extract_secrets subject_id (s ∷ []) event =
      extract_single subject_id s (index (inner_of event) s) event
  extract_secrets subject_id ss event =
      extract_bundle subject_id ss (as_object (inner_of event)) event

  abbrev pub extract_from : Option Uuid → List String → SerializedEvent → Extracted
  extract_from none ss event = ok (event, [])
  extract_from (some subject_id) ss event = extract_secrets subject_id ss event

  unfoldable pub extract_partitions_arm : PiiVariantModel → SerializedEvent → Extracted
  extract_partitions_arm v event = expect (subject_field v) >>= λ (f : PiiFieldModel).
      extract_from (subject_in f.ident event) (secret_strs v) event

  abbrev pub restore :
      PiiVariantModel → DecryptedPartition → SerializedEvent → Coded SerializedEvent
  restore v part event = do
    pii ← from_json (jb.from_slice part.payload)
    expect
        (change_inner (λ map. put_secrets (secret_strs v) pii (strip_legacy v.sentinel map)) event)

  unfoldable pub new_reconstruct_arm :
      PiiVariantModel → SerializedEvent → List DecryptedPartition → Coded SerializedEvent
  new_reconstruct_arm v event [] = ok event
  new_reconstruct_arm v event (part ∷ parts) = do
    event' ← if str_eq part.label "default" then restore v part event else ok event
    new_reconstruct_arm v event' parts

  unfoldable pub redact_partitions_arm :
      PiiVariantModel → SerializedEvent → List String → Coded SerializedEvent
  redact_partitions_arm v event labels = do
    pairs ← expect (secret_field_data (secret_fields v))
    if has_label labels "default"
        then expect (change_inner (λ map. insert_pairs pairs (strip_legacy v.sentinel map)) event)
        else ok event

  -- `decode(…).ok()`
  abbrev pub decoded : Option String → Option Bytes
  decoded none = none
  decoded (some s) = unwrap (enc.decode s)

  unfoldable pub extract_encrypted_legacy_arm :
      PiiVariantModel → SerializedEvent → Option EncryptedPiiExtract
  extract_encrypted_legacy_arm v event = subject_field v bind λ (f : PiiFieldModel).
      sentinel_in v.sentinel (as_object (inner_of event)) bind λ (_ : Value).
      subject_in f.ident event bind λ (subject_id : Uuid).
      decoded (as_str (index (inner_of event) v.sentinel)) bind λ ciphertext.
      decoded (as_str (index (inner_of event) "nonce")) bind λ nonce.
      some (record { subject_id = subject_id; ciphertext = ciphertext; nonce = nonce })

  -- The generated implementation of the trait.
  unfoldable pub pii_codec : List PiiVariantModel → PiiEventCodec
  pii_codec variants = record {
    extract_partitions = λ event.
        on_arm (arm_of variants event.event_type) (λ v. extract_partitions_arm v event)
          (ok (event, []));
    reconstruct = λ event parts.
        on_arm (arm_of variants event.event_type) (λ v. new_reconstruct_arm v event parts)
          (ok event);
    redact_partitions = λ event labels.
        on_arm (arm_of variants event.event_type) (λ v. redact_partitions_arm v event labels)
          (ok event);
    extract_encrypted_legacy = λ event.
        on_arm (arm_of variants event.event_type) (λ v. extract_encrypted_legacy_arm v event) none;
  }
