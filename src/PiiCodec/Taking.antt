-- ===== src/PiiCodec/Taking.antt =====
-- `JourneyPiiCodec::extract_partitions`: the secrets of an event, taken out of its payload.
use journey_dynamics.Base.{
  String, Bool, true, false, Option, none, some, List, [], ◌∷◌, any, Result, ok, err, ◌>>=◌,
  text_ord, str_eq, if◌then◌else◌,
}
use journey_dynamics.Json.{Uuid, Value, null, string, array, object, Object, end}
use journey_dynamics.Json.Map.{
  object_get, object_insert, object_remove, or_null, index, as_object, as_str,
}
use journey_dynamics.Crypto.Primitives.{Bytes, Failure, error, expect}
use journey_dynamics.Crypto.Events.{
  SerializedEvent, SecretPartition, PiiCodecError, json, Encodings,
}
use journey_dynamics.Crypto.Envelope.{change_inner, map_object, as_array, to_values}

-- `serde_json::to_vec`, which does not fail on a `Value`, and `serde_json::from_slice`.
pub record JsonBytes : Type 0 where
  pub to_vec : Value → Bytes
  pub from_slice : Bytes → Result String Value

-- The outcome of a method of the codec.
abbrev pub Coded {ℓ} : Type ℓ → Type ℓ
Coded A = Result (Failure PiiCodecError) A

abbrev pub from_json {ℓ} : {A : Type ℓ} → Result String A → Coded A
from_json (ok a) = ok a
from_json (err e) = err (error (json e))

abbrev pub redacted_text : Value
redacted_text = string "[redacted]"

-- `name`, `email` and `phone` of a captured person.
unfoldable pub pii_of : Object → Value
pii_of inner = object (
    object_insert "phone" (or_null (object_get "phone" inner)) (
      object_insert "email" (or_null (object_get "email" inner))
        (object_insert "name" (or_null (object_get "name" inner)) end)))

unfoldable pub remove_pii : Object → Object
remove_pii inner = object_remove "phone" (object_remove "email" (object_remove "name" inner))

unfoldable pub put_pii : Value → Value → Value → Object → Object
put_pii name email phone inner = object_insert "phone" phone (
    object_insert "email" email
      (object_insert "name" name (object_remove "nonce" (object_remove "encrypted_pii" inner))))

unfoldable pub put_details : Value → Object → Object
put_details details inner =
    object_insert "data" details (object_remove "nonce" (object_remove "encrypted_data" inner))

-- `labels.iter().any(|l| l == label)`
abbrev pub has_label : List String → String → Bool
has_label labels label = any (λ l. str_eq l label) labels

module _ (enc : Encodings) (jb : JsonBytes) where
  abbrev pub parse_opt : Option String → Option Uuid
  parse_opt none = none
  parse_opt (some s) = enc.parse_uuid s

  -- `payload[key]["subject_id"]`, parsed
  abbrev pub subject_in : Value → Option Uuid
  subject_in inner = parse_opt (as_str (index inner "subject_id"))

  abbrev pub default_partition : Uuid → Value → SecretPartition
  default_partition subject_id pii = record {
    subject_id = subject_id;
    label = "default";
    payload = jb.to_vec pii;
  }

  -- The event with its object changed, and the one partition.
  abbrev pub taken_out :
      Option SerializedEvent → SecretPartition → Coded (SerializedEvent × List SecretPartition)
  taken_out event part = expect event >>= λ e. ok (e, part ∷ [])

  -- "PersonCaptured", on the subject and on the object.
  abbrev pub extract_captured_from :
      Option Uuid → Option Object → SerializedEvent → Coded (SerializedEvent × List SecretPartition)
  extract_captured_from none inner event = ok (event, [])
  extract_captured_from (some subject_id) none event = ok (event, [])
  extract_captured_from (some subject_id) (some inner) event =
      taken_out (change_inner remove_pii event) (default_partition subject_id (pii_of inner))

  unfoldable pub extract_captured : SerializedEvent → Coded (SerializedEvent × List SecretPartition)
  extract_captured event =
      let inner = index event.payload event.event_type in
      extract_captured_from (subject_in inner) (as_object inner) event

  -- "PersonDetailsUpdated", on the subject and on the data.
  abbrev pub extract_details_from :
      Option Uuid → Value → SerializedEvent → Coded (SerializedEvent × List SecretPartition)
  extract_details_from none pii event = ok (event, [])
  extract_details_from (some subject_id) null event = ok (event, [])
  extract_details_from (some subject_id) pii event =
      taken_out (change_inner (object_remove "data") event) (default_partition subject_id pii)

  unfoldable pub extract_details : SerializedEvent → Coded (SerializedEvent × List SecretPartition)
  extract_details event =
      let inner = index event.payload event.event_type in
      extract_details_from (subject_in inner) (index inner "data") event

  -- `value["secret_partitions"].as_array()`
  abbrev pub partitions_in : Value → Option (List Value)
  partitions_in inner = as_array (index inner "secret_partitions")

  -- `changes.is_null() || changes == json!({})`
  abbrev pub has_no_changes : Value → Bool
  has_no_changes null = true
  has_no_changes (object end) = true
  has_no_changes _ = false

  abbrev pub set_changes : Value → Value → Value
  set_changes changes element = map_object (object_insert "changes" changes) element

  -- One element of `secret_partitions`, on its subject, its name and its changes: what stays, and
  -- the partition before those of the later elements.
  abbrev pub extract_element :
      Option Uuid
      → Option String
      → Value
      → List Value × List SecretPartition
      → List Value × List SecretPartition
  extract_element (some subject_id) (some person_ref) element (elements, parts) =
      if has_no_changes (index element "changes") then (element ∷ elements, parts) else (
        set_changes (object end) element ∷ elements,
        record {
          subject_id = subject_id;
          label = person_ref;
          payload = jb.to_vec (index element "changes");
        }
            ∷ parts,
      )
  extract_element _ _ element (elements, parts) = (element ∷ elements, parts)

  unfoldable pub extract_elements : List Value → List Value × List SecretPartition
  extract_elements [] = ([], [])
  extract_elements (element ∷ elements) =
      extract_element (subject_in element) (as_str (index element "person_ref")) element
        (extract_elements elements)

  -- The array is written back; the elements that nothing was taken from are as they were.
  abbrev pub put_elements : List Value → Object → Object
  put_elements elements inner = object_insert "secret_partitions" (array (to_values elements)) inner

  -- "AttributesSet", on the array.
  abbrev pub extract_attributes_from :
      Option (List Value) → SerializedEvent → Coded (SerializedEvent × List SecretPartition)
  extract_attributes_from none event = ok (event, [])
  extract_attributes_from (some elements) event =
      let (kept, parts) = extract_elements elements in
      expect (change_inner (put_elements kept) event) >>= λ e. ok (e, parts)

  unfoldable pub extract_attributes :
      SerializedEvent → Coded (SerializedEvent × List SecretPartition)
  unfolding extract_elements
  extract_attributes event =
      extract_attributes_from (partitions_in (index event.payload event.event_type)) event

  unfoldable pub extract_partitions :
      SerializedEvent → Coded (SerializedEvent × List SecretPartition)
  extract_partitions event =
      if str_eq event.event_type "PersonCaptured"
      then extract_captured event
      else if str_eq event.event_type "PersonDetailsUpdated"
      then extract_details event
      else if str_eq event.event_type "AttributesSet"
      then extract_attributes event
      else ok (event, [])
