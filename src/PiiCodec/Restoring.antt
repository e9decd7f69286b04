-- ===== src/PiiCodec/Restoring.antt =====
-- `JourneyPiiCodec`: `reconstruct`, `redact_partitions` and `extract_encrypted_legacy`.
use journey_dynamics.Base.Partial.{◌>>=◌ as ◌bind◌}
use journey_dynamics.Base.{
  String, Bool, true, false, Option, none, some, List, [], ◌∷◌, Result, ok, err, ◌>>=◌, text_ord,
  str_eq, if◌then◌else◌,
}
use journey_dynamics.Json.{Value, null, bool, object, end, entry}
use journey_dynamics.Json.Map.{object_get, index, as_object, as_str}
use journey_dynamics.Crypto.Primitives.{expect}
use journey_dynamics.Crypto.Events.{
  SerializedEvent, DecryptedPartition, EncryptedPiiExtract, Encodings,
}
use journey_dynamics.Crypto.Envelope.{change_inner}
use journey_dynamics.PiiCodec.Taking.{
  JsonBytes, Coded, from_json, redacted_text, put_pii, put_details, has_label, subject_in,
  partitions_in, set_changes, put_elements,
}

module _ (enc : Encodings) (jb : JsonBytes) where
  abbrev pub restore_captured : DecryptedPartition → SerializedEvent → Coded SerializedEvent
  restore_captured part event = do
    pii ← from_json (jb.from_slice part.payload)
    expect (change_inner (put_pii (index pii "name") (index pii "email") (index pii "phone")) event)

  abbrev pub restore_details : DecryptedPartition → SerializedEvent → Coded SerializedEvent
  restore_details part event = do
    pii ← from_json (jb.from_slice part.payload)
    expect (change_inner (put_details pii) event)

  abbrev pub restore_changes : DecryptedPartition → Value → List Value → Coded (List Value)
  restore_changes part element elements = do
    changes ← from_json (jb.from_slice part.payload)
    ok (set_changes enc jb changes element ∷ elements)

  -- `reconstruct`: the loop over the partitions of a captured person.
  unfoldable pub reconstruct_captured :
      SerializedEvent → List DecryptedPartition → Coded SerializedEvent
  reconstruct_captured event [] = ok event
  reconstruct_captured event (part ∷ parts) = do
    event' ← if str_eq part.label "default" then restore_captured part event else ok event
    reconstruct_captured event' parts

  unfoldable pub reconstruct_details :
      SerializedEvent → List DecryptedPartition → Coded SerializedEvent
  reconstruct_details event [] = ok event
  reconstruct_details event (part ∷ parts) = do
    event' ← if str_eq part.label "default" then restore_details part event else ok event
    reconstruct_details event' parts

  -- `person_ref.as_deref() == Some(&part.label)`
  abbrev pub is_named : Option String → String → Bool
  is_named none label = false
  is_named (some person_ref) label = str_eq person_ref label

  -- The first element of this name gets the changes.
  unfoldable pub put_changes : DecryptedPartition → List Value → Coded (List Value)
  put_changes part [] = ok []
  put_changes part (element ∷ elements) =
      let rest = put_changes part elements in
      if is_named (as_str (index element "person_ref")) part.label
      then restore_changes part element elements
      else (rest >>= λ kept. ok (element ∷ kept))

  abbrev pub reconstruct_elements :
      Option (List Value) → DecryptedPartition → SerializedEvent → Coded SerializedEvent
  reconstruct_elements none part event = ok event
  reconstruct_elements (some elements) part event =
      put_changes part elements >>= λ kept. expect (change_inner (put_elements enc jb kept) event)

  unfoldable pub reconstruct_attributes :
      SerializedEvent → List DecryptedPartition → Coded SerializedEvent
  unfolding put_changes
  reconstruct_attributes event [] = ok event
  reconstruct_attributes event (part ∷ parts) = do
    event' ←
        reconstruct_elements (partitions_in enc jb (index event.payload event.event_type)) part
          event
    reconstruct_attributes event' parts

  unfoldable pub reconstruct : SerializedEvent → List DecryptedPartition → Coded SerializedEvent
  reconstruct event parts =
      if str_eq event.event_type "PersonCaptured"
      then reconstruct_captured event parts
      else if str_eq event.event_type "PersonDetailsUpdated"
      then reconstruct_details event parts
      else if str_eq event.event_type "AttributesSet"
      then reconstruct_attributes event parts
      else ok event

  unfoldable pub redact_captured : SerializedEvent → List String → Coded SerializedEvent
  redact_captured event labels =
      if has_label labels "default"
      then expect (change_inner (put_pii redacted_text redacted_text null) event)
      else ok event

  unfoldable pub redact_details : SerializedEvent → List String → Coded SerializedEvent
  redact_details event labels =
      if has_label labels "default"
      then expect (change_inner (put_details (object end)) event)
      else ok event

  -- `person_ref.as_deref().is_some_and(|pr| labels.iter().any(|l| l == pr))`
  abbrev pub is_listed : List String → Option String → Bool
  is_listed labels none = false
  is_listed labels (some person_ref) = has_label labels person_ref

  unfoldable pub redact_elements : List String → List Value → List Value
  redact_elements labels [] = []
  redact_elements labels (element ∷ elements) =
      (if is_listed labels (as_str (index element "person_ref"))
        then set_changes enc jb (object (entry "/redacted" (bool true) end)) element
        else element)
      ∷ redact_elements labels elements

  abbrev pub redact_attributes_from :
      Option (List Value) → SerializedEvent → List String → Coded SerializedEvent
  redact_attributes_from none event labels = ok event
  redact_attributes_from (some elements) event labels =
      expect (change_inner (put_elements enc jb (redact_elements labels elements)) event)

  unfoldable pub redact_attributes : SerializedEvent → List String → Coded SerializedEvent
  redact_attributes event labels =
      redact_attributes_from (partitions_in enc jb (index event.payload event.event_type)) event
        labels

  unfoldable pub redact_partitions : SerializedEvent → List String → Coded SerializedEvent
  redact_partitions event labels =
      if str_eq event.event_type "PersonCaptured"
      then redact_captured event labels
      else if str_eq event.event_type "PersonDetailsUpdated"
      then redact_details event labels
      else if str_eq event.event_type "AttributesSet"
      then redact_attributes event labels
      else ok event

  abbrev pub to_option {ℓ κ} : {E : Type κ} {A : Type ℓ} → Result E A → Option A
  to_option (ok a) = some a
  to_option (err e) = none

  -- The legacy shape, by the name of its ciphertext: each step that finds nothing ends it.
  unfoldable pub extract_legacy : String → Value → Option EncryptedPiiExtract
  extract_legacy ciphertext_key inner = as_object inner bind λ map.
      object_get ciphertext_key map bind λ present. subject_in enc jb inner bind λ subject_id.
      as_str (index inner ciphertext_key) bind λ ciphertext_text.
      to_option (enc.decode ciphertext_text) bind λ ciphertext.
      as_str (index inner "nonce") bind λ nonce_text.
      to_option (enc.decode nonce_text) bind λ nonce.
      some (record { subject_id = subject_id; ciphertext = ciphertext; nonce = nonce })

  unfoldable pub extract_encrypted_legacy : SerializedEvent → Option EncryptedPiiExtract
  unfolding extract_legacy
  extract_encrypted_legacy event =
      if str_eq event.event_type "PersonCaptured"
      then extract_legacy "encrypted_pii" (index event.payload event.event_type)
      else if str_eq event.event_type "PersonDetailsUpdated"
      then extract_legacy "encrypted_data" (index event.payload event.event_type)
      else none
