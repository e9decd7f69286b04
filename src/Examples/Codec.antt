-- ===== src/Examples/Codec.antt =====
-- The theorems on the journeys' codec at a captured person.
use journey_dynamics.Base.{String, none, some, [], ◌∷◌, ok, ◌≡◌, refl, text_ord}
use journey_dynamics.Json.{null, string, object, entry, end, Object}
use journey_dynamics.Json.Map.{object_get}
use journey_dynamics.Crypto.Events.{SerializedEvent}
use journey_dynamics.Crypto.Reading.RoundTrip.{whole}
use journey_dynamics.Crypto.Reading.Erasure.{all_decrypted}
use journey_dynamics.PiiCodec.{
  JsonBytes, pii_of, remove_pii, redacted_text, default_partition, extract_partitions, reconstruct,
  redact_partitions,
}
use journey_dynamics.PiiCodec.Captured.{
  HidesPii, with_pii, reconstruct-extract_partitions, redact_partitions_lem,
}
use journey_dynamics.Examples.Codes.{stroke_codes, number_of}

abbrev inner : Object
inner = entry "email" (string "ada@x") (
    entry "name" (string "Ada") (
      entry "person_ref" (string "ada")
        (entry "phone" null (entry "subject_id" (string "xxx") end))))

abbrev captured : SerializedEvent
captured = record {
  aggregate_id = "7";
  sequence = 1;
  aggregate_type = "Journey";
  event_type = "PersonCaptured";
  event_version = "1.0";
  payload = object (entry "PersonCaptured" (object inner) end);
  metadata = object end;
}

-- JSON of one document.
abbrev one_document : JsonBytes
one_document = record { to_vec = λ v. 1 ∷ []; from_slice = λ bytes. ok (pii_of inner) }

name_there : object_get "name" inner ≡ some (string "Ada")
unfolding object_get
name_there = refl

email_there : object_get "email" inner ≡ some (string "ada@x")
unfolding object_get
email_there = refl

phone_there : object_get "phone" inner ≡ some null
unfolding object_get
phone_there = refl

subject_there : object_get "subject_id" inner ≡ some (string "xxx")
unfolding object_get
subject_there = refl

subject_parsed : stroke_codes.parse_uuid "xxx" ≡ some 3
unfolding number_of
subject_parsed = refl

no_ciphertext : object_get "encrypted_pii" inner ≡ none
unfolding object_get
no_ciphertext = refl

no_nonce : object_get "nonce" inner ≡ none
unfolding object_get
no_nonce = refl

reconstruct-extract_partitions_example :
    (inner' : Object) × (extract_partitions stroke_codes one_document (whole captured inner)
      ≡ ok (
        whole captured (remove_pii inner),
        default_partition stroke_codes one_document 3 (pii_of inner) ∷ [],
      ))
    × HidesPii (remove_pii inner)
    × (reconstruct stroke_codes one_document
          (whole captured (remove_pii inner))
          (all_decrypted (default_partition stroke_codes one_document 3 (pii_of inner) ∷ []))
        ≡ ok (whole captured inner'))
    × ((k : String) → object_get k inner' ≡ object_get k inner)
reconstruct-extract_partitions_example =
    reconstruct-extract_partitions stroke_codes one_document captured inner refl 3 "xxx"
      (string "Ada") (string "ada@x") null refl subject_there subject_parsed name_there email_there
      phone_there no_ciphertext no_nonce

redact_partitions_lem_example :
    (inner' : Object) × (redact_partitions stroke_codes one_document
        (whole captured (remove_pii inner))
        ("default" ∷ [])
      ≡ ok (whole captured inner'))
    × ((k : String) → object_get k inner' ≡ with_pii redacted_text redacted_text null inner k)
redact_partitions_lem_example =
    redact_partitions_lem stroke_codes one_document captured inner refl ("default" ∷ []) refl
      no_ciphertext no_nonce
