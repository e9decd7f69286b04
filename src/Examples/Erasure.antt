-- ===== src/Examples/Erasure.antt =====
-- The theorems on written and read events at a concrete event with two subjects.
use journey_dynamics.Base.{
  ℕ, String, map, none, some, List, [], ◌∷◌, ok, inl, ◌≡◌, ◌≢◌, refl, nat_ord,
}
use journey_dynamics.Base.BTreeMap.{get, insert}
use journey_dynamics.Json.{Values, nil, cons, array, string, null, object, entry, end, Object}
use journey_dynamics.Json.Map.{object_get}
use journey_dynamics.Crypto.Primitives.{zeros}
use journey_dynamics.Crypto.Cipher.{KeyMaterial, encrypt}
use journey_dynamics.Crypto.KeyStore.{
  InMemoryKeyStore, get_or_create_key, get_key, delete_key, in_memory,
}
use journey_dynamics.Crypto.Events.{
  SerializedEvent, SecretPartition, DecryptedPartition, PiiEventCodec,
}
use journey_dynamics.Crypto.Writing.{Draw, seal, encrypt_event}
use journey_dynamics.Crypto.Reading.RoundTrip.{whole}
use journey_dynamics.Crypto.KeyStore.Holding.{StoreSized}
use journey_dynamics.Crypto.Reading.RoundTrip.Parts.{DrawsSized, fails}
use journey_dynamics.Crypto.Reading.Recreated.{decrypt_events-recreated}
use journey_dynamics.Crypto.Reading.Erasure.{
  ReadsAs, written_store, OnlyDeleted, decrypt_events-encrypt_event, decrypt_events-delete_key,
  decrypt_events_lem,
}
use journey_dynamics.Examples.Fixtures.{
  clear, clear-GcmOpens, keyed, keyed-GcmOpens, keyed-GcmRejects,
}
use journey_dynamics.Examples.Codes.{stroke_codes, stroke_codes-Decodes}

abbrev pub event : SerializedEvent
event = record {
  aggregate_id = "7";
  sequence = 2;
  aggregate_type = "Journey";
  event_type = "AttributesSet";
  event_version = "1.0";
  payload = object (
      entry "AttributesSet"
        (object (
          entry "plaintext" (object end) (
            entry "secret_partitions" (object (entry "3" (string "A") (entry "4" (string "B") end)))
              end)))
        end);
  metadata = object end;
}

-- What the codec leaves in the event, and what it takes out.
abbrev pub inner : Object
inner = entry "plaintext" (object end) end

abbrev pub first : SecretPartition
first = record { subject_id = 3; label = "ada"; payload = 65 ∷ [] }

abbrev pub second : List SecretPartition
second = record { subject_id = 4; label = "bob"; payload = 66 ∷ [] } ∷ []

abbrev pub codec : PiiEventCodec
codec = record {
  extract_partitions = λ e. ok (whole e inner, first ∷ second);
  reconstruct = λ e parts. ok (record e { payload = event.payload });
  redact_partitions = λ e labels. ok (record e { payload = null });
  extract_encrypted_legacy = λ e. none;
}

abbrev pub draw : ℕ → Draw
draw n = record { key = record { key_id = n; key = zeros 32 }; nonce = zeros 12 }

pub draws_sized : DrawsSized draw
draws_sized n = (refl, refl)

abbrev pub store : InMemoryKeyStore
store = record { store = []; provider = none }

pub store_sized : StoreSized store
unfolding get_key get
store_sized u = tt

pub lacks_partitions : object_get "encrypted_partitions" inner ≡ none
unfolding object_get
lacks_partitions = refl

pub lacks_subjects : object_get "subjects" inner ≡ none
unfolding object_get
lacks_subjects = refl

abbrev texts : List String → Values
texts [] = nil
texts (s ∷ ss) = cons (string s) (texts ss)

-- A codec that shows in the payload what it is given, and in the metadata what it has to redact.
abbrev tracing : PiiEventCodec
tracing = record codec {
  reconstruct = λ e parts.
      ok (record e { payload = array (texts (map (λ (d : DecryptedPartition). d.label) parts)) });
  redact_partitions = λ e labels. ok (record e { metadata = array (texts labels) });
}

-- The first subject is erased: its label is redacted, and the other's partition is given back.
decrypt_events-delete_key_example :
    ReadsAs clear stroke_codes tracing draw event 0 store
      (delete_key 3 (written_store clear stroke_codes tracing draw event 0 store))
      (ok (
        record event {
          payload = array (cons (string "bob") nil);
          metadata = array (cons (string "ada") nil);
        }
        ∷ []))
decrypt_events-delete_key_example =
    decrypt_events-delete_key clear stroke_codes tracing draw clear-GcmOpens stroke_codes-Decodes
      draws_sized event event inner first second refl lacks_partitions lacks_subjects 0 3 store
      store_sized

decrypt_events_lem_example :
    ReadsAs clear stroke_codes codec draw event 0 store
      (written_store clear stroke_codes codec draw event 0 store)
      (ok (event ∷ []))
decrypt_events_lem_example =
    decrypt_events_lem clear stroke_codes codec draw clear-GcmOpens stroke_codes-Decodes draws_sized
      event event inner first second refl lacks_partitions lacks_subjects 0 store store_sized refl

-- The store before the write has no keys, as after the deletion of both.
only_deleted : OnlyDeleted (written_store clear stroke_codes tracing draw event 0 store) store
unfolding get_key get
only_deleted u = inl refl

-- Both subjects are erased.
decrypt_events-encrypt_event_example : ReadsAs clear stroke_codes tracing draw event 0 store store (
    ok (
      record event {
        payload = array nil;
        metadata = array (cons (string "ada") (cons (string "bob") nil));
      }
      ∷ []))
unfolding get_key get
decrypt_events-encrypt_event_example =
    decrypt_events-encrypt_event clear stroke_codes tracing draw clear-GcmOpens stroke_codes-Decodes
      draws_sized event event inner first second refl lacks_partitions lacks_subjects 0 store store
      store_sized only_deleted

abbrev new_key : KeyMaterial
new_key = record { key_id = 9; key = 1 ∷ zeros 31 }

abbrev old_key : KeyMaterial
old_key = (draw 0).key

written_key : get_key 3 (written_store keyed stroke_codes codec draw event 0 store) ≡ some old_key
unfolding encrypt_event seal encrypt in_memory get_or_create_key get_key get insert
written_key = refl

keys_differ : new_key.key ≢ old_key.key
keys_differ h = cc

decrypt_events-recreated_example :
    ReadsAs keyed stroke_codes codec draw event 0 store
      (get_or_create_key new_key 3
        (delete_key 3 (written_store keyed stroke_codes codec draw event 0 store))).1
      fails
decrypt_events-recreated_example =
    decrypt_events-recreated keyed stroke_codes codec keyed-GcmRejects draw keyed-GcmOpens
      stroke_codes-Decodes draws_sized event event inner first second refl lacks_partitions
      lacks_subjects 0 new_key old_key store store_sized written_key refl keys_differ
