-- ===== src/Crypto/Reading/Recreated.antt =====
-- An event is written, its subject is erased and gets a new key, and the event is read.
use journey_dynamics.Base.{
  ℕ, none, some, List, [], ◌∷◌, map, length, ok, nat_ord, ◌≡◌, ◌≢◌, inl, refl, ap, subst, ◌∙◌,
}
use journey_dynamics.Base.BTreeMap.{get-nil}
use journey_dynamics.Json.{Object, object, entry, end}
use journey_dynamics.Json.Map.{object_get}
use journey_dynamics.Crypto.Primitives.{Primitives, GcmOpens, GcmRejects}
use journey_dynamics.Crypto.Cipher.{KeyMaterial}
use journey_dynamics.Crypto.KeyStore.{
  InMemoryKeyStore, get_or_create_key, get_key, delete_key, in_memory,
}
use journey_dynamics.Crypto.KeyStore.Shredding.{get_key-delete_key}
use journey_dynamics.Crypto.Events.{SerializedEvent, SecretPartition, PiiEventCodec, Encodings}
use journey_dynamics.Crypto.Envelope.{Sealed, add_envelope}
use journey_dynamics.Crypto.Writing.{Draw}
use journey_dynamics.Crypto.Reading.{cached_of, decrypt_all, fetch_all, decrypt_events}
use journey_dynamics.Crypto.Reading.Fetch.{fetch_parts-Fetches}
use journey_dynamics.Crypto.Reading.RoundTrip.{
  whole, envelope_of-whole, decrypt_parts-sealed, encrypt_event-sealed,
}
use journey_dynamics.Crypto.KeyStore.Holding.{StoreSized}
use journey_dynamics.Crypto.Reading.RoundTrip.Parts.{
  Decodes, DrawsSized, subjects, fails, SealedParts,
}
use journey_dynamics.Crypto.Reading.Erasure.{ReadsAs, written_store}

module _ (p : Primitives) (enc : Encodings) (codec : PiiEventCodec) (rejects : GcmRejects p) where
  -- Both passes over one written event whose first subject has another key by now.
  decrypt_events-fails :
      (event : SerializedEvent) (inner : Object) (part : SecretPartition)
      (parts : List SecretPartition) (s s' later : InMemoryKeyStore) (sealed : List Sealed)
      (dek other : KeyMaterial)
      → object_get "encrypted_partitions" inner ≡ none
      → object_get "subjects" inner ≡ none
      → SealedParts p enc codec (whole event inner) (part ∷ parts) s sealed s'
      → get_key part.subject_id s' ≡ some dek
      → get_key part.subject_id later ≡ some other
      → length other.key ≡ 32
      → other.key ≢ dek.key
      → decrypt_events p enc codec in_memory later (whole event (add_envelope sealed inner) ∷ [])
        ≡ fails
  unfolding decrypt_events fetch_all decrypt_all
  decrypt_events-fails event inner part parts s s' later sealed dek other e sub done found now o
        ne =
      let (cache, ran, got) =
        fetch_parts-Fetches p enc codec later (map (λ (x : Sealed). x.part) sealed)
          (subjects (part ∷ parts)) [] done.subjects_known (λ u. inl (get-nil u)) in
      let first =
        done.first_fails cache (object (entry event.event_type (object inner) end)) dek other
          rejects found (ap cached_of got.subjects_fetched.0 ∙ now) o ne in
      rw
        (
          envelope_of-whole p enc codec event sealed inner,
          ran,
          decrypt_parts-sealed p enc codec cache event inner sealed fails e sub first,
        )
        refl

  module _ (draw : ℕ → Draw) (opens : GcmOpens p) (decodes : Decodes enc)
      (draws_sized : DrawsSized draw) (event extracted : SerializedEvent) (inner : Object)
      (part : SecretPartition) (parts : List SecretPartition)
      (taken : codec.extract_partitions event ≡ ok (whole extracted inner, part ∷ parts))
      (no_partitions : object_get "encrypted_partitions" inner ≡ none)
      (no_subjects : object_get "subjects" inner ≡ none) where
    -- The store after the erasure of the event's first subject and a new key for it.
    abbrev pub recreated : KeyMaterial → InMemoryKeyStore → InMemoryKeyStore
    recreated other s = (get_or_create_key other part.subject_id (delete_key part.subject_id s)).1

    -- For an event from which the codec takes partitions, written with the in-memory store, if
    -- AES-GCM opens what it seals and does not open it under another key: after the first
    -- partition's subject was erased and given another key, `decrypt_events` on the written event
    -- fails with `decryption_failed`, instead of redacting the partition.
    pub decrypt_events-recreated :
        (n : ℕ) (other dek : KeyMaterial) (s : InMemoryKeyStore)
        → StoreSized s
        → get_key part.subject_id (written_store p enc codec draw event n s) ≡ some dek
        → length other.key ≡ 32
        → other.key ≢ dek.key
        → ReadsAs p enc codec draw event n s
            (recreated other (written_store p enc codec draw event n s))
            fails
    decrypt_events-recreated n other dek s h found o ne =
        let (sealed, s', ran, done) =
          encrypt_event-sealed p enc codec draw n event extracted inner part parts s opens decodes
            draws_sized h taken in
        let now =
          get_key-delete_key other part.subject_id (written_store p enc codec draw event n s) in
        (
          whole extracted (add_envelope sealed inner),
          ap (λ r. r.0) ran,
          decrypt_events-fails extracted inner part parts s s'
              (recreated other (written_store p enc codec draw event n s)) sealed dek other
              no_partitions no_subjects done
              (subst (λ r. get_key part.subject_id r.1 ≡ some dek) ran found) now o ne,
        )
