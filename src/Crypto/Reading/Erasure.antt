-- ===== src/Crypto/Reading/Erasure.antt =====
-- An event is written, keys are deleted, and the event is read with the keys that are left.
use journey_dynamics.Base.{
  ℕ, is_some, not, none, List, [], ◌∷◌, map, All, All_of_each, ok, nat_ord, ◌==◌, ◌≡◌, ◌⊎◌, inl,
  inr, refl, sym, ap, subst, ◌∙◌, Bool-cases,
}
use journey_dynamics.Base.BTreeMap.{get-nil}
use journey_dynamics.Json.{Uuid, Object, object, entry, end}
use journey_dynamics.Json.Map.{object_get}
use journey_dynamics.Crypto.Primitives.{Primitives, GcmOpens}
use journey_dynamics.Crypto.KeyStore.{InMemoryKeyStore, get_key, delete_key, in_memory}
use journey_dynamics.Crypto.KeyStore.Shredding.{delete_key_lem}
use journey_dynamics.Crypto.Events.{
  SerializedEvent, SecretPartition, DecryptedPartition, PiiEventCodec, Encodings,
}
use journey_dynamics.Crypto.Envelope.{Persisted, Sealed, add_envelope}
use journey_dynamics.Crypto.Writing.{Draw, encrypt_event}
use journey_dynamics.Crypto.Reading.{
  DekCache, cached, cached_of, put_back, decrypt_all, fetch_all, decrypt_events,
}
use journey_dynamics.Crypto.Reading.Fetch.{Fetched, IsFetched, fetch_parts-Fetches}
use journey_dynamics.Crypto.Reading.Restored.{one, restored, restored_same, one-put_back}
use journey_dynamics.Crypto.Reading.RoundTrip.{
  whole, envelope_of-whole, decrypt_parts-sealed, encrypt_event-sealed,
}
use journey_dynamics.Crypto.KeyStore.Holding.{StoreSized, HasKey}
use journey_dynamics.Crypto.Reading.RoundTrip.Parts.{
  Decodes, DrawsSized, Agrees, outcomes, subjects, SealedParts,
}

-- Every key of the later store is a key of the first.
abbrev pub OnlyDeleted : InMemoryKeyStore → InMemoryKeyStore → Type 0
OnlyDeleted s later = (u : Uuid) → (get_key u later ≡ none) ⊎ (get_key u later ≡ get_key u s)

Fetched-Agrees :
    (s later : InMemoryKeyStore) (cache : DekCache)
    → OnlyDeleted s later
    → Fetched later cache
    → (u : Uuid) → Agrees cache s u
Fetched-Agrees s later cache only h u = elim (h u) [
  | inl miss ↦ inl (ap cached_of miss)
  | inr found ↦ elim (only u) [
    | inl gone ↦ inl (ap cached_of found ∙ gone)
    | inr same ↦ inr (ap cached_of found ∙ same)
  ]
]

pub outcomes-fetched :
    (later : InMemoryKeyStore) (cache : DekCache) (parts : List SecretPartition)
    → All (IsFetched later cache) (subjects parts)
    → outcomes (cached cache) parts ≡ outcomes (λ u. get_key u later) parts
outcomes-fetched later cache [] h = refl
outcomes-fetched later cache (part ∷ parts) h =
    rw (h.0, outcomes-fetched later cache parts h.1) refl

-- The subjects that have a key after an erasure are all others.
is_some-delete_key :
    (u : Uuid) (s : InMemoryKeyStore) (parts : List SecretPartition)
    → All (HasKey s) (subjects parts)
    → All
        (λ (part : SecretPartition).
          is_some (get_key part.subject_id (delete_key u s)) ≡ not (part.subject_id == u))
        parts
is_some-delete_key u s [] h = tt
is_some-delete_key u s (part ∷ parts) h = (
  ap is_some (delete_key_lem u s part.subject_id) ∙ elim (Bool-cases (part.subject_id == u)) [
    | inl mine ↦ rw mine refl
    | inr other ↦ rw (other, h.0.1) refl
  ],
  is_some-delete_key u s parts h.1,
)

delete_key-OnlyDeleted : (u : Uuid) (s : InMemoryKeyStore) → OnlyDeleted s (delete_key u s)
delete_key-OnlyDeleted u s v = elim (Bool-cases (v == u)) [
  | inl mine ↦ inl (delete_key_lem u s v ∙ rw mine refl)
  | inr other ↦ inr (delete_key_lem u s v ∙ rw other refl)
]

module _ (p : Primitives) (enc : Encodings) (codec : PiiEventCodec) where
  -- Both passes over one written event.
  decrypt_events-sealed :
      (event : SerializedEvent) (inner : Object) (parts : List SecretPartition)
      (s s' later : InMemoryKeyStore) (sealed : List Sealed)
      → object_get "encrypted_partitions" inner ≡ none
      → object_get "subjects" inner ≡ none
      → SealedParts p enc codec (whole event inner) parts s sealed s'
      → OnlyDeleted s' later
      → decrypt_events p enc codec in_memory later (whole event (add_envelope sealed inner) ∷ [])
        ≡ one (put_back p enc codec (whole event inner) (outcomes (λ u. get_key u later) parts))
  unfolding decrypt_events fetch_all decrypt_all
  decrypt_events-sealed event inner parts s s' later sealed e sub done only =
      let (cache, ran, got) =
        fetch_parts-Fetches p enc codec later (map (λ (x : Sealed). x.part) sealed) (subjects parts)
          [] done.subjects_known (λ u. inl (get-nil u)) in
      let opened = done.opens cache (object (entry event.event_type (object inner) end)) (
        All_of_each (Agrees cache s') (Fetched-Agrees s' later cache only got.fetched)
          (subjects parts)) in
      rw
        (
          envelope_of-whole p enc codec event sealed inner,
          ran,
          decrypt_parts-sealed p enc codec cache event inner sealed
              (ok (outcomes (cached cache) parts)) e sub opened,
          outcomes-fetched later cache parts got.subjects_fetched,
        )
        refl

-- Every partition, decrypted.
abbrev pub all_decrypted : List SecretPartition → List DecryptedPartition
all_decrypted [] = []
all_decrypted (part ∷ parts) =
    record { subject_id = part.subject_id; label = part.label; payload = part.payload }
    ∷ all_decrypted parts

outcomes-all_decrypted :
    (s : InMemoryKeyStore) (parts : List SecretPartition)
    → All (HasKey s) (subjects parts)
    → outcomes (λ u. get_key u s) parts ≡ (all_decrypted parts, [])
outcomes-all_decrypted s [] h = refl
outcomes-all_decrypted s (part ∷ parts) h = rw (h.0.1, outcomes-all_decrypted s parts h.1) refl

module _ (p : Primitives) (enc : Encodings) (codec : PiiEventCodec) (draw : ℕ → Draw)
    (event : SerializedEvent) where
  abbrev pub written_store : ℕ → InMemoryKeyStore → InMemoryKeyStore
  written_store n s = (encrypt_event p enc codec in_memory draw n event s).1

  -- The event is written, and read with the keys of the later store it is this.
  abbrev pub ReadsAs :
      ℕ → InMemoryKeyStore → InMemoryKeyStore → Persisted (List SerializedEvent) → Type 0
  ReadsAs n s later result =
      (sealed : SerializedEvent) × ((encrypt_event p enc codec in_memory draw n event s).0
        ≡ ok sealed)
      × (decrypt_events p enc codec in_memory later (sealed ∷ []) ≡ result)

module _ (p : Primitives) (enc : Encodings) (codec : PiiEventCodec) (draw : ℕ → Draw)
    (opens : GcmOpens p) (decodes : Decodes enc) (draws_sized : DrawsSized draw)
    (event extracted : SerializedEvent) (inner : Object) (part : SecretPartition)
    (parts : List SecretPartition)
    (taken : codec.extract_partitions event ≡ ok (whole extracted inner, part ∷ parts))
    (no_partitions : object_get "encrypted_partitions" inner ≡ none)
    (no_subjects : object_get "subjects" inner ≡ none) where
  -- The read in terms of the outcomes of the partitions.
  encrypt_event-put_back :
      (n : ℕ) (s later : InMemoryKeyStore)
      → StoreSized s
      → OnlyDeleted (written_store p enc codec draw event n s) later
      → ReadsAs p enc codec draw event n s later (
          one (
            put_back p enc codec
              (whole extracted inner)
              (outcomes (λ u. get_key u later) (part ∷ parts))))
  encrypt_event-put_back n s later h only =
      let (sealed, s', written, done) =
        encrypt_event-sealed p enc codec draw n event extracted inner part parts s opens decodes
          draws_sized h taken in
      (
        whole extracted (add_envelope sealed inner),
        ap (λ r. r.0) written,
        decrypt_events-sealed p enc codec extracted inner (part ∷ parts) s s' later sealed
            no_partitions no_subjects done (subst (λ r. OnlyDeleted r.1 later) written only),
      )

  -- For an event from which the codec takes partitions and leaves, at the event's type, an object
  -- without the keys `encrypted_partitions` and `subjects`, written with the in-memory store, with
  -- keys of 32 bytes and nonces of 12, if AES-GCM opens what it seals and UUIDs and base64 are
  -- decoded as they are encoded: `encrypt_event` succeeds, and with any later store whose keys are
  -- keys of the store after the write, `decrypt_events` on the written event answers as the codec
  -- does: it reconstructs the event from what was left and the partitions of the subjects that
  -- still have a key, in their order and with their payloads, and if there are other partitions,
  -- the codec redacts their labels in the result; an error of the codec is the answer.
  pub decrypt_events-encrypt_event :
      (n : ℕ) (s later : InMemoryKeyStore)
      → StoreSized s
      → OnlyDeleted (written_store p enc codec draw event n s) later
      → ReadsAs p enc codec draw event n s later
          (restored codec (whole extracted inner) (λ u. is_some (get_key u later)) (part ∷ parts))
  decrypt_events-encrypt_event n s later h only =
      let (sealed, written, read) = encrypt_event-put_back n s later h only in
      (
        sealed,
        written,
        read
            ∙ one-put_back p enc codec (whole extracted inner) (λ u. get_key u later)
                (part ∷ parts),
      )

  keys_written :
      (n : ℕ) (s : InMemoryKeyStore)
      → StoreSized s
      → All (HasKey (written_store p enc codec draw event n s)) (subjects (part ∷ parts))
  keys_written n s h =
      let (sealed, s', written, done) =
        encrypt_event-sealed p enc codec draw n event extracted inner part parts s opens decodes
          draws_sized h taken in
      subst (λ r. All (HasKey r.1) (subjects (part ∷ parts))) (sym written) done.keys_found

  -- For an event from which the codec takes partitions and leaves, at the event's type, an object
  -- without the keys `encrypted_partitions` and `subjects`, written with the in-memory store, with
  -- keys of 32 bytes and nonces of 12, if AES-GCM opens what it seals and UUIDs and base64 are
  -- decoded as they are encoded: `encrypt_event` succeeds, and after `delete_key` of a subject
  -- `decrypt_events` on the written event answers as the codec does: it reconstructs the event
  -- from what was left and the partitions of all other subjects alone, in their order and with
  -- their payloads, and if the erased subject has partitions, the codec redacts their labels in
  -- the result; an error of the codec is the answer.
  pub decrypt_events-delete_key :
      (n : ℕ) (u : Uuid) (s : InMemoryKeyStore)
      → StoreSized s
      → ReadsAs p enc codec draw event n s
          (delete_key u (written_store p enc codec draw event n s))
          (restored codec (whole extracted inner) (λ v. not (v == u)) (part ∷ parts))
  decrypt_events-delete_key n u s h =
      let s' = written_store p enc codec draw event n s in
      let (sealed, written, read) =
        decrypt_events-encrypt_event n s (delete_key u s') h (delete_key-OnlyDeleted u s') in
      (
        sealed,
        written,
        read
            ∙ restored_same codec (whole extracted inner)
                (λ v. is_some (get_key v (delete_key u s'))) (λ v. not (v == u)) (part ∷ parts)
                (is_some-delete_key u s' (part ∷ parts) (keys_written n s h)),
      )

  -- For an event from which the codec takes partitions and leaves, at the event's type, an object
  -- without the keys `encrypted_partitions` and `subjects`, written with the in-memory store, with
  -- keys of 32 bytes and nonces of 12, if AES-GCM opens what it seals and UUIDs and base64 are
  -- decoded as they are encoded: `encrypt_event` succeeds, and `decrypt_events` on the written
  -- event, with no key deleted, returns the event, if the codec reconstructs the event from what
  -- it left and all partitions.
  pub decrypt_events_lem :
      (n : ℕ) (s : InMemoryKeyStore)
      → StoreSized s
      → codec.reconstruct (whole extracted inner) (all_decrypted (part ∷ parts)) ≡ ok event
      → ReadsAs p enc codec draw event n s
          (written_store p enc codec draw event n s)
          (ok (event ∷ []))
  unfolding put_back
  decrypt_events_lem n s h whole_again =
      let s' = written_store p enc codec draw event n s in
      let (sealed, written, read) = encrypt_event-put_back n s s' h (λ u. inr refl) in
      (
        sealed,
        written,
        read
            ∙ ap (λ o. one (put_back p enc codec (whole extracted inner) o))
                (outcomes-all_decrypted s' (part ∷ parts) (keys_written n s h))
            ∙ rw whole_again refl,
      )
