-- ===== src/Crypto/Reading/RoundTrip/Parts.antt =====
-- The partitions of an event, sealed under keys of the in-memory store and opened with a cache.
use journey_dynamics.Base.{
  ℕ, suc, String, Option, none, some, List, [], ◌∷◌, All, map, length, ok, err, ◌≢◌, nat_ord,
  text_ord, ◌≡◌, ◌⊎◌, inl, inr, refl, sym, ap, subst, ◌∙◌,
}
use journey_dynamics.Base.Partial.{some-eq-some}
use journey_dynamics.Base.BTreeMap.{get}
use journey_dynamics.Json.{Uuid, Value}
use journey_dynamics.Json.Map.{object_get, object_insert, index}
use journey_dynamics.Crypto.Primitives.{Bytes, error, Primitives, GcmOpens, GcmRejects}
use journey_dynamics.Crypto.Cipher.{KeyMaterial, decryption_failed}
use journey_dynamics.Crypto.Cipher.RoundTrip.{decrypt-encrypt, decrypt_other_key}
use journey_dynamics.Crypto.KeyStore.{InMemoryKeyStore, get_key, get_or_create_key, in_memory}
use journey_dynamics.Crypto.KeyStore.Holding.{StoreSized, Kept, HasKey, get_or_create-Created}
use journey_dynamics.Crypto.Events.{
  SerializedEvent, SecretPartition, DecryptedPartition, crypto_error, PiiEventCodec, Encodings,
}
use journey_dynamics.Crypto.Envelope.{partition_aad, part_json, Persisted, Sealed}
use journey_dynamics.Crypto.Writing.{Draw, seal, encrypt_parts}
use journey_dynamics.Crypto.Reading.{
  DekCache, cached, Opened, decrypted, redacted, sort_opened, subject_of, open_part, open_parts,
}

-- UUIDs are read as they are printed, and base64 is decoded as it is encoded.
abbrev pub Decodes : Encodings → Type 0
Decodes enc =
    ((u : Uuid) → enc.parse_uuid (enc.uuid_to_string u) ≡ some u)
    × ((bytes : Bytes) → enc.decode (enc.encode bytes) ≡ ok bytes)

-- What becomes of a partition whose subject has this key.
abbrev pub outcome : Option KeyMaterial → SecretPartition → Opened
outcome none part = redacted part.label
outcome (some dek) part =
    decrypted (record { subject_id = part.subject_id; label = part.label; payload = part.payload })

-- The decrypted partitions, and the labels of the redacted ones.
abbrev pub outcomes :
    (Uuid → Option KeyMaterial) → List SecretPartition → List DecryptedPartition × List String
outcomes key [] = ([], [])
outcomes key (part ∷ parts) = sort_opened (outcome (key part.subject_id) part) (outcomes key parts)

abbrev pub subjects : List SecretPartition → List Uuid
subjects [] = []
subjects (part ∷ parts) = part.subject_id ∷ subjects parts

-- The subject's key in the cache is the store's; a key that has been deleted since may be missing.
abbrev pub Agrees : DekCache → InMemoryKeyStore → Uuid → Type 0
Agrees cache s u = (cached cache u ≡ none) ⊎ (cached cache u ≡ get_key u s)

-- The error of a partition that does not open.
abbrev pub fails {ℓ} : {A : Type ℓ} → Persisted A
fails = err (error (crypto_error decryption_failed))

-- Fresh keys of 32 bytes and nonces of 12.
abbrev pub DrawsSized : (ℕ → Draw) → Type 0
DrawsSized draw = (n : ℕ) → (length (draw n).key.key ≡ 32) × (length (draw n).nonce ≡ 12)

module _ (p : Primitives) (enc : Encodings) (codec : PiiEventCodec) where
  -- A sealed partition, by what it opens to with no key and with its key.
  record Opens (event : SerializedEvent) (part : SecretPartition) (dek : KeyMaterial)
      (sealed : Sealed) : Type 0 where
    pub subject : subject_of p enc codec sealed.part ≡ some part.subject_id
    pub without :
        (cache : DekCache) (v : Value)
        → cached cache part.subject_id ≡ none
        → open_part p enc codec cache (record event { payload = v }) sealed.part
          ≡ ok (redacted part.label)
    pub with_key :
        (cache : DekCache) (v : Value)
        → cached cache part.subject_id ≡ some dek
        → open_part p enc codec cache (record event { payload = v }) sealed.part
          ≡ ok (outcome (some dek) part)
    pub with_other :
        (cache : DekCache) (v : Value) (other : KeyMaterial)
        → GcmRejects p
        → cached cache part.subject_id ≡ some other
        → length other.key ≡ 32
        → other.key ≢ dek.key
        → open_part p enc codec cache (record event { payload = v }) sealed.part ≡ fails

  seal-Opens :
      (event : SerializedEvent) (part : SecretPartition) (nonce : Bytes) (dek : KeyMaterial)
      → GcmOpens p
      → Decodes enc
      → length nonce ≡ 12
      → length dek.key ≡ 32
      → (sealed : Sealed) × (seal p enc codec event part nonce dek ≡ ok sealed)
        × Opens event part dek sealed
  unfolding seal open_part subject_of partition_aad index object_get object_insert
  seal-Opens event part nonce dek opens (uuids, bytes) n k =
      let aad = partition_aad enc event part.subject_id part.label in
      let (payload, sealed, opened) = decrypt-encrypt p nonce dek part.payload aad opens n k in
      (
        record {
          subject = enc.uuid_to_string part.subject_id;
          part = part_json enc part.subject_id part.label payload;
        },
        rw sealed refl,
        record {
          subject = uuids part.subject_id;
          without = λ cache v h.
              rw (uuids part.subject_id, bytes payload.nonce, bytes payload.ciphertext, h) refl;
          with_key = λ cache v h.
              rw (uuids part.subject_id, bytes payload.nonce, bytes payload.ciphertext, h, opened)
                refl;
          with_other = λ cache v other rejects h o ne.
              rw
                (
                  uuids part.subject_id,
                  bytes payload.nonce,
                  bytes payload.ciphertext,
                  h,
                  decrypt_other_key p nonce dek other part.payload aad payload rejects n k o ne
                      sealed,
                )
                refl;
        },
      )

  -- The first partition fails under another key than the one in this store.
  abbrev FirstFails :
      SerializedEvent → List SecretPartition → List Sealed → InMemoryKeyStore → Type 0
  FirstFails event [] sealed s = Unit
  FirstFails event (part ∷ parts) sealed s =
      (cache : DekCache) (v : Value) (dek other : KeyMaterial)
      → GcmRejects p
      → get_key part.subject_id s ≡ some dek
      → cached cache part.subject_id ≡ some other
      → length other.key ≡ 32
      → other.key ≢ dek.key
      → open_parts p enc codec cache (record event { payload = v })
          (map (λ (x : Sealed). x.part) sealed)
        ≡ fails

  -- What the loop over the partitions has done.
  pub record SealedParts (event : SerializedEvent) (parts : List SecretPartition)
      (s : InMemoryKeyStore) (sealed : List Sealed) (s' : InMemoryKeyStore) : Type 0 where
    pub kept : Kept s s'
    pub store_sized : StoreSized s'
    pub subjects_known :
        map (subject_of p enc codec) (map (λ (x : Sealed). x.part) sealed)
        ≡ map some (subjects parts)
    pub keys_found : All (HasKey s') (subjects parts)
    pub opens :
        (cache : DekCache) (v : Value)
        → All (Agrees cache s') (subjects parts)
        → open_parts p enc codec cache
            (record event { payload = v })
            (map (λ (x : Sealed). x.part) sealed)
          ≡ ok (outcomes (cached cache) parts)
    pub first_fails : FirstFails event parts sealed s'

  -- A sealed partition under any cache that agrees with a store that has its key.
  open_part-Opens :
      (event : SerializedEvent) (part : SecretPartition) (dek : KeyMaterial) (sealed : Sealed)
      (s : InMemoryKeyStore) (cache : DekCache) (v : Value)
      → Opens event part dek sealed
      → get_key part.subject_id s ≡ some dek
      → Agrees cache s part.subject_id
      → open_part p enc codec cache (record event { payload = v }) sealed.part
        ≡ ok (outcome (cached cache part.subject_id) part)
  open_part-Opens event part dek sealed s cache v h found agrees = elim agrees [
    | inl gone ↦ h.without cache v gone ∙ ap (λ o. ok (outcome o part)) (sym gone)
    | inr there ↦
        h.with_key cache v (there ∙ found) ∙ ap (λ o. ok (outcome o part)) (sym (there ∙ found))
  ]

  pub encrypt_parts-SealedParts :
      (draw : ℕ → Draw) (event : SerializedEvent) (n : ℕ) (parts : List SecretPartition)
      (s : InMemoryKeyStore)
      → GcmOpens p
      → Decodes enc
      → DrawsSized draw
      → StoreSized s
      → (sealed : List Sealed) × (s' : InMemoryKeyStore) × (encrypt_parts p enc codec in_memory draw
            event n parts s
          ≡ (ok sealed, s'))
        × SealedParts event parts s sealed s'
  unfolding encrypt_parts open_parts in_memory get_or_create_key
  encrypt_parts-SealedParts draw event n [] s opens decodes sized h = (
    [],
    s,
    refl,
    record {
      kept = λ u k e. e;
      store_sized = h;
      subjects_known = refl;
      keys_found = tt;
      opens = λ cache v a. refl;
      first_fails = tt;
    },
  )
  encrypt_parts-SealedParts draw event n (part ∷ parts) s opens decodes sized h =
      let made =
        get_or_create-Created (draw n).key part.subject_id s (get part.subject_id s.store) refl
          (sized n).0 h in
      let dek = (get_or_create_key (draw n).key part.subject_id s).0 in
      let s₁ = (get_or_create_key (draw n).key part.subject_id s).1 in
      let (first, seals, first_opens) =
        seal-Opens event part (draw n).nonce dek opens decodes (sized n).1 made.sized in
      let (rest, s', ran, later) =
        encrypt_parts-SealedParts draw event (suc n) parts s₁ opens decodes sized
          made.store_sized in
      (
        first ∷ rest,
        s',
        rw (seals, ran) refl,
        record {
          kept = λ u k e. later.kept u k (made.kept u k e);
          store_sized = later.store_sized;
          subjects_known = rw (first_opens.subject, later.subjects_known) refl;
          keys_found = ((dek, later.kept part.subject_id dek made.found), later.keys_found);
          opens = λ cache v agrees.
              rw
                (
                  open_part-Opens event part dek first s' cache v first_opens
                      (later.kept part.subject_id dek made.found) agrees.0,
                  later.opens cache v agrees.1,
                )
                refl;
          first_fails = λ cache v dek' other rejects found h o ne.
              let same = some-eq-some (sym found ∙ later.kept part.subject_id dek made.found) in
              let differs = subst (λ (k : KeyMaterial). other.key ≢ k.key) same ne in
              rw (first_opens.with_other cache v other rejects h o differs) refl;
        },
      )
