-- ===== src/Crypto/Writing.antt =====
-- crates/cqrs-es-crypto/src/repository.rs: `encrypt_events`, over any key store. A random draw is
-- an argument, by the number of its event and of its partition.
use journey_dynamics.Base.{ℕ, suc, List, [], ◌∷◌, ok, err, ◌>>=◌, text_ord, nat_ord}
use journey_dynamics.Crypto.Primitives.{Bytes, expect, Primitives}
use journey_dynamics.Crypto.Cipher.{KeyMaterial, encrypt}
use journey_dynamics.Crypto.KeyStore.{KeyStore}
use journey_dynamics.Crypto.Events.{
  SerializedEvent, SecretPartition, codec_error, key_store_error, crypto_error, PiiEventCodec,
  Encodings,
}
use journey_dynamics.Crypto.Envelope.{
  add_envelope, change_inner, partition_aad, part_json, Persisted, boxed, failed, Sealed,
}

-- `?` where a key store goes along.
module _ {S : Type 0} {A B : Type 0} where
  abbrev pub and_then : Persisted A × S → (A → S → Persisted B × S) → Persisted B × S
  and_then (ok a, s) f = f a s
  and_then (err e, s) f = (err e, s)

-- A fresh key and a fresh nonce.
pub record Draw : Type 0 where
  pub key : KeyMaterial
  pub nonce : Bytes

module _ (p : Primitives) (enc : Encodings) (codec : PiiEventCodec) where
  -- The part of the loop's body after the key.
  unfoldable pub seal : SerializedEvent → SecretPartition → Bytes → KeyMaterial → Persisted Sealed
  seal event part nonce dek = do
    encrypted ←
        boxed crypto_error
          (encrypt p nonce dek part.payload (partition_aad enc event part.subject_id part.label))
    ok (record {
      subject = enc.uuid_to_string part.subject_id;
      part = part_json enc part.subject_id part.label encrypted;
    })

  module _ {S : Type 0} (store : KeyStore S) (draw : ℕ → Draw) where
    -- The loop over the partitions of an event; `n` counts the draws.
    unfoldable pub encrypt_parts :
        SerializedEvent → ℕ → List SecretPartition → S → Persisted (List Sealed) × S
    encrypt_parts event n [] s = (ok [], s)
    encrypt_parts event n (part ∷ parts) s =
        let (key, s') = store.get_or_create_key (draw n).key part.subject_id s in
        and_then (failed key_store_error key, s')
          (λ dek s₁.
            and_then (seal event part (draw n).nonce dek, s₁)
              (λ sealed s₂.
                and_then (encrypt_parts event (suc n) parts s₂)
                  (λ rest s₃. (ok (sealed ∷ rest), s₃))))

    -- One event, on what the codec took out of it.
    abbrev pub encrypt_extracted :
        ℕ → SerializedEvent × List SecretPartition → S → Persisted SerializedEvent × S
    encrypt_extracted n (event, []) s = (ok event, s)
    encrypt_extracted n (event, part ∷ parts) s =
        and_then (encrypt_parts event n (part ∷ parts) s)
          (λ sealed s'. (expect (change_inner (add_envelope sealed) event), s'))

    unfoldable pub encrypt_event : ℕ → SerializedEvent → S → Persisted SerializedEvent × S
    unfolding encrypt_parts change_inner
    encrypt_event n event s =
        and_then (boxed codec_error (codec.extract_partitions event), s) (encrypt_extracted n)

  module _ {S : Type 0} (store : KeyStore S) (draws : ℕ → ℕ → Draw) where
    unfoldable pub encrypt_events :
        ℕ → List SerializedEvent → S → Persisted (List SerializedEvent) × S
    unfolding encrypt_event
    encrypt_events i [] s = (ok [], s)
    encrypt_events i (event ∷ events) s =
        and_then (encrypt_event store (draws i) 0 event s) (λ first s₁.
          and_then (encrypt_events (suc i) events s₁) (λ rest s₂. (ok (first ∷ rest), s₂)))
