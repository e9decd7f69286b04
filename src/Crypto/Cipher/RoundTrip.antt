-- ===== src/Crypto/Cipher/RoundTrip.antt =====
-- Round trips of the field cipher and of the deprecated cipher's key wrapping.
use journey_dynamics.Base.{length, Option-cases, inl, inr, ok, err, ◌≡◌, ◌≢◌, arith}
use journey_dynamics.Crypto.Primitives.{Bytes, error, Primitives, GcmOpens, GcmRejects}
use journey_dynamics.Crypto.Cipher.{
  KeyMaterial, EncryptedPayload, decryption_failed, encrypt, decrypt,
}

module _ (p : Primitives) where
  -- With a key of 32 bytes and a nonce of 12, `encrypt` does not panic and `decrypt`, with the
  -- same key and associated data, gives the plaintext back, if AES-GCM opens what it seals.
  pub decrypt-encrypt :
      (nonce : Bytes) (dek : KeyMaterial) (plaintext aad : Bytes)
      → GcmOpens p
      → length nonce ≡ 12
      → length dek.key ≡ 32
      → (payload : EncryptedPayload) × (encrypt p nonce dek plaintext aad ≡ ok payload)
        × (decrypt p dek payload aad ≡ ok plaintext)
  unfolding encrypt decrypt
  decrypt-encrypt nonce dek plaintext aad opens n k =
      let (sealed, seal, unseal) = opens dek.key nonce plaintext aad k in
      (record { ciphertext = sealed; nonce = nonce }, ground arith, ground arith)

  -- Under another key of 32 bytes the payload does not open, if AES-GCM authenticates.
  pub decrypt_other_key :
      (nonce : Bytes) (dek other : KeyMaterial) (plaintext aad : Bytes) (payload : EncryptedPayload)
      → GcmRejects p
      → length nonce ≡ 12
      → length dek.key ≡ 32
      → length other.key ≡ 32
      → other.key ≢ dek.key
      → encrypt p nonce dek plaintext aad ≡ ok payload
      → decrypt p other payload aad ≡ err (error decryption_failed)
  unfolding encrypt decrypt
  decrypt_other_key nonce dek other plaintext aad payload rejects n k o ne e =
      elim (Option-cases (p.gcm_encrypt dek.key nonce plaintext aad)) [
        | inl fails ↦ absurd (ground arith)
        | inr (sealed, seals) ↦
            let closed = rejects dek.key other.key nonce plaintext aad sealed k o ne seals in
            ground arith
      ]
