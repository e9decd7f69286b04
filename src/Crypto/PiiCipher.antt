-- ===== src/Crypto/PiiCipher.antt =====
-- crates/cqrs-es-crypto/src/cipher.rs: the deprecated `PiiCipher`, by its key encryption key.
use journey_dynamics.Base.{◌-◌, length, Result, ok, err, ◌>>=◌, map_err, ◌==◌, if◌then◌else◌}
use journey_dynamics.Json.{Uuid}
use journey_dynamics.Crypto.Primitives.{Bytes, Failure, panic, error, expect, zeros, Primitives}
use journey_dynamics.Crypto.Cipher.{
  KeyMaterial, EncryptedPayload, CryptoError, decryption_failed, key_unwrap_failed,
  invalid_kek_length, new_from_slice, nonce_from_slice, or_error,
}

-- The cipher that `new` makes, by its key encryption key.
unfoldable pub new : Bytes → Result (Failure CryptoError) Bytes
new kek = if length kek == 32 then ok kek else err (error (invalid_kek_length (length kek)))

module _ (p : Primitives) where
  unfoldable pub encrypt :
      Bytes → KeyMaterial → Bytes → Bytes → Result (Failure CryptoError) EncryptedPayload
  encrypt nonce dek plaintext aad = do
    cipher ← expect (new_from_slice dek.key)
    ciphertext ← expect (p.gcm_encrypt cipher nonce plaintext aad)
    ok (record { ciphertext = ciphertext; nonce = nonce })

  unfoldable pub decrypt :
      KeyMaterial → EncryptedPayload → Bytes → Result (Failure CryptoError) Bytes
  decrypt dek encrypted aad = do
    cipher ← expect (new_from_slice dek.key)
    nonce ← expect (nonce_from_slice encrypted.nonce)
    or_error decryption_failed (p.gcm_decrypt cipher nonce encrypted.ciphertext aad)

  unfoldable pub wrap_dek : Bytes → KeyMaterial → Result (Failure CryptoError) Bytes
  wrap_dek kek dek = do
    cipher ← expect (new_from_slice kek)
    map_err (λ _. panic) (p.wrap_key cipher dek.key (zeros 40))

  unfoldable pub unwrap_dek : Bytes → Uuid → Bytes → Result (Failure CryptoError) KeyMaterial
  unwrap_dek kek key_id wrapped_key = do
    cipher ← expect (new_from_slice kek)
    key ←
        map_err (λ _. error key_unwrap_failed)
          (p.unwrap_key cipher wrapped_key (zeros (length wrapped_key - 8)))
    ok (record { key_id = key_id; key = key })
