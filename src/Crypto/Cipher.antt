-- ===== src/Crypto/Cipher.antt =====
-- crates/cqrs-es-crypto/src/cipher.rs: `FieldCipher`, and the types of the deprecated
-- `PiiCipher`. Random bytes
-- are arguments: the key and its id in `generate_dek`, the nonce in `encrypt`.
pub mod RoundTrip
use journey_dynamics.Base.{
  ℕ, ◌-◌, String, Bool, Option, none, some, List, length, Result, ok, err, ◌>>=◌, map_err, ◌==◌,
  if◌then◌else◌,
}
use journey_dynamics.Json.{Uuid}
use journey_dynamics.Crypto.Primitives.{Bytes, Failure, panic, error, expect, zeros, Primitives}

pub record KeyMaterial : Type 0 where
  pub key_id : Uuid
  pub key : Bytes

pub record EncryptedPayload : Type 0 where
  pub ciphertext : Bytes
  pub nonce : Bytes

pub data CryptoError : Type 0 where
  decryption_failed key_unwrap_failed : CryptoError
  invalid_kek_length : ℕ → CryptoError

-- `Aes256Gcm::new_from_slice(key)` and `KwpAes256::new_from_slice(key)`, for their length test.
abbrev pub new_from_slice : Bytes → Option Bytes
new_from_slice key = if length key == 32 then some key else none

-- `Nonce::from_slice`, which panics on another length than 12.
abbrev pub nonce_from_slice : Bytes → Option Bytes
nonce_from_slice nonce = if length nonce == 12 then some nonce else none

-- The errors that a decryption returns.
abbrev pub or_error {ℓ κ} : {E : Type κ} {A : Type ℓ} → E → Option A → Result (Failure E) A
or_error e none = err (error e)
or_error e (some a) = ok a

-- `generate_dek` of both ciphers.
abbrev pub generate_dek : Uuid → Bytes → KeyMaterial
generate_dek key_id key = record { key_id = key_id; key = key }

module _ (p : Primitives) where
  unfoldable pub encrypt :
      Bytes → KeyMaterial → Bytes → Bytes → Result (Failure CryptoError) EncryptedPayload
  encrypt nonce dek plaintext aad = do
    cipher ← expect (new_from_slice dek.key)
    ciphertext ← expect (p.gcm_encrypt cipher nonce plaintext aad)
    ok (record { ciphertext = ciphertext; nonce = nonce })

  unfoldable pub decrypt :
      KeyMaterial → EncryptedPayload → Bytes → Result (Failure CryptoError) Bytes
  decrypt dek encrypted aad = do
    cipher ← expect (new_from_slice dek.key)
    nonce ← expect (nonce_from_slice encrypted.nonce)
    or_error decryption_failed (p.gcm_decrypt cipher nonce encrypted.ciphertext aad)
