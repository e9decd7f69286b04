-- ===== src/Crypto/Primitives.antt =====
-- What the ciphers call: the crates `aes_gcm` and `aes_kw`, as parameters, and the way in which
-- their callers panic.
use journey_dynamics.Base.{
  ℕ, zero, suc, String, Option, none, some, List, [], ◌∷◌, length, Result, ok, err, ◌≡◌, ◌≢◌,
}

abbrev pub Bytes : Type 0
Bytes = List ℕ

-- A run that may panic, or end with an error of its own.
pub data Failure {ℓ} (E : Type ℓ) : Type ℓ where
  panic : Failure E
  error : E → Failure E

-- `result.expect(…)`, `option.expect(…)`
abbrev pub expect {ℓ κ} : {E : Type κ} {A : Type ℓ} → Option A → Result (Failure E) A
expect none = err panic
expect (some a) = ok a

-- `vec![0u8; n]`
abbrev pub zeros : ℕ → Bytes
zeros zero = []
zeros (suc n) = 0 ∷ zeros n

-- The calls on a key that `new_from_slice` accepts, which is a key of 32 bytes.
pub record Primitives : Type 0 where
  -- `Aes256Gcm::encrypt(nonce, Payload { msg, aad })`, on key, nonce, message, associated data
  pub gcm_encrypt : Bytes → Bytes → Bytes → Bytes → Option Bytes
  -- `Aes256Gcm::decrypt`: `none` where the tag does not fit
  pub gcm_decrypt : Bytes → Bytes → Bytes → Bytes → Option Bytes
  -- `KwpAes256::wrap_key(data, buf)`: the buffer afterwards, or the error's message
  pub wrap_key : Bytes → Bytes → Bytes → Result String Bytes
  -- `KwpAes256::unwrap_key(data, buf)`
  pub unwrap_key : Bytes → Bytes → Bytes → Result String Bytes

-- AES-256-GCM opens what it has sealed, under the same key, nonce and associated data.
abbrev pub GcmOpens : Primitives → Type 0
GcmOpens p =
    (key nonce msg aad : Bytes)
    → length key ≡ 32
    → (sealed : Bytes) × (p.gcm_encrypt key nonce msg aad ≡ some sealed)
      × (p.gcm_decrypt key nonce sealed aad ≡ some msg)

-- AES-256-GCM authenticates: what is sealed under one key does not open under another.
abbrev pub GcmRejects : Primitives → Type 0
GcmRejects p =
    (key other nonce msg aad sealed : Bytes)
    → length key ≡ 32
    → length other ≡ 32
    → other ≢ key
    → p.gcm_encrypt key nonce msg aad ≡ some sealed
    → p.gcm_decrypt other nonce sealed aad ≡ none

-- AES-256-KWP (RFC 5649): a key of 32 bytes takes 40 bytes wrapped, and unwraps to itself under
-- the same key encryption key.
abbrev pub KwpUnwraps : Primitives → Type 0
KwpUnwraps p =
    (kek key : Bytes)
    → length kek ≡ 32
    → length key ≡ 32
    → (wrapped : Bytes) × (p.wrap_key kek key (zeros 40) ≡ ok wrapped)
      × (length wrapped ≡ 40)
      × (p.unwrap_key kek wrapped (zeros 32) ≡ ok key)
