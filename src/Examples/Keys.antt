-- ===== src/Examples/Keys.antt =====
-- The theorems on ciphers, key versions and the key store at concrete inputs.
use journey_dynamics.Base.{
  some, [], ◌∷◌, length, ok, err, ◌≡◌, ◌≢◌, refl, arith, text_ord, nat_ord, ◌<◌,
}
use journey_dynamics.Base.BTreeMap.{get, insert}
use journey_dynamics.Base.Text.{strip_prefix}
use journey_dynamics.Crypto.Primitives.{panic, error, zeros}
use journey_dynamics.Crypto.Cipher.{KeyMaterial}
use journey_dynamics.Crypto.Kek.{
  WrappedDek, KekHandle, unknown_version, KekProvider, StaticKekProvider, Environment,
  new as new_static, read_kek, version_of, add_var, read_vars, from_env, current, by_id, wrap,
  unwrap, static_provider,
}
use journey_dynamics.Crypto.Kek.Rotation.{unwrap-wrap, from_env_lem}
use journey_dynamics.Crypto.KeyStore.{
  InMemoryKeyStore, get_or_create_key, rewrap_key, stale_after, in_memory,
}
use journey_dynamics.Crypto.KeyStore.Shredding.{
  Sets, Rewrapped, get_or_create_key_lem, rewrap_key-Rewrapped,
}
use journey_dynamics.Crypto.Rewrap.{run_once}
use journey_dynamics.Crypto.Rewrap.Batch.{stale, IsSweepable, Next}
use journey_dynamics.Crypto.Rewrap.Sweep.{run_once_lem}
use journey_dynamics.Examples.Fixtures.{clear, clear-KwpUnwraps}

abbrev dek : KeyMaterial
dek = record { key_id = 1; key = zeros 32 }

abbrev other_dek : KeyMaterial
other_dek = record { key_id = 2; key = zeros 32 }

-- The versions before, during and after a rotation from v1 to v2.
abbrev before : StaticKekProvider
before = record { primary = "v1"; keks = ("v1", zeros 32) ∷ [] }

abbrev during : StaticKekProvider
during = record { primary = "v2"; keks = ("v1", zeros 32) ∷ ("v2", zeros 32) ∷ [] }

abbrev after : StaticKekProvider
after = record { primary = "v2"; keks = ("v2", zeros 32) ∷ [] }

unwrap-wrap_example :
    (wrapped : WrappedDek) × (wrap clear before (record { id = "v1" }) dek ≡ ok wrapped)
    × (wrapped.key_id ≡ 1)
    × (wrapped.kek_id ≡ "v1")
    × (unwrap clear during wrapped ≡ ok dek)
    × (unwrap clear after wrapped ≡ err (error (unknown_version "v1")))
unfolding get
unwrap-wrap_example =
    unwrap-wrap clear before during after (record { id = "v1" }) dek (zeros 32) clear-KwpUnwraps
      refl refl refl refl refl

abbrev env : Environment
env = record {
  vars = ("KEK_PRIMARY", "v1") ∷ ("KEK_v1", "text") ∷ ("PATH", "/bin") ∷ [];
  decode = λ s. ok (zeros 32);
}

env_read : from_env env "KEK" ≡ ok before
unfolding from_env new_static read_kek version_of add_var read_vars strip_prefix get insert
env_read = refl

from_env_lem_example :
    ((kek : KekHandle) (d : KeyMaterial) → wrap clear before kek d ≢ err panic)
    × ((wrapped : WrappedDek) → unwrap clear before wrapped ≢ err panic)
    × (by_id before "v1" ≡ some (record { id = "v1" }))
from_env_lem_example = from_env_lem clear env "KEK" env_read

abbrev provider : KekProvider
provider = static_provider clear during

-- Three subjects, two of them stale.
abbrev store : InMemoryKeyStore
store = record {
  store =
      (4, record { key_id = 40; key = zeros 32; kek_id = "v1" })
      ∷ (5, record { key_id = 50; key = zeros 32; kek_id = "v2" })
      ∷ (6, record { key_id = 60; key = zeros 32; kek_id = "v1" })
      ∷ [];
  provider = some provider;
}

get_or_create_key_lem_example :
    Sets 9 (some (get_or_create_key dek 9 store).0) store (get_or_create_key dek 9 store).1
    × (get_or_create_key other_dek 9 (get_or_create_key dek 9 store).1
        ≡ get_or_create_key dek 9 store)
get_or_create_key_lem_example = get_or_create_key_lem dek other_dek 9 store

rewrap_key-Rewrapped_example : Rewrapped provider.current.id 4 store (rewrap_key 4 store)
rewrap_key-Rewrapped_example = rewrap_key-Rewrapped provider 4 store refl

sweepable : IsSweepable provider store
sweepable = record { has_provider = refl; ordered = ((refl, (refl, tt)), ((refl, tt), (tt, tt))) }

stale_few : length (stale provider store) < 3
unfolding stale_after static_provider current
stale_few = omega arith

run_once_lem_example :
    (s' : InMemoryKeyStore) × (run_once in_memory 3 provider 1 store
      ≡ some (
          ok (
            record {
              scanned = length (stale provider store);
              rewrapped = length (stale provider store);
              failures = 0;
            },
            s',
          )))
    × Next provider store s' []
run_once_lem_example = run_once_lem provider 3 1 store sweepable (omega arith) stale_few
