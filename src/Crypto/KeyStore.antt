-- ===== src/Crypto/KeyStore.antt =====
-- crates/cqrs-es-crypto/src/key_store.rs: `InMemoryKeyStore`. The lock is held by one operation at
-- a time and is never poisoned; a random key is an argument.
pub mod Holding
pub mod Shredding
pub mod Stale
use journey_dynamics.Base.{
  ℕ, String, Bool, true, false, not, ◌&&◌, Option, none, some, List, [], ◌∷◌, take, ltb, Result, ok,
  nat_ord, str_eq, if◌then◌else◌,
}
use journey_dynamics.Base.BTreeMap.{BTreeMap, get, insert, remove}
use journey_dynamics.Json.{Uuid}
use journey_dynamics.Crypto.Primitives.{Bytes, Failure}
use journey_dynamics.Crypto.Cipher.{KeyMaterial}
use journey_dynamics.Crypto.Kek.{KekError, KekProvider}

pub data KeyStoreError : Type 0 where
  kek_error : Failure KekError → KeyStoreError
  database : String → KeyStoreError
  lock_poisoned : KeyStoreError

-- `trait KeyStore`, on a store `S`.
pub record KeyStore (S : Type 0) : Type 0 where
  pub get_or_create_key : KeyMaterial → Uuid → S → Result KeyStoreError KeyMaterial × S
  pub get_key : Uuid → S → Result KeyStoreError (Option KeyMaterial)
  pub delete_key : Uuid → S → Result KeyStoreError (Unit {0}) × S
  pub list_stale_subjects : String → ℕ → Option Uuid → S → Result KeyStoreError (List Uuid)
  pub rewrap_key : Uuid → S → Result KeyStoreError Bool × S

pub record KeyEntry : Type 0 where
  pub key_id : Uuid
  pub key : Bytes
  pub kek_id : String

abbrev pub KeyMap : Type 0
KeyMap = BTreeMap Uuid KeyEntry

pub record InMemoryKeyStore : Type 0 where
  pub store : KeyMap
  pub provider : Option KekProvider

unfoldable pub new : InMemoryKeyStore
new = record { store = []; provider = none }

unfoldable pub new_with_provider : KekProvider → InMemoryKeyStore
new_with_provider provider = record { store = []; provider = some provider }

-- The tag of a new key.
abbrev pub current_kek_id : Option KekProvider → String
current_kek_id none = "memory:v0"
current_kek_id (some provider) = provider.current.id

abbrev pub material : KeyEntry → KeyMaterial
material entry = record { key_id = entry.key_id; key = entry.key }

abbrev pub fresh_entry : Option KekProvider → KeyMaterial → KeyEntry
fresh_entry provider fresh = record {
  key_id = fresh.key_id;
  key = fresh.key;
  kek_id = current_kek_id provider;
}

-- `get_or_create_key`, on what the map holds for the subject.
abbrev pub get_or_create :
    KeyMaterial → Uuid → InMemoryKeyStore → Option KeyEntry → KeyMaterial × InMemoryKeyStore
get_or_create fresh subject_id s (some entry) = (material entry, s)
get_or_create fresh subject_id s none =
    (fresh, record s { store = insert subject_id (fresh_entry s.provider fresh) s.store })

unfoldable pub get_or_create_key :
    KeyMaterial → Uuid → InMemoryKeyStore → KeyMaterial × InMemoryKeyStore
get_or_create_key fresh subject_id s = get_or_create fresh subject_id s (get subject_id s.store)

abbrev pub map_material : Option KeyEntry → Option KeyMaterial
map_material none = none
map_material (some entry) = some (material entry)

unfoldable pub get_key : Uuid → InMemoryKeyStore → Option KeyMaterial
get_key subject_id s = map_material (get subject_id s.store)

unfoldable pub delete_key : Uuid → InMemoryKeyStore → InMemoryKeyStore
delete_key subject_id s = record s { store = remove subject_id s.store }

-- `after.is_none_or(|cursor| id > cursor)`
abbrev pub is_past : Option Uuid → Uuid → Bool
is_past none id = true
is_past (some cursor) id = ltb cursor id

-- The two filters over the map's entries.
unfoldable pub stale_after : String → Option Uuid → KeyMap → List Uuid
stale_after current_kek_id after [] = []
stale_after current_kek_id after ((id, e) ∷ store) =
    let rest = stale_after current_kek_id after store in
    if not (str_eq e.kek_id current_kek_id) && is_past after id then id ∷ rest else rest

-- `sort_unstable`
unfoldable pub insert_sorted : Uuid → List Uuid → List Uuid
insert_sorted u [] = u ∷ []
insert_sorted u (v ∷ vs) = let rest = insert_sorted u vs in if ltb v u then v ∷ rest else u ∷ v ∷ vs

unfoldable pub sort : List Uuid → List Uuid
unfolding insert_sorted
sort [] = []
sort (u ∷ us) = insert_sorted u (sort us)

unfoldable pub list_stale_subjects : String → ℕ → Option Uuid → InMemoryKeyStore → List Uuid
unfolding stale_after sort
list_stale_subjects current_kek_id batch_size after s =
    take batch_size (sort (stale_after current_kek_id after s.store))

-- `rewrap_key`, on the provider and on what the map holds for the subject.
abbrev pub retag : Uuid → String → InMemoryKeyStore → Option KeyEntry → Bool × InMemoryKeyStore
retag subject_id current_id s none = (false, s)
retag subject_id current_id s (some entry) =
    (true, record s { store = insert subject_id (record entry { kek_id = current_id }) s.store })

abbrev pub rewrap_with : Option KekProvider → Uuid → InMemoryKeyStore → Bool × InMemoryKeyStore
rewrap_with none subject_id s = (false, s)
rewrap_with (some provider) subject_id s =
    retag subject_id provider.current.id s (get subject_id s.store)

unfoldable pub rewrap_key : Uuid → InMemoryKeyStore → Bool × InMemoryKeyStore
rewrap_key subject_id s = rewrap_with s.provider subject_id s

-- `impl KeyStore for InMemoryKeyStore`: no operation fails.
unfoldable pub in_memory : KeyStore InMemoryKeyStore
in_memory = record {
  get_or_create_key =
      λ fresh subject_id s. let (key, s') = get_or_create_key fresh subject_id s in (ok key, s');
  get_key = λ subject_id s. ok (get_key subject_id s);
  delete_key = λ subject_id s. (ok tt, delete_key subject_id s);
  list_stale_subjects = λ current_kek_id batch_size after s.
      ok (list_stale_subjects current_kek_id batch_size after s);
  rewrap_key = λ subject_id s. (ok (rewrap_key subject_id s).0, (rewrap_key subject_id s).1);
}
