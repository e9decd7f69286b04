-- ===== src/Crypto/KeyStore/Shredding.antt =====
-- The life of a subject's key in the in-memory store: made once, kept by a re-wrap, gone after its
-- deletion.
use mathlib.Core.Option
use journey_dynamics.Base.{
  String, Bool, Option, none, some, nat_ord, is_some, subst, ◌≡◌, refl, sym, ap, inl, inr, arith,
  ◌==◌, if◌then◌else◌, key-cases,
}
use journey_dynamics.Base.BTreeMap.{
  get, remove, get-insert_self, get-insert_ne, get-remove_self, get-remove_ne,
}
use journey_dynamics.Json.{Uuid}
use journey_dynamics.Crypto.Cipher.{KeyMaterial}
use journey_dynamics.Crypto.Kek.{KekProvider}
use journey_dynamics.Crypto.KeyStore.{
  KeyEntry, InMemoryKeyStore, map_material, get_or_create, get_or_create_key, fresh_entry, get_key,
  delete_key, retag, rewrap_with, rewrap_key,
}

-- The keys that `get_key` finds are those of `s`, but for the subject's.
abbrev pub Sets : Uuid → Option KeyMaterial → InMemoryKeyStore → InMemoryKeyStore → Type 0
Sets u o s s' = (v : Uuid) → get_key v s' ≡ (if v == u then o else get_key v s)

created :
    (fresh : KeyMaterial) (u : Uuid) (s : InMemoryKeyStore) (o : Option KeyEntry)
    → get u s.store ≡ o
    → Sets u (some (get_or_create fresh u s o).0) s (get_or_create fresh u s o).1
unfolding get_key
created fresh u s (some entry) e v = elim (key-cases v u) [
  | inl same ↦ ground arith
  | inr other ↦ ground arith
]
created fresh u s none e v = elim (key-cases v u) [
  | inl same ↦ ground (arith, get-insert_self u (fresh_entry s.provider fresh) s.store)
  | inr other ↦ ground (arith, get-insert_ne v u (fresh_entry s.provider fresh) s.store other)
]

again_same :
    (fresh again : KeyMaterial) (u : Uuid) (s : InMemoryKeyStore) (o : Option KeyEntry)
    → get u s.store ≡ o
    → get_or_create again u
        (get_or_create fresh u s o).1
        (get u (get_or_create fresh u s o).1.store)
      ≡ get_or_create fresh u s o
again_same fresh again u s (some entry) e = rw e refl
again_same fresh again u s none e =
    rw (get-insert_self u (fresh_entry s.provider fresh) s.store) refl

-- `get_or_create_key` returns the key that `get_key` then finds, changes no other subject's key,
-- and returns the same key, with no change, when it is called again with another fresh key.
pub get_or_create_key_lem :
    (fresh again : KeyMaterial) (u : Uuid) (s : InMemoryKeyStore)
    → Sets u (some (get_or_create_key fresh u s).0) s (get_or_create_key fresh u s).1
      × (get_or_create_key again u (get_or_create_key fresh u s).1 ≡ get_or_create_key fresh u s)
unfolding get_or_create_key
get_or_create_key_lem fresh again u s =
    (created fresh u s (get u s.store) refl, again_same fresh again u s (get u s.store) refl)

-- After `delete_key` the subject has no key, and every other subject has the key that it had.
pub delete_key_lem : (u : Uuid) (s : InMemoryKeyStore) → Sets u none s (delete_key u s)
unfolding delete_key get_key
delete_key_lem u s v = elim (key-cases v u) [
  | inl same ↦ ground (arith, get-remove_self u s.store)
  | inr other ↦ ground (arith, get-remove_ne v u s.store other)
]

-- A subject whose key was deleted gets the fresh one.
pub get_key-delete_key :
    (fresh : KeyMaterial) (u : Uuid) (s : InMemoryKeyStore)
    → get_key u (get_or_create_key fresh u (delete_key u s)).1 ≡ some fresh
unfolding get_or_create_key get_key delete_key
get_key-delete_key fresh u s =
    rw (get-remove_self u s.store)
      (ground (arith, get-insert_self u (fresh_entry s.provider fresh) (remove u s.store)))

-- What a re-wrap with a provider's current version leaves.
pub record Rewrapped (current_id : String) (u : Uuid) (s : InMemoryKeyStore)
    (result : Bool × InMemoryKeyStore) : Type 0 where
  pub reports_presence : result.0 ≡ is_some (get_key u s)
  pub keys_kept : (v : Uuid) → get_key v result.1 ≡ get_key v s
  pub entries :
      (v : Uuid)
      → get v result.1.store ≡ (
          if v == u
          then Option.map {A = KeyEntry}
              (λ entry. record entry { kek_id = current_id })
              (get u s.store)
          else get v s.store)

retag-Rewrapped :
    (current_id : String) (u : Uuid) (s : InMemoryKeyStore) (o : Option KeyEntry)
    → get u s.store ≡ o
    → Rewrapped current_id u s (retag u current_id s o)
unfolding get_key
retag-Rewrapped current_id u s none e = record {
  reports_presence = ground arith;
  keys_kept = λ v. refl;
  entries = λ v. elim (key-cases v u) [ inl same ↦ ground arith | inr other ↦ ground arith ];
}
retag-Rewrapped current_id u s (some entry) e =
    let stored = record entry { kek_id = current_id } in
    record {
      reports_presence = ground arith;
      keys_kept = λ v. elim (key-cases v u) [
        | inl same ↦ ground (arith, get-insert_self u stored s.store)
        | inr other ↦ ap map_material (get-insert_ne v u stored s.store other)
      ];
      entries = λ v. elim (key-cases v u) [
        | inl same ↦ ground (arith, get-insert_self u stored s.store)
        | inr other ↦ ground (arith, get-insert_ne v u stored s.store other)
      ];
    }

-- With a provider, `rewrap_key` leaves every subject's key as `get_key` finds it, tags the
-- subject's key, if there is one, with the provider's current version, changes no other entry, and
-- returns whether the subject has a key: also `true` where the key was current already.
pub rewrap_key-Rewrapped :
    (provider : KekProvider) (u : Uuid) (s : InMemoryKeyStore)
    → s.provider ≡ some provider
    → Rewrapped provider.current.id u s (rewrap_key u s)
unfolding rewrap_key
rewrap_key-Rewrapped provider u s e =
    subst (λ o. Rewrapped provider.current.id u s (rewrap_with o u s)) (sym e)
      (retag-Rewrapped provider.current.id u s (get u s.store) refl)
