-- ===== src/Crypto/KeyStore/Holding.antt =====
-- What `get_or_create_key` of the in-memory store has done, and stores whose keys have 32 bytes.
use journey_dynamics.Base.{
  Option, none, some, length, nat_ord, text_ord, ◌≡◌, inl, inr, sym, ap, subst, ◌∙◌, arith,
  key-cases,
}
use journey_dynamics.Base.BTreeMap.{get, insert, get-insert_self, get-insert_ne}
use journey_dynamics.Json.{Uuid}
use journey_dynamics.Crypto.Cipher.{KeyMaterial}
use journey_dynamics.Crypto.KeyStore.{
  KeyEntry, InMemoryKeyStore, map_material, fresh_entry, get_or_create, get_key,
}

-- Keys of 32 bytes.
abbrev pub IsSized : Option KeyMaterial → Type 0
IsSized none = Unit
IsSized (some dek) = length dek.key ≡ 32

abbrev pub StoreSized : InMemoryKeyStore → Type 0
StoreSized s = (u : Uuid) → IsSized (get_key u s)

-- The keys of the first store are those of the second.
abbrev pub Kept : InMemoryKeyStore → InMemoryKeyStore → Type 0
Kept s s' = (u : Uuid) (k : KeyMaterial) → get_key u s ≡ some k → get_key u s' ≡ some k

abbrev pub HasKey : InMemoryKeyStore → Uuid → Type 0
HasKey s u = (dek : KeyMaterial) × (get_key u s ≡ some dek)

-- What `get_or_create_key` has done.
pub record Created (u : Uuid) (s : InMemoryKeyStore) (r : KeyMaterial × InMemoryKeyStore)
    : Type 0 where
  pub found : get_key u r.1 ≡ some r.0
  pub kept : Kept s r.1
  pub sized : length r.0.key ≡ 32
  pub store_sized : StoreSized r.1

pub get_or_create-Created :
    (fresh : KeyMaterial) (u : Uuid) (s : InMemoryKeyStore) (o : Option KeyEntry)
    → get u s.store ≡ o
    → length fresh.key ≡ 32
    → StoreSized s
    → Created u s (get_or_create fresh u s o)
unfolding get_key
get_or_create-Created fresh u s (some entry) e n h = record {
  found = ground arith;
  kept = λ v k known. known;
  sized = ground (arith, h u);
  store_sized = h;
}
get_or_create-Created fresh u s none e n h =
    let made = fresh_entry s.provider fresh in
    record {
      found = ap map_material (get-insert_self u made s.store);
      kept = λ v k known. elim (key-cases v u) [
        | inl same ↦ ground arith
        | inr other ↦ ap map_material (get-insert_ne v u made s.store other) ∙ known
      ];
      sized = n;
      store_sized = λ v. elim (key-cases v u) [
        | inl same ↦
            subst (λ o. IsSized o)
              (sym (
                ap (λ k. get_key k (record s { store = insert u made s.store })) same
                ∙ ap map_material (get-insert_self u made s.store)))
              n
        | inr other ↦
            subst (λ o. IsSized o) (sym (ap map_material (get-insert_ne v u made s.store other)))
              (h v)
      ];
    }
