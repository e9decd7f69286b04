-- ===== src/Crypto/Postgres/Related.antt =====
-- What it means that a table and a map hold the same keys, and what keeps it so.
use journey_dynamics.Base.{
  ℕ, String, Option, none, some, [], ◌∷◌, length, ok, nat_ord, ◌≡◌, refl, subst, lt, eq, gt,
}
use journey_dynamics.Base.BTreeMap.{get, insert, remove, IsOrdered}
use journey_dynamics.Json.{Uuid}
use journey_dynamics.Crypto.Primitives.{Bytes}
use journey_dynamics.Crypto.Cipher.{KeyMaterial}
use journey_dynamics.Crypto.Kek.{WrappedDek, KekProvider}
use journey_dynamics.Crypto.KeyStore.{
  KeyStore, KeyStoreError, KeyEntry, KeyMap, InMemoryKeyStore, map_material, material,
  current_kek_id, fresh_entry, is_past, sort, in_memory, get_or_create, retag, rewrap_with,
}
use journey_dynamics.Crypto.KeyStore as Memory
use journey_dynamics.Crypto.Postgres.{Row, Table, dek_of, stale_after}

-- What a store that stands in for another promises, for states that are related: the same answers,
-- and related states again.
pub record Refines {S T : Type 0} (concrete : KeyStore T) (spec : KeyStore S)
    (Related : T → S → Type 0) : Type 0 where
  pub get_or_create_key :
      (fresh : KeyMaterial) (u : Uuid) (t : T) (s : S)
      → length fresh.key ≡ 32
      → Related t s
      → ((concrete.get_or_create_key fresh u t).0 ≡ (spec.get_or_create_key fresh u s).0)
        × Related (concrete.get_or_create_key fresh u t).1 (spec.get_or_create_key fresh u s).1
  pub get_key : (u : Uuid) (t : T) (s : S) → Related t s → concrete.get_key u t ≡ spec.get_key u s
  pub delete_key :
      (u : Uuid) (t : T) (s : S)
      → Related t s
      → ((concrete.delete_key u t).0 ≡ (spec.delete_key u s).0)
        × Related (concrete.delete_key u t).1 (spec.delete_key u s).1
  pub list_stale_subjects :
      (current : String) (batch_size : ℕ) (after : Option Uuid) (t : T) (s : S)
      → Related t s
      → concrete.list_stale_subjects current batch_size after t
        ≡ spec.list_stale_subjects current batch_size after s
  pub rewrap_key :
      (u : Uuid) (t : T) (s : S)
      → Related t s
      → ((concrete.rewrap_key u t).0 ≡ (spec.rewrap_key u s).0)
        × Related (concrete.rewrap_key u t).1 (spec.rewrap_key u s).1

abbrev pub wrapped_under : KekProvider → Uuid → Bytes → WrappedDek
wrapped_under provider key_id bytes = record {
  key_id = key_id;
  kek_id = provider.current.id;
  wrapped_key = bytes;
}

-- The provider wraps a key of 32 bytes under its current version, and unwraps it again.
abbrev pub WrapsUnder : KekProvider → Type 0
WrapsUnder provider =
    (dek : KeyMaterial)
    → length dek.key ≡ 32
    → (bytes : Bytes) × (provider.wrap provider.current dek
        ≡ ok (wrapped_under provider dek.key_id bytes))
      × (provider.unwrap (wrapped_under provider dek.key_id bytes) ≡ ok dek)

module _ (provider : KekProvider) where
  -- The row holds the entry, wrapped under the entry's version.
  pub record HoldsEntry (r : Row) (e : KeyEntry) : Type 0 where
    pub tag : r.kek_id ≡ e.kek_id
    pub id : r.key_id ≡ e.key_id
    pub opens : provider.unwrap (dek_of r) ≡ ok (material e)
    pub sized : length e.key ≡ 32

  -- The same subjects in the same order.
  abbrev pub Same : Table → KeyMap → Type 0
  Same [] [] = Unit
  Same [] (_ ∷ m) = ⊥
  Same (_ ∷ t) [] = ⊥
  Same ((u, r) ∷ t) ((v, e) ∷ m) = ((u ≡ v) × HoldsEntry r e) × Same t m

  abbrev pub Related : Table → InMemoryKeyStore → Type 0
  Related t s = Same t s.store × (s.provider ≡ some provider) × IsOrdered s.store

  abbrev pub SameFound : Option Row → Option KeyEntry → Type 0
  SameFound none none = Unit
  SameFound none (some e) = ⊥
  SameFound (some r) none = ⊥
  SameFound (some r) (some e) = HoldsEntry r e

  pub get-Same : (u : Uuid) (t : Table) (m : KeyMap) → Same t m → SameFound (get u t) (get u m)
  unfolding get
  get-Same u [] [] h = tt
  get-Same u [] (_ ∷ m) h = absurd h
  get-Same u (_ ∷ t) [] h = absurd h
  get-Same u ((v, r) ∷ t) ((w, e) ∷ m) h =
      subst (λ x. SameFound (get u ((v, r) ∷ t)) (get u ((x, e) ∷ m))) h.0.0
        (elim (nat_ord.cmp u v)
          as (λ c.
            SameFound (elim c [ eq ↦ some r | _ ↦ get u t ])
              (elim c [ eq ↦ some e | _ ↦ get u m ])) [
                | lt ↦ get-Same u t m h.1
                | eq ↦ h.0.1
                | gt ↦ get-Same u t m h.1
              ])

  pub insert-Same :
      (u : Uuid) (r : Row) (e : KeyEntry) (t : Table) (m : KeyMap)
      → HoldsEntry r e
      → Same t m
      → Same (insert u r t) (insert u e m)
  unfolding insert
  insert-Same u r e [] [] holds h = ((refl, holds), tt)
  insert-Same u r e [] (_ ∷ m) holds h = absurd h
  insert-Same u r e (_ ∷ t) [] holds h = absurd h
  insert-Same u r e ((v, q) ∷ t) ((w, d) ∷ m) holds h =
      subst (λ x. Same (insert u r ((v, q) ∷ t)) (insert u e ((x, d) ∷ m))) h.0.0
        (elim (nat_ord.cmp u v)
          as (λ c.
            Same
              (elim c [ lt ↦ (u, r) ∷ (v, q) ∷ t | eq ↦ (u, r) ∷ t | gt ↦ (v, q) ∷ insert u r t ])
              (elim c [
                | lt ↦ (u, e) ∷ (v, d) ∷ m
                | eq ↦ (u, e) ∷ m
                | gt ↦ (v, d) ∷ insert u e m
              ])) [
                | lt ↦ ((refl, holds), ((refl, h.0.1), h.1))
                | eq ↦ ((refl, holds), h.1)
                | gt ↦ ((refl, h.0.1), insert-Same u r e t m holds h.1)
              ])

  pub remove-Same : (u : Uuid) (t : Table) (m : KeyMap) → Same t m → Same (remove u t) (remove u m)
  unfolding remove
  remove-Same u [] [] h = tt
  remove-Same u [] (_ ∷ m) h = absurd h
  remove-Same u (_ ∷ t) [] h = absurd h
  remove-Same u ((v, q) ∷ t) ((w, d) ∷ m) h =
      subst (λ x. Same (remove u ((v, q) ∷ t)) (remove u ((x, d) ∷ m))) h.0.0
        (elim (nat_ord.cmp u v)
          as (λ c.
            Same (elim c [ eq ↦ remove u t | _ ↦ (v, q) ∷ remove u t ])
              (elim c [ eq ↦ remove u m | _ ↦ (v, d) ∷ remove u m ])) [
                | lt ↦ ((refl, h.0.1), remove-Same u t m h.1)
                | eq ↦ remove-Same u t m h.1
                | gt ↦ ((refl, h.0.1), remove-Same u t m h.1)
              ])

  pub stale_after-Same :
      (current : String) (after : Option Uuid) (t : Table) (m : KeyMap)
      → Same t m
      → stale_after current after t ≡ Memory.stale_after current after m
  unfolding stale_after Memory.stale_after
  stale_after-Same current after [] [] h = refl
  stale_after-Same current after [] (_ ∷ m) h = absurd h
  stale_after-Same current after (_ ∷ t) [] h = absurd h
  stale_after-Same current after ((v, r) ∷ t) ((w, e) ∷ m) h =
      rw (h.0.0, h.0.1.tag, stale_after-Same current after t m h.1) refl
