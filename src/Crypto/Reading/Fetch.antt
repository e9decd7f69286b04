-- ===== src/Crypto/Reading/Fetch.antt =====
-- The first pass of `decrypt_events` over the in-memory store: the cache holds what `get_key`
-- finds.
use journey_dynamics.Base.{
  Option, none, some, List, [], ◌∷◌, map, All, ok, nat_ord, ◌≡◌, ◌⊎◌, inl, inr, refl, sym, ap, ◌∙◌,
  key-cases,
}
use journey_dynamics.Base.BTreeMap.{get, insert, get-insert_self, get-insert_ne}
use journey_dynamics.Json.{Uuid, Value}
use journey_dynamics.Crypto.Primitives.{Primitives}
use journey_dynamics.Crypto.Cipher.{KeyMaterial}
use journey_dynamics.Crypto.KeyStore.{InMemoryKeyStore, get_key, in_memory}
use journey_dynamics.Crypto.Events.{PiiEventCodec, Encodings}
use journey_dynamics.Crypto.Reading.{DekCache, subject_of, fetch_vacant, fetch, fetch_parts}

-- Every entry of the cache is the store's answer.
abbrev pub Fetched : InMemoryKeyStore → DekCache → Type 0
Fetched t cache = (u : Uuid) → (get u cache ≡ none) ⊎ (get u cache ≡ some (get_key u t))

abbrev pub IsFetched : InMemoryKeyStore → DekCache → Uuid → Type 0
IsFetched t cache u = get u cache ≡ some (get_key u t)

-- What a fetch leaves: the answers for these subjects, and all that were there.
pub record Fetches (t : InMemoryKeyStore) (us : List Uuid) (cache cache' : DekCache) : Type 0 where
  pub fetched : Fetched t cache'
  pub subjects_fetched : All (IsFetched t cache') us
  pub grows : (u : Uuid) → IsFetched t cache u → IsFetched t cache' u

module _ (p : Primitives) (enc : Encodings) (codec : PiiEventCodec) (t : InMemoryKeyStore) where
  fetch_vacant-Fetches :
      (u : Uuid) (cache : DekCache) (o : Option (Option KeyMaterial))
      → get u cache ≡ o
      → Fetched t cache
      → (cache' : DekCache) × (fetch_vacant p enc codec in_memory t u cache o ≡ ok cache')
        × Fetches t (u ∷ []) cache cache'
  unfolding in_memory
  fetch_vacant-Fetches u cache (some key) e h = (
    cache,
    refl,
    record {
      fetched = h;
      subjects_fetched = (elim (h u) [ inl miss ↦ cc (e, miss) | inr found ↦ found ], tt);
      grows = λ v f. f;
    },
  )
  fetch_vacant-Fetches u cache none e h = (
    insert u (get_key u t) cache,
    refl,
    record {
      fetched = λ v. elim (key-cases v u) [
        | inl same ↦ inr (
            ap (λ k. get k (insert u (get_key u t) cache)) same
            ∙ get-insert_self u (get_key u t) cache
            ∙ ap (λ k. some (get_key k t)) (sym same))
        | inr other ↦ elim (h v) [
          | inl miss ↦ inl (get-insert_ne v u (get_key u t) cache other ∙ miss)
          | inr found ↦ inr (get-insert_ne v u (get_key u t) cache other ∙ found)
        ]
      ];
      subjects_fetched = (get-insert_self u (get_key u t) cache, tt);
      grows = λ v f. elim (key-cases v u) [
        | inl same ↦ cc (f, e, same)
        | inr other ↦ get-insert_ne v u (get_key u t) cache other ∙ f
      ];
    },
  )

  -- The loop over the partitions of an envelope.
  pub fetch_parts-Fetches :
      (parts : List Value) (us : List Uuid) (cache : DekCache)
      → map (subject_of p enc codec) parts ≡ map some us
      → Fetched t cache
      → (cache' : DekCache) × (fetch_parts p enc codec in_memory t parts cache ≡ ok cache')
        × Fetches t us cache cache'
  unfolding fetch_parts fetch
  fetch_parts-Fetches [] [] cache e h =
      (cache, refl, record { fetched = h; subjects_fetched = tt; grows = λ u f. f })
  fetch_parts-Fetches [] (u ∷ us) cache e h = cc
  fetch_parts-Fetches (part ∷ parts) [] cache e h = cc
  fetch_parts-Fetches (part ∷ parts) (u ∷ us) cache e h =
      let parsed : subject_of p enc codec part ≡ some u = cc in
      let tail : map (subject_of p enc codec) parts ≡ map some us = cc in
      let (cache₁, first, one) = fetch_vacant-Fetches u cache (get u cache) refl h in
      let (cache₂, rest, others) = fetch_parts-Fetches parts us cache₁ tail one.fetched in
      (
        cache₂,
        rw (parsed, first, rest) refl,
        record {
          fetched = others.fetched;
          subjects_fetched = (others.grows u one.subjects_fetched.0, others.subjects_fetched);
          grows = λ v f. others.grows v (one.grows v f);
        },
      )
