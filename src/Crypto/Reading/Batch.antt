-- ===== src/Crypto/Reading/Batch.antt =====
-- Several events that were written, read together with the keys that are left.
pub mod Written
use journey_dynamics.Base.{
  Option, none, List, [], ◌∷◌, ◌++◌, map, All, All_mono, All_of_each, All-append, All_split, ok,
  ◌>>=◌, nat_ord, ◌≡◌, ◌⊎◌, inl, inr, refl, sym, ap, ◌∙◌,
}
use journey_dynamics.Base.BTreeMap.{get-nil}
use journey_dynamics.Json.{Uuid, Object, object, entry, end}
use journey_dynamics.Json.Map.{object_get}
use journey_dynamics.Crypto.Primitives.{Primitives}
use journey_dynamics.Crypto.Cipher.{KeyMaterial}
use journey_dynamics.Crypto.KeyStore.{InMemoryKeyStore, get_key, in_memory}
use journey_dynamics.Crypto.Events.{SerializedEvent, SecretPartition, PiiEventCodec, Encodings}
use journey_dynamics.Crypto.Envelope.{Persisted, Sealed, add_envelope}
use journey_dynamics.Crypto.Reading.{
  DekCache, cached, cached_of, put_back, envelope_of, decrypt_event, decrypt_all, fetch_shape,
  fetch_all, decrypt_events,
}
use journey_dynamics.Crypto.Reading.Fetch.{Fetched, IsFetched, Fetches, fetch_parts-Fetches}
use journey_dynamics.Crypto.Reading.RoundTrip.{whole, envelope_of-whole, decrypt_parts-sealed}
use journey_dynamics.Crypto.KeyStore.Holding.{Kept, HasKey}
use journey_dynamics.Crypto.Reading.RoundTrip.Parts.{Agrees, outcomes, subjects, SealedParts}
use journey_dynamics.Crypto.Reading.Erasure.{OnlyDeleted, outcomes-fetched}

-- The keys that a reader finds.
abbrev pub Keys : Type 0
Keys = Uuid → Option KeyMaterial

abbrev pub Survives : InMemoryKeyStore → InMemoryKeyStore → Uuid → Type 0
Survives s t u = (get_key u t ≡ none) ⊎ (get_key u t ≡ get_key u s)

-- An event that is stored, the subjects of its partitions and what is read of it.
pub record Entry : Type 0 where
  pub stored : SerializedEvent
  pub of_subjects : List Uuid
  pub expected : Keys → Persisted SerializedEvent

-- The entry of an event without secrets.
abbrev pub plain_entry : SerializedEvent → Entry
plain_entry event = record { stored = event; of_subjects = []; expected = λ keys. ok event }

abbrev pub stored_events : List Entry → List SerializedEvent
stored_events = map (λ (e : Entry). e.stored)

abbrev pub all_subjects : List Entry → List Uuid
all_subjects [] = []
all_subjects (e ∷ es) = e.of_subjects ++ all_subjects es

-- What is read of all, up to the first that fails.
abbrev pub read_all : Keys → List Entry → Persisted (List SerializedEvent)
read_all keys [] = ok []
read_all keys (e ∷ es) = e.expected keys >>= λ first. read_all keys es >>= λ rest. ok (first ∷ rest)

module _ (p : Primitives) (enc : Encodings) (codec : PiiEventCodec) where
  -- The entry's event was written with keys of this store.
  pub record Reads (s : InMemoryKeyStore) (e : Entry) : Type 0 where
    pub keys_found : All (HasKey s) e.of_subjects
    pub fetches :
        (t : InMemoryKeyStore) (cache : DekCache)
        → Fetched t cache
        → (cache' : DekCache) × (fetch_shape p enc codec in_memory t e.stored
              (envelope_of p enc codec e.stored)
              cache
            ≡ ok cache')
          × Fetches t e.of_subjects cache cache'
    pub reads :
        (t : InMemoryKeyStore) (cache : DekCache)
        → All (Survives s t) e.of_subjects
        → All (IsFetched t cache) e.of_subjects
        → decrypt_event p enc codec cache e.stored ≡ e.expected (λ u. get_key u t)

  abbrev pub Holds : InMemoryKeyStore → List Entry → Type 0
  Holds s = All (Reads s)

  Survives-Agrees :
      (s t : InMemoryKeyStore) (cache : DekCache) (us : List Uuid)
      → All (Survives s t) us
      → All (IsFetched t cache) us
      → All (Agrees cache s) us
  Survives-Agrees s t cache [] h f = tt
  Survives-Agrees s t cache (u ∷ us) h f = (
    elim h.0 [
      | inl gone ↦ inl (ap cached_of f.0 ∙ gone)
      | inr same ↦ inr (ap cached_of f.0 ∙ same)
    ],
    Survives-Agrees s t cache us h.1 f.1,
  )

  -- The entry of an event whose partitions are sealed.
  abbrev pub sealed_entry : SerializedEvent → Object → List SecretPartition → List Sealed → Entry
  sealed_entry event inner parts sealed = record {
    stored = whole event (add_envelope sealed inner);
    of_subjects = subjects parts;
    expected = λ keys. put_back p enc codec (whole event inner) (outcomes keys parts);
  }

  sealed_entry-Reads :
      (event : SerializedEvent) (inner : Object) (parts : List SecretPartition)
      (s s' : InMemoryKeyStore) (sealed : List Sealed)
      → object_get "encrypted_partitions" inner ≡ none
      → object_get "subjects" inner ≡ none
      → SealedParts p enc codec (whole event inner) parts s sealed s'
      → Reads s' (sealed_entry event inner parts sealed)
  sealed_entry-Reads event inner parts s s' sealed e sub done = record {
    keys_found = done.keys_found;
    fetches = λ t cache h.
        let (cache', ran, got) =
          fetch_parts-Fetches p enc codec t (map (λ (x : Sealed). x.part) sealed) (subjects parts)
            cache done.subjects_known h in
        (cache', rw (envelope_of-whole p enc codec event sealed inner) ran, got);
    reads = λ t cache survive f.
        decrypt_parts-sealed p enc codec cache event inner sealed
          (ok (outcomes (cached cache) parts)) e sub
          (done.opens cache (object (entry event.event_type (object inner) end))
            (Survives-Agrees s' t cache (subjects parts) survive f))
        ∙ ap (put_back p enc codec (whole event inner)) (outcomes-fetched t cache parts f);
  }

  plain_entry-Reads :
      (event : SerializedEvent) (s : InMemoryKeyStore)
      → envelope_of p enc codec event ≡ none
      → codec.extract_encrypted_legacy event ≡ none
      → Reads s (plain_entry event)
  unfolding decrypt_event
  plain_entry-Reads event s e l = record {
    keys_found = tt;
    fetches = λ t cache h.
        (cache, rw (e, l) refl, record { fetched = h; subjects_fetched = tt; grows = λ u f. f });
    reads = λ t cache survive f. rw (e, l) refl;
  }

  -- An entry stays readable while no key is replaced.
  pub Reads-Kept : (s s' : InMemoryKeyStore) → Kept s s' → (e : Entry) → Reads s e → Reads s' e
  Reads-Kept s s' kept e r = record {
    keys_found = All_mono (λ u h. (h.0, kept u h.0 h.1)) e.of_subjects r.keys_found;
    fetches = r.fetches;
    reads = λ t cache survive. r.reads t cache (back t e.of_subjects r.keys_found survive);
  }
    where
      back :
          (t : InMemoryKeyStore) (us : List Uuid)
          → All (HasKey s) us
          → All (Survives s' t) us
          → All (Survives s t) us
      back t [] h k = tt
      back t (u ∷ us) h k = (
        elim k.0 [ inl gone ↦ inl gone | inr same ↦ inr (same ∙ kept u h.0.0 h.0.1 ∙ sym h.0.1) ],
        back t us h.1 k.1,
      )

  -- The first pass over stored events.
  fetch_all-Holds :
      (s t : InMemoryKeyStore) (es : List Entry) (cache : DekCache)
      → Holds s es
      → Fetched t cache
      → (cache' : DekCache) × (fetch_all p enc codec in_memory t (stored_events es) cache
          ≡ ok cache')
        × Fetches t (all_subjects es) cache cache'
  unfolding fetch_all
  fetch_all-Holds s t [] cache h f =
      (cache, refl, record { fetched = f; subjects_fetched = tt; grows = λ u k. k })
  fetch_all-Holds s t (e ∷ es) cache h f =
      let (cache₁, first, one) = h.0.fetches t cache f in
      let (cache₂, rest, others) = fetch_all-Holds s t es cache₁ h.1 one.fetched in
      (
        cache₂,
        rw (first, rest) refl,
        record {
          fetched = others.fetched;
          subjects_fetched =
              All-append (IsFetched t cache₂) e.of_subjects (all_subjects es)
                (All_mono others.grows e.of_subjects one.subjects_fetched) others.subjects_fetched;
          grows = λ v k. others.grows v (one.grows v k);
        },
      )

  decrypt_all-Holds :
      (s t : InMemoryKeyStore) (es : List Entry) (cache : DekCache)
      → Holds s es
      → OnlyDeleted s t
      → All (IsFetched t cache) (all_subjects es)
      → decrypt_all p enc codec cache (stored_events es) ≡ read_all (λ u. get_key u t) es
  unfolding decrypt_all
  decrypt_all-Holds s t [] cache h only f = refl
  decrypt_all-Holds s t (e ∷ es) cache h only f =
      let (mine, others) = All_split (IsFetched t cache) e.of_subjects (all_subjects es) f in
      rw
        (
          h.0.reads t cache (All_of_each (Survives s t) only e.of_subjects) mine,
          decrypt_all-Holds s t es cache h.1 only others,
        )
        refl

  -- Both passes over stored events.
  pub decrypt_events-Holds :
      (s t : InMemoryKeyStore) (es : List Entry)
      → Holds s es
      → OnlyDeleted s t
      → decrypt_events p enc codec in_memory t (stored_events es) ≡ read_all (λ u. get_key u t) es
  unfolding decrypt_events
  decrypt_events-Holds s t es h only =
      let (cache, ran, got) = fetch_all-Holds s t es [] h (λ u. inl (get-nil u)) in
      rw ran (decrypt_all-Holds s t es cache h only got.subjects_fetched)
