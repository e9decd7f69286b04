-- ===== src/Crypto/Repository/Reading.antt =====
-- Events are persisted with `CryptoShreddingEventRepository` over the in-memory repository and key
-- store, keys are deleted, and the events of the aggregate are read.
use journey_dynamics.Base.{
  ℕ, String, List, [], ◌∷◌, ◌++◌, All, All_mono, All-append, ok, err, ◌>>=◌, eq_iff, ◌≡◌, refl, sym,
  ap, ◌∙◌, arith,
}
use journey_dynamics.Crypto.Primitives.{Primitives, GcmOpens}
use journey_dynamics.Crypto.KeyStore.{InMemoryKeyStore, get_key, in_memory}
use journey_dynamics.Crypto.Events.{SerializedEvent, PiiEventCodec, Encodings}
use journey_dynamics.Crypto.Envelope.{Persisted}
use journey_dynamics.Crypto.Writing.{Draw}
use journey_dynamics.Crypto.KeyStore.Holding.{StoreSized}
use journey_dynamics.Crypto.Reading.RoundTrip.Parts.{Decodes, DrawsSized}
use journey_dynamics.Crypto.Reading.Erasure.{OnlyDeleted}
use journey_dynamics.Crypto.Reading.Batch.{
  Keys, Entry, stored_events, read_all, Holds, Reads-Kept, decrypt_events-Holds,
}
use journey_dynamics.Crypto.Reading.Batch.Written.{
  Written, IsOf, all_read_back, encrypt_events-AllStored,
}
use journey_dynamics.Crypto.Repository.{
  SnapshotUpdate, ReplayStreams, InMemoryEventRepository, events_of, in_memory_events,
  CryptoShreddingEventRepository, get_events, persist,
}

abbrev pub Repository : Type 0
Repository = CryptoShreddingEventRepository InMemoryEventRepository InMemoryKeyStore

-- Both lists, or the first error.
abbrev pub joined :
    Persisted (List SerializedEvent)
    → Persisted (List SerializedEvent)
    → Persisted (List SerializedEvent)
joined old new = old >>= λ before. new >>= λ after. ok (before ++ after)

joined_assoc :
    (event : Persisted SerializedEvent) (old new : Persisted (List SerializedEvent))
    → (event >>= λ first. joined old new >>= λ rest. ok (first ∷ rest))
      ≡ joined (event >>= λ first. old >>= λ rest. ok (first ∷ rest)) new
joined_assoc (err e) old new = refl
joined_assoc (ok event) (err e) new = refl
joined_assoc (ok event) (ok old) (err e) = refl
joined_assoc (ok event) (ok old) (ok new) = refl

joined_nil : (new : Persisted (List SerializedEvent)) → new ≡ joined (ok []) new
joined_nil (ok new) = refl
joined_nil (err e) = refl

read_all-append :
    (keys : Keys) (es es' : List Entry)
    → read_all keys (es ++ es') ≡ joined (read_all keys es) (read_all keys es')
read_all-append keys [] es' = joined_nil (read_all keys es')
read_all-append keys (e ∷ es) es' =
    rw (read_all-append keys es es')
      (joined_assoc (e.expected keys) (read_all keys es) (read_all keys es'))

events_of-append :
    (id : String) (xs ys : List SerializedEvent)
    → events_of id (xs ++ ys) ≡ events_of id xs ++ events_of id ys
unfolding events_of
events_of-append id [] ys = refl
events_of-append id (x ∷ xs) ys = ground (arith, events_of-append id xs ys)

events_of_own : (id : String) (xs : List SerializedEvent) → All (IsOf id) xs → events_of id xs ≡ xs
unfolding events_of
events_of_own id [] h = refl
events_of_own id (x ∷ xs) h =
    rw ((eq_iff x.aggregate_id id).1 h.0) (ap (λ l. x ∷ l) (events_of_own id xs h.1))

map-append :
    (es es' : List Entry) → stored_events (es ++ es') ≡ stored_events es ++ stored_events es'
map-append [] es' = refl
map-append (e ∷ es) es' = ap (λ l. e.stored ∷ l) (map-append es es')

module _ (p : Primitives) (enc : Encodings) (codec : PiiEventCodec) where
  -- The repository holds these entries of the aggregate, under keys of its store.
  pub record IsReadable (aggregate_id : String) (es : List Entry) (r : Repository) : Type 0 where
    pub stored : events_of aggregate_id r.inner.events ≡ stored_events es
    pub held : Holds p enc codec r.key_store es
    pub sized : StoreSized r.key_store

  module _ {Feed : Type 0} (streams : ReplayStreams Feed) where
    abbrev pub persisted :
        (ℕ → ℕ → Draw)
        → List SerializedEvent
        → SnapshotUpdate
        → Repository
        → Persisted (Unit {0}) × Repository
    persisted = persist p enc codec (in_memory_events streams) in_memory streams

    -- What is read of the aggregate when the key store has become this.
    abbrev pub read_later :
        String → InMemoryKeyStore → Repository → Persisted (List SerializedEvent)
    read_later aggregate_id later r =
        get_events p enc codec (in_memory_events streams) in_memory streams aggregate_id
          (record r { key_store = later })

    pub get_events-IsReadable :
        (id : String) (es : List Entry) (r : Repository) (later : InMemoryKeyStore)
        → IsReadable id es r
        → OnlyDeleted r.key_store later
        → read_later id later r ≡ read_all (λ u. get_key u later) es
    unfolding get_events in_memory_events
    get_events-IsReadable id es r later h only =
        rw h.stored (decrypt_events-Holds p enc codec r.key_store later es h.held only)

    module _ (draws : ℕ → ℕ → Draw) (events : List SerializedEvent)
        (ws : All (Written p enc codec) events) (snapshot : SnapshotUpdate) (opens : GcmOpens p)
        (decodes : Decodes enc) (sized : (n : ℕ) → DrawsSized (draws n)) where
      -- The entries that a write adds.
      pub record Added (aggregate_id : String) (es : List Entry) (r : Repository) (es' : List Entry)
          : Type 0 where
        pub done : (persisted draws events snapshot r).0 ≡ ok tt
        pub readable : IsReadable aggregate_id (es ++ es') (persisted draws events snapshot r).1
        pub same : (keys : Keys) → read_all keys es' ≡ all_read_back p enc codec events ws keys

      persist-Added :
          (id : String) (es : List Entry) (r : Repository)
          → IsReadable id es r
          → All (IsOf id) events
          → (es' : List Entry) × Added id es r es'
      unfolding persist in_memory_events
      persist-Added id es r h own =
          let (es', s', ran, all) =
            encrypt_events-AllStored p enc codec draws 0 events ws r.key_store opens decodes sized
              h.sized in
          (
            es',
            record {
              done = rw ran refl;
              readable = rw ran (record {
                stored =
                    events_of-append id r.inner.events (stored_events es')
                    ∙ ap (λ l. l ++ events_of id (stored_events es')) h.stored
                    ∙ ap (λ l. stored_events es ++ l)
                        (events_of_own id (stored_events es') (all.owners id own))
                    ∙ sym (map-append es es');
                held =
                    All-append _ es es'
                      (All_mono (Reads-Kept p enc codec r.key_store s' all.kept) es h.held)
                      all.held;
                sized = all.sized;
              });
              same = all.same;
            },
          )

      -- Over the in-memory repository and key store, for a stored history of an aggregate whose
      -- events can be read, and a batch of its events each with or without secrets, if AES-GCM
      -- opens what it seals, UUIDs and base64 are decoded as they are encoded, and draws have
      -- their sizes: `persist` succeeds, and with any later key store from which keys were only
      -- deleted, `get_events` gives what the history gave with those keys, followed by what each
      -- event of the batch reads as with those keys; or the first error of these.
      pub get_events-persist :
          (id : String) (es : List Entry) (r : Repository) (later : InMemoryKeyStore)
          → IsReadable id es r
          → All (IsOf id) events
          → OnlyDeleted (persisted draws events snapshot r).1.key_store later
          → ((persisted draws events snapshot r).0 ≡ ok tt)
            × (read_later id later (persisted draws events snapshot r).1
                ≡ joined
                    (read_all (λ u. get_key u later) es)
                    (all_read_back p enc codec events ws (λ u. get_key u later)))
      get_events-persist id es r later h own only =
          let (es', added) = persist-Added id es r h own in
          let keys : Keys = λ u. get_key u later in
          (
            added.done,
            get_events-IsReadable id (es ++ es') (persisted draws events snapshot r).1 later
                  added.readable only
                ∙ read_all-append keys es es'
                ∙ ap (joined (read_all keys es)) (added.same keys),
          )
