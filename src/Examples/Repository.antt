-- ===== src/Examples/Repository.antt =====
-- The theorems on the repositories at a concrete batch.
use journey_dynamics.Base.{ℕ, none, List, [], ◌∷◌, ◌++◌, All, length, ok, inr, ◌≡◌, refl}
use journey_dynamics.Crypto.KeyStore.{get_key, in_memory}
use journey_dynamics.Crypto.Events.{SerializedEvent}
use journey_dynamics.Crypto.Writing.{Draw}
use journey_dynamics.Crypto.Reading.Batch.{read_all}
use journey_dynamics.Crypto.Reading.Batch.Written.{Written, secret, all_read_back}
use journey_dynamics.Crypto.Repository.{
  InMemoryEventRepository, events_of, in_memory_events, get_events, stream_events,
}
use journey_dynamics.Crypto.Repository.Reading.{
  Repository, joined, IsReadable, persisted, read_later, get_events-persist,
}
use journey_dynamics.Crypto.Repository.Streams.{
  Delivers, stream_events-Delivers, min, get_last_events_lem,
}
use journey_dynamics.Examples.Fixtures.{clear, clear-GcmOpens, queues, queues-Buffers}
use journey_dynamics.Examples.Codes.{stroke_codes, stroke_codes-Decodes}
use journey_dynamics.Examples.Erasure.{
  event, inner, first, second, codec, draw, store, draws_sized, store_sized, lacks_partitions,
  lacks_subjects,
}

abbrev empty : Repository
empty = record { inner = record { events = [] }; key_store = store }

empty-IsReadable : IsReadable clear stroke_codes codec "7" [] empty
unfolding events_of
empty-IsReadable = record { stored = refl; held = tt; sized = store_sized }

abbrev batch : List SerializedEvent
batch = event ∷ []

abbrev batch_written : All (Written clear stroke_codes codec) batch
batch_written = (secret event inner first second refl refl lacks_partitions lacks_subjects, tt)

abbrev draws : ℕ → ℕ → Draw
draws n = draw

abbrev after : Repository
after = (persisted clear stroke_codes codec queues draws batch none empty).1

get_events-persist_example :
    ((persisted clear stroke_codes codec queues draws batch none empty).0 ≡ ok tt)
    × (read_later clear stroke_codes codec queues "7" after.key_store after
        ≡ joined (read_all (λ u. get_key u after.key_store) []) (
            all_read_back clear stroke_codes codec batch batch_written
              (λ u. get_key u after.key_store)))
get_events-persist_example =
    get_events-persist clear stroke_codes codec queues draws batch batch_written none clear-GcmOpens
      stroke_codes-Decodes (λ n. draws_sized) "7" [] empty after.key_store empty-IsReadable
      (refl, tt) (λ u. inr refl)

stream_events-Delivers_example :
    Delivers queues
      (get_events clear stroke_codes codec (in_memory_events queues) in_memory queues "7" after)
      (stream_events clear stroke_codes codec (in_memory_events queues) in_memory queues "7" after)
stream_events-Delivers_example =
    stream_events-Delivers queues clear stroke_codes codec (in_memory_events queues) in_memory "7"
      after queues-Buffers

abbrev full : InMemoryEventRepository
full = record { events = event ∷ event ∷ event ∷ [] }

get_last_events_lem_example :
    (front : List SerializedEvent) × (last : List SerializedEvent) × ((in_memory_events
          queues).get_last_events
        "7" 2 full
      ≡ ok last)
    × ((in_memory_events queues).get_events "7" full ≡ ok (front ++ last))
    × (length last ≡ min 2 (length (events_of "7" full.events)))
get_last_events_lem_example = get_last_events_lem queues "7" 2 full
