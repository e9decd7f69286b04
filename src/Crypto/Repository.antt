-- ===== src/Crypto/Repository.antt =====
-- crates/cqrs-es-crypto/src/repository.rs: `CryptoShreddingEventRepository` without a pool, over
-- any inner repository and any key store, and `InMemoryEventRepository`. A mutex is never
-- poisoned. The crate `cqrs_es` gives the trait, its snapshots and its streams.
pub mod Reading
pub mod Streams
use journey_dynamics.Base.{
  ℕ, zero, suc, ◌-◌, String, Option, none, some, List, [], ◌∷◌, ◌++◌, length, drop, filter, Result,
  ok, err, ◌>>=◌, str_eq,
}
use journey_dynamics.Json.{Value}
use journey_dynamics.Crypto.Primitives.{panic, error, Primitives}
use journey_dynamics.Crypto.KeyStore.{KeyStore}
use journey_dynamics.Crypto.Events.{
  SerializedEvent, PersistenceError, message, PiiEventCodec, Encodings,
}
use journey_dynamics.Crypto.Envelope.{Persisted}
use journey_dynamics.Crypto.Writing.{Draw, and_then, encrypt_events}
use journey_dynamics.Crypto.Reading.{decrypt_events}

-- `cqrs_es::persist::SerializedSnapshot`
pub record SerializedSnapshot : Type 0 where
  pub aggregate_id : String
  pub aggregate : Value
  pub current_sequence : ℕ
  pub current_snapshot : ℕ

-- `Option<(String, Value, usize)>`
abbrev pub SnapshotUpdate : Type 0
SnapshotUpdate = Option (String × Value × ℕ)

-- `cqrs_es::persist::ReplayStream`: a queue with room for a number of events. `new` panics at no
-- room; `push` waits, here `none`, while the queue is full, and nobody reads before it is returned.
pub record ReplayStreams (Feed : Type 0) : Type 0 where
  pub new : ℕ → Option Feed
  pub push : SerializedEvent → Feed → Option (Persisted Feed)
  pub room : Feed → ℕ
  pub queued : Feed → List SerializedEvent

-- What a stream is for its maker: it may wait for ever.
abbrev pub Streamed : Type 0 → Type 0
Streamed Feed = Option (Persisted Feed)

-- `trait PersistedEventRepository`, on a state `R`.
pub record PersistedEventRepository (R Feed : Type 0) : Type 0 where
  pub get_events : String → R → Persisted (List SerializedEvent)
  pub get_last_events : String → ℕ → R → Persisted (List SerializedEvent)
  pub get_snapshot : String → R → Persisted (Option SerializedSnapshot)
  pub persist : List SerializedEvent → SnapshotUpdate → R → Persisted (Unit {0}) × R
  pub stream_events : String → R → Streamed Feed
  pub stream_all_events : R → Streamed Feed

-- `len().max(1)`
abbrev pub at_least_one : ℕ → ℕ
at_least_one zero = 1
at_least_one (suc n) = suc n

module _ {Feed : Type 0} (streams : ReplayStreams Feed) where
  -- `for event in events { feed.push(Ok(event)).await?; }`
  unfoldable pub feed_all : List SerializedEvent → Feed → Streamed Feed
  feed_all [] feed = some (ok feed)
  feed_all (event ∷ events) feed = elim (streams.push event feed) [
    | none ↦ none
    | some (err e) ↦ some (err e)
    | some (ok feed') ↦ feed_all events feed'
  ]

  -- `ReplayStream::new(events.len().max(1))` and the loop.
  abbrev pub feed_new : List SerializedEvent → Option Feed → Streamed Feed
  feed_new events none = some (err panic)
  feed_new events (some feed) = feed_all events feed

  unfoldable pub stream_of : List SerializedEvent → Streamed Feed
  unfolding feed_all
  stream_of events = feed_new events (streams.new (at_least_one (length events)))

pub record InMemoryEventRepository : Type 0 where
  pub events : List SerializedEvent

-- `filter(|e| e.aggregate_id == aggregate_id)`
unfoldable pub events_of : String → List SerializedEvent → List SerializedEvent
events_of aggregate_id = filter (λ e. str_eq e.aggregate_id aggregate_id)

-- `skip(len.saturating_sub(last_sequence))`
unfoldable pub last_events : ℕ → List SerializedEvent → List SerializedEvent
last_events last_sequence all = drop (length all - last_sequence) all

-- `extend_from_slice`
abbrev pub extend : List SerializedEvent → InMemoryEventRepository → InMemoryEventRepository
extend events r = record r { events = r.events ++ events }

-- `impl PersistedEventRepository for InMemoryEventRepository`
unfoldable pub in_memory_events :
    {Feed : Type 0} → ReplayStreams Feed → PersistedEventRepository InMemoryEventRepository Feed
in_memory_events streams = record {
  get_events = λ aggregate_id r. ok (events_of aggregate_id r.events);
  get_last_events = λ aggregate_id last_sequence r.
      ok (last_events last_sequence (events_of aggregate_id r.events));
  get_snapshot = λ aggregate_id r. ok none;
  persist = λ events snapshot_update r. (ok tt, extend events r);
  stream_events = λ aggregate_id r. stream_of streams (events_of aggregate_id r.events);
  stream_all_events = λ r. stream_of streams r.events;
}

-- What the repository changes: the inner repository and the key store.
pub record CryptoShreddingEventRepository (R S : Type 0) : Type 0 where
  pub inner : R
  pub key_store : S

module _ (p : Primitives) (enc : Encodings) (codec : PiiEventCodec) {R S Feed : Type 0}
    (repository : PersistedEventRepository R Feed) (store : KeyStore S)
    (streams : ReplayStreams Feed) where
  unfoldable pub get_events :
      String → CryptoShreddingEventRepository R S → Persisted (List SerializedEvent)
  get_events aggregate_id r = do
    events ← repository.get_events aggregate_id r.inner
    decrypt_events p enc codec store r.key_store events

  unfoldable pub get_last_events :
      String → ℕ → CryptoShreddingEventRepository R S → Persisted (List SerializedEvent)
  get_last_events aggregate_id last_sequence r = do
    events ← repository.get_last_events aggregate_id last_sequence r.inner
    decrypt_events p enc codec store r.key_store events

  -- Snapshots are neither encrypted nor decrypted.
  unfoldable pub get_snapshot :
      String → CryptoShreddingEventRepository R S → Persisted (Option SerializedSnapshot)
  get_snapshot aggregate_id r = repository.get_snapshot aggregate_id r.inner

  -- What is left of `persist` once the events are encrypted.
  abbrev pub persist_encrypted :
      SnapshotUpdate
      → R
      → List SerializedEvent
      → S
      → Persisted (Unit {0}) × CryptoShreddingEventRepository R S
  persist_encrypted snapshot_update inner encrypted key_store =
      let (result, inner') = repository.persist encrypted snapshot_update inner in
      (result, record { inner = inner'; key_store = key_store })

  abbrev pub persist_after :
      SnapshotUpdate
      → R
      → Persisted (List SerializedEvent) × S
      → Persisted (Unit {0}) × CryptoShreddingEventRepository R S
  persist_after snapshot_update inner (err e, key_store) =
      (err e, record { inner = inner; key_store = key_store })
  persist_after snapshot_update inner (ok encrypted, key_store) =
      persist_encrypted snapshot_update inner encrypted key_store

  -- `persist` without a pool.
  unfoldable pub persist :
      (ℕ → ℕ → Draw)
      → List SerializedEvent
      → SnapshotUpdate
      → CryptoShreddingEventRepository R S
      → Persisted (Unit {0}) × CryptoShreddingEventRepository R S
  persist draws events snapshot_update r =
      persist_after snapshot_update r.inner
        (encrypt_events p enc codec store draws 0 events r.key_store)

  abbrev pub stream_read : Persisted (List SerializedEvent) → Streamed Feed
  stream_read (err e) = some (err e)
  stream_read (ok events) = stream_of streams events

  unfoldable pub stream_events : String → CryptoShreddingEventRepository R S → Streamed Feed
  unfolding stream_of
  stream_events aggregate_id r = stream_read (get_events aggregate_id r)

  unfoldable pub stream_all_events : CryptoShreddingEventRepository R S → Streamed Feed
  stream_all_events r = some (
      err (
        error (
          message
            "`CryptoShreddingEventRepository` does not support `stream_all_events` — use `get_events` or `stream_events` per aggregate instead.")))
