-- ===== src/Crypto/Repository/Streams.antt =====
-- The streams of the repositories, whose queue has room for all events before anyone reads, and
-- the bound on the last events.
use mathlib.Core.List.{append-nil, append_assoc}
use journey_dynamics.Base.{
  ℕ, zero, suc, ◌+◌, ◌-◌, ◌≤◌, ◌<◌, String, some, List, [], ◌∷◌, ◌++◌, length, drop, leb,
  if◌then◌else◌, ok, err, ◌≡◌, refl, ap, sym, ◌∙◌, arith,
}
use journey_dynamics.Crypto.Primitives.{Primitives}
use journey_dynamics.Crypto.KeyStore.{KeyStore}
use journey_dynamics.Crypto.Events.{SerializedEvent, PiiEventCodec, Encodings}
use journey_dynamics.Crypto.Envelope.{Persisted}
use journey_dynamics.Crypto.Repository.{
  ReplayStreams, Streamed, PersistedEventRepository, at_least_one, feed_all, stream_of,
  InMemoryEventRepository, events_of, last_events, in_memory_events, CryptoShreddingEventRepository,
  get_events, stream_read, stream_events,
}

module _ {Feed : Type 0} (streams : ReplayStreams Feed) where
  -- A queue of the crate `cqrs_es`: it is made with any room but none, and takes an event while it
  -- is not full.
  abbrev pub Buffers : Type 0
  Buffers =
      ((n : ℕ)
        → 0 < n
        → (feed : Feed) × (streams.new n ≡ some feed)
          × (streams.queued feed ≡ [])
          × (streams.room feed ≡ n))
      × ((event : SerializedEvent) (feed : Feed)
          → length (streams.queued feed) < streams.room feed
          → (feed' : Feed) × (streams.push event feed ≡ some (ok feed'))
            × (streams.queued feed' ≡ streams.queued feed ++ event ∷ [])
            × (streams.room feed' ≡ streams.room feed))

  -- The stream is returned with these events in it, or the error is.
  abbrev pub Delivers : Persisted (List SerializedEvent) → Streamed Feed → Type 0
  Delivers (ok events) s = (feed : Feed) × (s ≡ some (ok feed)) × (streams.queued feed ≡ events)
  Delivers (err e) s = s ≡ some (err e)

  length-snoc :
      (xs : List SerializedEvent) (x : SerializedEvent) → length (xs ++ x ∷ []) ≡ length xs + 1
  length-snoc [] x = refl
  length-snoc (y ∷ xs) x = omega (arith, length-snoc xs x)

  feed_all_lem :
      (events : List SerializedEvent) (feed : Feed)
      → Buffers
      → length (streams.queued feed) + length events ≤ streams.room feed
      → (feed' : Feed) × (feed_all streams events feed ≡ some (ok feed'))
        × (streams.queued feed' ≡ streams.queued feed ++ events)
  unfolding feed_all
  feed_all_lem [] feed b h = (feed, refl, sym (append-nil (streams.queued feed)))
  feed_all_lem (event ∷ events) feed b h =
      let (feed₁, pushed, queued, room) = b.1 event feed (omega arith) in
      let (feed', ran, done) =
        feed_all_lem events feed₁ b
          (omega (arith, ap length queued, length-snoc (streams.queued feed) event)) in
      (
        feed',
        rw (feed_all, pushed) ran,
        done
            ∙ ap (λ l. l ++ events) queued
            ∙ append_assoc (streams.queued feed) (event ∷ []) events,
      )

  at_least_one-le : (n : ℕ) → (0 < at_least_one n) × (n ≤ at_least_one n)
  at_least_one-le zero = omega arith
  at_least_one-le (suc n) = omega arith

  pub stream_of-Delivers :
      (events : List SerializedEvent) → Buffers → Delivers (ok events) (stream_of streams events)
  unfolding stream_of
  stream_of-Delivers events b =
      let (positive, enough) = at_least_one-le (length events) in
      let (feed, made, empty, room) = b.0 (at_least_one (length events)) positive in
      let (feed', ran, queued) =
        feed_all_lem events feed b (omega (arith, ap length empty, room, enough)) in
      (feed', rw made ran, queued ∙ ap (λ l. l ++ events) empty)

  module _ (p : Primitives) (enc : Encodings) (codec : PiiEventCodec) {R S : Type 0}
      (repository : PersistedEventRepository R Feed) (store : KeyStore S) where
    stream_read-Delivers :
        (read : Persisted (List SerializedEvent))
        → Buffers
        → Delivers read (stream_read p enc codec repository store streams read)
    stream_read-Delivers (ok events) b = stream_of-Delivers events b
    stream_read-Delivers (err e) b = refl

    -- If a channel takes as many events as it has room for without waiting, `stream_events` ends,
    -- though nothing is received before it returns: where `get_events` gives events, its stream
    -- holds exactly these in their order, and where `get_events` fails it fails with the same
    -- error.
    pub stream_events-Delivers :
        (id : String) (r : CryptoShreddingEventRepository R S)
        → Buffers
        → Delivers
            (get_events p enc codec repository store streams id r)
            (stream_events p enc codec repository store streams id r)
    unfolding stream_events
    stream_events-Delivers id r b =
        stream_read-Delivers (get_events p enc codec repository store streams id r) b

abbrev pub min : ℕ → ℕ → ℕ
min a b = if leb a b then a else b

drop_lem :
    (n : ℕ) (xs : List SerializedEvent)
    → n ≤ length xs
    → (front : List SerializedEvent) × (xs ≡ front ++ drop n xs)
      × (length (drop n xs) ≡ length xs - n)
drop_lem zero xs h = ([], refl, omega arith)
drop_lem (suc n) [] h = absurd (omega arith)
drop_lem (suc n) (x ∷ xs) h =
    let (front, whole, rest) = drop_lem n xs (omega arith) in
    (x ∷ front, ap (λ l. x ∷ l) whole, omega (arith, rest))

-- `get_last_events` of the in-memory repository gives the last events of the aggregate: all of
-- them after some front of what `get_events` gives, as many as were asked for or as there are,
-- whichever is less.
pub get_last_events_lem :
    {Feed : Type 0} (streams : ReplayStreams Feed) (id : String) (n : ℕ)
    (r : InMemoryEventRepository)
    → (front : List SerializedEvent) × (last : List SerializedEvent) × ((in_memory_events
            streams).get_last_events
          id n r
        ≡ ok last)
      × ((in_memory_events streams).get_events id r ≡ ok (front ++ last))
      × (length last ≡ min n (length (events_of id r.events)))
unfolding in_memory_events last_events
get_last_events_lem streams id n r =
    let all = events_of id r.events in
    let (front, whole, size) = drop_lem (length all - n) all (omega arith) in
    (front, drop (length all - n) all, refl, ap ok whole, ground (arith, size))
