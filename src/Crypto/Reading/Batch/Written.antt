-- ===== src/Crypto/Reading/Batch/Written.antt =====
-- Several events that are written together: what `encrypt_events` stores of each, and how it reads.
use journey_dynamics.Base.{ℕ, suc, none, List, [], ◌∷◌, All, ok, ◌>>=◌, String, ◌≡◌, refl, ◌∙◌}
use journey_dynamics.Json.{Object}
use journey_dynamics.Json.Map.{object_get}
use journey_dynamics.Crypto.Primitives.{Primitives, GcmOpens}
use journey_dynamics.Crypto.KeyStore.{InMemoryKeyStore, in_memory}
use journey_dynamics.Crypto.Events.{SerializedEvent, SecretPartition, PiiEventCodec, Encodings}
use journey_dynamics.Crypto.Envelope.{Persisted}
use journey_dynamics.Crypto.Writing.{Draw, encrypt_event, encrypt_events}
use journey_dynamics.Crypto.Reading.{put_back, envelope_of}
use journey_dynamics.Crypto.Reading.RoundTrip.{whole, encrypt_event-sealed}
use journey_dynamics.Crypto.KeyStore.Holding.{StoreSized, Kept}
use journey_dynamics.Crypto.Reading.RoundTrip.Parts.{Decodes, DrawsSized, outcomes}
use journey_dynamics.Crypto.Reading.Batch.{
  Keys, Entry, stored_events, read_all, Holds, sealed_entry, sealed_entry-Reads, plain_entry,
  plain_entry-Reads, Reads-Kept,
}

abbrev pub IsOf : String → SerializedEvent → Type 0
IsOf aggregate_id event = event.aggregate_id ≡ aggregate_id

module _ (p : Primitives) (enc : Encodings) (codec : PiiEventCodec) where
  -- What the codec takes out of an event: nothing, and what is left has neither encrypted shape;
  -- or partitions, and it leaves an object at the event's type without the keys of the envelope.
  -- It leaves the aggregate's id.
  pub data Written (event : SerializedEvent) : Type 0 where
    plain :
        (left : SerializedEvent)
        → left.aggregate_id ≡ event.aggregate_id
        → codec.extract_partitions event ≡ ok (left, [])
        → envelope_of p enc codec left ≡ none
        → codec.extract_encrypted_legacy left ≡ none
        → Written event
    secret :
        (extracted : SerializedEvent) (inner : Object) (part : SecretPartition)
        (parts : List SecretPartition)
        → extracted.aggregate_id ≡ event.aggregate_id
        → codec.extract_partitions event ≡ ok (whole extracted inner, part ∷ parts)
        → object_get "encrypted_partitions" inner ≡ none
        → object_get "subjects" inner ≡ none
        → Written event

  -- What is read of a written event with these keys.
  abbrev pub reads_back :
      {event : SerializedEvent} → Written event → Keys → Persisted SerializedEvent
  reads_back (plain left _ _ _ _) keys = ok left
  reads_back (secret extracted inner part parts _ _ _ _) keys =
      put_back p enc codec (whole extracted inner) (outcomes keys (part ∷ parts))

  abbrev pub all_read_back :
      (events : List SerializedEvent) → All Written events → Keys → Persisted (List SerializedEvent)
  all_read_back [] ws keys = ok []
  all_read_back (event ∷ events) ws keys =
      reads_back ws.0 keys >>= λ first. all_read_back events ws.1 keys >>= λ rest. ok (first ∷ rest)

  -- One event that was written: its entry.
  pub record Stored (event : SerializedEvent) (w : Written event) (s s' : InMemoryKeyStore)
      (e : Entry) : Type 0 where
    pub held : Holds p enc codec s' (e ∷ [])
    pub kept : Kept s s'
    pub sized : StoreSized s'
    pub same : (keys : Keys) → e.expected keys ≡ reads_back w keys
    pub owner : e.stored.aggregate_id ≡ event.aggregate_id

  encrypt_event-Stored :
      (draw : ℕ → Draw) (event : SerializedEvent) (w : Written event) (s : InMemoryKeyStore)
      → GcmOpens p
      → Decodes enc
      → DrawsSized draw
      → StoreSized s
      → (e : Entry) × (s' : InMemoryKeyStore) × (encrypt_event p enc codec in_memory draw 0 event s
          ≡ (ok e.stored, s'))
        × Stored event w s s' e
  unfolding encrypt_event
  encrypt_event-Stored draw event (plain left own taken e l) s opens decodes sized h = (
    plain_entry left,
    s,
    rw taken refl,
    record {
      held = (plain_entry-Reads p enc codec left s e l, tt);
      kept = λ u k f. f;
      sized = h;
      same = λ keys. refl;
      owner = own;
    },
  )
  encrypt_event-Stored draw event (secret extracted inner part parts own taken e sub) s opens
        decodes sized h =
      let (sealed, s', ran, done) =
        encrypt_event-sealed p enc codec draw 0 event extracted inner part parts s opens decodes
          sized h taken in
      (
        sealed_entry p enc codec extracted inner (part ∷ parts) sealed,
        s',
        ran,
        record {
          held = (
            sealed_entry-Reads p enc codec extracted inner (part ∷ parts) s s' sealed e sub done,
            tt,
          );
          kept = done.kept;
          sized = done.store_sized;
          same = λ keys. refl;
          owner = own;
        },
      )

  pub record AllStored (events : List SerializedEvent) (ws : All Written events)
      (s s' : InMemoryKeyStore) (es : List Entry) : Type 0 where
    pub held : Holds p enc codec s' es
    pub kept : Kept s s'
    pub sized : StoreSized s'
    pub same : (keys : Keys) → read_all keys es ≡ all_read_back events ws keys
    pub owners : (id : String) → All (IsOf id) events → All (IsOf id) (stored_events es)

  pub encrypt_events-AllStored :
      (draws : ℕ → ℕ → Draw) (i : ℕ) (events : List SerializedEvent) (ws : All Written events)
      (s : InMemoryKeyStore)
      → GcmOpens p
      → Decodes enc
      → ((n : ℕ) → DrawsSized (draws n))
      → StoreSized s
      → (es : List Entry) × (s' : InMemoryKeyStore) × (encrypt_events p enc codec in_memory draws i
            events s
          ≡ (ok (stored_events es), s'))
        × AllStored events ws s s' es
  unfolding encrypt_events
  encrypt_events-AllStored draws i [] ws s opens decodes sized h = (
    [],
    s,
    refl,
    record { held = tt; kept = λ u k f. f; sized = h; same = λ keys. refl; owners = λ id h. h },
  )
  encrypt_events-AllStored draws i (event ∷ events) ws s opens decodes sized h =
      let (e, s₁, ran, one) =
        encrypt_event-Stored (draws i) event ws.0 s opens decodes (sized i) h in
      let (es, s', rest, later) =
        encrypt_events-AllStored draws (suc i) events ws.1 s₁ opens decodes sized one.sized in
      (
        e ∷ es,
        s',
        rw (ran, rest) refl,
        record {
          held = (Reads-Kept p enc codec s₁ s' later.kept e one.held.0, later.held);
          kept = λ u k f. later.kept u k (one.kept u k f);
          sized = later.sized;
          same = λ keys. rw (one.same keys, later.same keys) refl;
          owners = λ id h. (one.owner ∙ h.0, later.owners id h.1);
        },
      )
