-- ===== src/Crypto/Transaction.antt =====
-- crates/cqrs-es-crypto/src/repository.rs: the write in one transaction, on a database that fails
-- on its constraints only and has no other writer meanwhile. An error drops the transaction, which
-- leaves the database as it was.
pub mod Encryption
pub mod Atomic
use journey_dynamics.Base.{
  ℕ, suc, ◌^◌, String, Bool, true, false, ◌&&◌, Option, none, some, List, [], ◌∷◌, ◌++◌, any, ltb,
  Result, ok, err, nat_ord, str_eq, ◌==◌, if◌then◌else◌, ◌>>=◌,
}
use journey_dynamics.Base.BTreeMap.{BTreeMap, get}
use journey_dynamics.Json.{Uuid, Value}
use journey_dynamics.Crypto.Primitives.{Failure, panic, error, expect, Primitives}
use journey_dynamics.Crypto.Cipher.{KeyMaterial}
use journey_dynamics.Crypto.Kek.{WrappedDek, KekProvider}
use journey_dynamics.Crypto.Events.{
  SerializedEvent, SecretPartition, PersistenceError, optimistic_lock_error, wrapping_error,
  database_error, codec_error, PiiEventCodec, Encodings,
}
use journey_dynamics.Crypto.Envelope.{add_envelope, change_inner, Persisted, boxed, Sealed}
use journey_dynamics.Crypto.Writing.{Draw, seal}
use journey_dynamics.Crypto.Postgres.{Row, Table, dek_of, insert_new}
use journey_dynamics.Crypto.Repository.{SnapshotUpdate}

module _ (provider : KekProvider) where
  -- `provider.unwrap(…)` of a row
  abbrev pub opened : Table → Row → Persisted (KeyMaterial × Table)
  opened t row =
      boxed wrapping_error (provider.unwrap (dek_of row)) >>= λ material. ok (material, t)

  -- `fetch_one` after a lost race
  abbrev pub reread : Table → Option Row → Persisted (KeyMaterial × Table)
  reread t none = err (
      error (database_error "no rows returned by a query that expected to return at least one row"))
  reread t (some row) = opened t row

  -- After the INSERT.
  abbrev pub inserted : KeyMaterial → Uuid → ℕ × Table → Persisted (KeyMaterial × Table)
  inserted dek u (rows_affected, t) = if rows_affected == 0 then reread t (get u t) else ok (dek, t)

  abbrev pub create_in_tx :
      KeyMaterial → Uuid → Table → Option Row → Persisted (KeyMaterial × Table)
  create_in_tx dek u t (some row) = opened t row
  create_in_tx dek u t none =
      boxed wrapping_error (provider.wrap provider.current dek) >>= λ wrapped. inserted dek u (
        insert_new u
          (record {
            key_id = dek.key_id;
            wrapped_key = wrapped.wrapped_key;
            kek_id = wrapped.kek_id;
          })
          t)

  unfoldable pub get_or_create_key_in_tx :
      KeyMaterial → Uuid → Table → Persisted (KeyMaterial × Table)
  unfolding insert_new
  get_or_create_key_in_tx dek u t = create_in_tx dek u t (get u t)

module _ (p : Primitives) (enc : Encodings) (codec : PiiEventCodec) (provider : KekProvider) where
  -- The loop over the partitions of an event; `n` counts the draws.
  unfoldable pub encrypt_parts_in_tx :
      (ℕ → Draw)
      → SerializedEvent
      → ℕ
      → List SecretPartition
      → Table
      → Persisted (List Sealed × Table)
  unfolding get_or_create_key_in_tx
  encrypt_parts_in_tx draw event n [] t = ok ([], t)
  encrypt_parts_in_tx draw event n (part ∷ parts) t =
      get_or_create_key_in_tx provider (draw n).key part.subject_id t >>= λ key.
      seal p enc codec event part (draw n).nonce key.0 >>= λ sealed.
      encrypt_parts_in_tx draw event (suc n) parts key.1 >>= λ rest. ok (sealed ∷ rest.0, rest.1)

  abbrev pub encrypt_extracted_in_tx :
      (ℕ → Draw)
      → SerializedEvent × List SecretPartition
      → Table
      → Persisted (SerializedEvent × Table)
  encrypt_extracted_in_tx draw (event, []) t = ok (event, t)
  encrypt_extracted_in_tx draw (event, part ∷ parts) t =
      encrypt_parts_in_tx draw event 0 (part ∷ parts) t >>= λ sealed.
      expect (change_inner (add_envelope sealed.0) event) >>= λ event'. ok (event', sealed.1)

  -- The loop of `encrypt_events_in_tx`.
  unfoldable pub encrypt_events_in_tx :
      (ℕ → ℕ → Draw) → ℕ → List SerializedEvent → Table → Persisted (List SerializedEvent × Table)
  unfolding encrypt_parts_in_tx
  encrypt_events_in_tx draws i [] t = ok ([], t)
  encrypt_events_in_tx draws i (event ∷ events) t =
      boxed codec_error (codec.extract_partitions event) >>= λ extracted.
      encrypt_extracted_in_tx (draws i) extracted t >>= λ first.
      encrypt_events_in_tx draws (suc i) events first.1 >>= λ rest. ok (first.0 ∷ rest.0, rest.1)

pub record SnapshotRow : Type 0 where
  pub aggregate_type : String
  pub aggregate_id : String
  pub last_sequence : ℕ
  pub current_snapshot : ℕ
  pub payload : Value

-- The tables, and what the hooks write.
pub record Database (L : Type 0) : Type 0 where
  pub keys : Table
  pub events : List SerializedEvent
  pub snapshots : List SnapshotRow
  pub hooked : L

-- `PersistHook::on_persist`
abbrev pub PersistHook : Type 0 → Type 0
PersistHook L = List SerializedEvent → L → Persisted L

-- The primary key of `events`.
abbrev pub same_key : SerializedEvent → SerializedEvent → Bool
same_key e f =
    str_eq e.aggregate_type f.aggregate_type
    && str_eq e.aggregate_id f.aggregate_id
    && (e.sequence == f.sequence)

-- `i64::try_from(…).expect(…)`
abbrev pub fits_i64 : ℕ → Persisted ℕ
fits_i64 n = if ltb n (2 ^ 63) then ok n else err panic

-- INSERT INTO events, whose error `map_sqlx_error` translates
abbrev pub insert_event : SerializedEvent → List SerializedEvent → Persisted (List SerializedEvent)
insert_event event stored =
    if any (same_key event) stored
    then err (error optimistic_lock_error)
    else ok (stored ++ event ∷ [])

unfoldable pub insert_events :
    List SerializedEvent → List SerializedEvent → Persisted (List SerializedEvent)
insert_events [] stored = ok stored
insert_events (event ∷ events) stored =
    fits_i64 event.sequence >>= λ sequence. insert_event event stored >>= insert_events events

-- `encrypted.last().map_or(0, …)`
abbrev pub last_sequence_of : List SerializedEvent → Persisted ℕ
last_sequence_of [] = ok 0
last_sequence_of (event ∷ []) = fits_i64 event.sequence
last_sequence_of (event ∷ events) = last_sequence_of events

-- INSERT INTO snapshots … ON CONFLICT DO UPDATE
unfoldable pub upsert_snapshot : SnapshotRow → List SnapshotRow → List SnapshotRow
upsert_snapshot row [] = row ∷ []
upsert_snapshot row (old ∷ rows) =
    let rest = upsert_snapshot row rows in
    if str_eq old.aggregate_type row.aggregate_type && str_eq old.aggregate_id row.aggregate_id
    then row ∷ rows
    else old ∷ rest

unfoldable pub write_snapshot :
    String → SnapshotUpdate → List SerializedEvent → List SnapshotRow → Persisted (List SnapshotRow)
unfolding upsert_snapshot
write_snapshot aggregate_type none encrypted rows = ok rows
write_snapshot aggregate_type (some (aggregate_id, aggregate, current_snapshot)) encrypted rows =
    last_sequence_of encrypted >>= λ last_sequence. fits_i64 current_snapshot >>= λ current. ok (
      upsert_snapshot
        (record {
          aggregate_type = aggregate_type;
          aggregate_id = aggregate_id;
          last_sequence = last_sequence;
          current_snapshot = current;
          payload = aggregate;
        })
        rows)

unfoldable pub call_hooks :
    {L : Type 0} → List (PersistHook L) → List SerializedEvent → L → Persisted L
call_hooks [] events l = ok l
call_hooks (hook ∷ hooks) events l = hook events l >>= call_hooks hooks events

module _ (p : Primitives) (enc : Encodings) (codec : PiiEventCodec) (provider : KekProvider)
    {L : Type 0} (hooks : List (PersistHook L)) (aggregate_type : String) where
  -- The statements, up to the commit.
  abbrev pub statements :
      (ℕ → ℕ → Draw) → List SerializedEvent → SnapshotUpdate → Database L → Persisted (Database L)
  statements draws events snapshot_update db = do
    encrypted ← encrypt_events_in_tx p enc codec provider draws 0 events db.keys
    stored ← insert_events encrypted.0 db.events
    snapshots ← write_snapshot aggregate_type snapshot_update encrypted.0 db.snapshots
    hooked ← call_hooks hooks events db.hooked
    ok (record { keys = encrypted.1; events = stored; snapshots = snapshots; hooked = hooked })

  -- The end of the transaction.
  abbrev pub commit : Database L → Persisted (Database L) → Persisted (Unit {0}) × Database L
  commit before (ok after) = (ok tt, after)
  commit before (err e) = (err e, before)

  unfoldable pub persist_in_transaction :
      (ℕ → ℕ → Draw)
      → List SerializedEvent
      → SnapshotUpdate
      → Database L
      → Persisted (Unit {0}) × Database L
  unfolding encrypt_events_in_tx insert_events write_snapshot call_hooks
  persist_in_transaction draws events snapshot_update db =
      commit db (statements draws events snapshot_update db)
