-- ===== src/Crypto/Transaction/Atomic.antt =====
-- A write is all or nothing, and never stores an event's key twice.
use mathlib.Core.List.{append-nil, append_assoc}
use journey_dynamics.Base.{
  ℕ, ◌^◌, String, Bool, true, false, ◌&&◌, ◌||◌, List, [], ◌∷◌, ◌++◌, any, All, ltb, ok, err,
  bind-eq-ok, ok-eq-ok, nat_ord, str_eq, eq_iff, ◌==◌, Bool-cases, ◌≡◌, refl, sym, ap, subst, ◌∙◌,
  inl, inr, arith,
}
use journey_dynamics.Crypto.Primitives.{error, Primitives}
use journey_dynamics.Crypto.Kek.{KekProvider}
use journey_dynamics.Crypto.Events.{
  SerializedEvent, optimistic_lock_error, PiiEventCodec, Encodings,
}
use journey_dynamics.Crypto.Envelope.{Persisted}
use journey_dynamics.Crypto.Writing.{Draw}
use journey_dynamics.Crypto.Postgres.{Table}
use journey_dynamics.Crypto.Repository.{SnapshotUpdate}
use journey_dynamics.Crypto.Transaction.{
  encrypt_events_in_tx, Database, PersistHook, same_key, fits_i64, insert_event, insert_events,
  write_snapshot, call_hooks, statements, commit, persist_in_transaction,
}

str_eq_sym : (a b : String) → str_eq a b ≡ true → str_eq b a ≡ true
str_eq_sym a b h = (eq_iff b a).1 (sym ((eq_iff a b).0 h))

both : (a b : Bool) → a && b ≡ true → (a ≡ true) × (b ≡ true)
both true b h = (refl, h)
both false b h = cc

same_key_sym : (e f : SerializedEvent) → same_key e f ≡ true → same_key f e ≡ true
same_key_sym e f h =
    let (named, sequences) =
      both (str_eq e.aggregate_type f.aggregate_type && str_eq e.aggregate_id f.aggregate_id)
        (e.sequence == f.sequence) h in
    let (types, ids) =
      both (str_eq e.aggregate_type f.aggregate_type) (str_eq e.aggregate_id f.aggregate_id)
        named in
    rw
      (
        str_eq_sym e.aggregate_type f.aggregate_type types,
        str_eq_sym e.aggregate_id f.aggregate_id ids,
      )
      (ground (arith, sequences))

-- No two events have the same key.
abbrev pub Unique : List SerializedEvent → Type 0
Unique [] = Unit
Unique (e ∷ es) = (any (same_key e) es ≡ false) × Unique es

any-append :
    (e x : SerializedEvent) (es : List SerializedEvent)
    → any (same_key e) (es ++ x ∷ []) ≡ (any (same_key e) es || same_key e x)
any-append e x [] = ground arith
any-append e x (f ∷ es) = ground (arith, any-append e x es)

neither : (a b : Bool) → a || b ≡ false → (a ≡ false) × (b ≡ false)
neither true b h = cc
neither false b h = (refl, h)

snoc-Unique :
    (x : SerializedEvent) (es : List SerializedEvent)
    → any (same_key x) es ≡ false
    → Unique es
    → Unique (es ++ x ∷ [])
snoc-Unique x [] h u = (refl, tt)
snoc-Unique x (e ∷ es) h u =
    let (differs, others) = neither (same_key x e) (any (same_key x) es) h in
    (any-append e x es ∙ rw (u.0, back differs) refl, snoc-Unique x es others u.1)
  where
    back : same_key x e ≡ false → same_key e x ≡ false
    back d = elim (Bool-cases (same_key e x)) [
      | inl same ↦ let other = same_key_sym e x same in cc
      | inr differs ↦ differs
    ]

-- The event is stored, after those that are there.
insert_event-Unique :
    (event : SerializedEvent) (stored stored' : List SerializedEvent)
    → insert_event event stored ≡ ok stored'
    → (stored ++ event ∷ [] ≡ stored') × (Unique stored → Unique stored')
insert_event-Unique event stored stored' h = elim (Bool-cases (any (same_key event) stored)) [
  | inl conflict ↦ absurd (refused conflict)
  | inr free ↦
      let same = ok-eq-ok _ (granted free) h in
      (same, λ u. subst Unique same (snoc-Unique event stored free u))
]
  where
    granted :
        any (same_key event) stored ≡ false → insert_event event stored ≡ ok (stored ++ event ∷ [])
    granted free = rw free refl

    refused : any (same_key event) stored ≡ true → ⊥
    refused conflict =
        let no : insert_event event stored ≡ err (error optimistic_lock_error) = rw conflict refl in
        cc

insert_events-Unique :
    (events stored stored' : List SerializedEvent)
    → insert_events events stored ≡ ok stored'
    → (stored ++ events ≡ stored') × (Unique stored → Unique stored')
unfolding insert_events
insert_events-Unique [] stored stored' h =
    let same = ok-eq-ok _ refl h in (append-nil stored ∙ same, λ u. subst Unique same u)
insert_events-Unique (event ∷ events) stored stored' h =
    let (n, fits, rest) = bind-eq-ok (fits_i64 event.sequence) _ h in
    let (stored₁, put, later) = bind-eq-ok (insert_event event stored) _ rest in
    let (same, unique) = insert_event-Unique event stored stored₁ put in
    let (same', unique') = insert_events-Unique events stored₁ stored' later in
    (
      sym (append_assoc stored (event ∷ []) events) ∙ ap (λ l. l ++ events) same ∙ same',
      λ u. unique' (unique u),
    )

or_true : (a : Bool) → a || true ≡ true
or_true true = refl
or_true false = refl

other_true : (a b : Bool) → a ≡ false → a || b ≡ true → b ≡ true
other_true a b free h = ground (arith, free, h)

insert_events_conflict :
    (events stored : List SerializedEvent)
    → All (λ e. ltb e.sequence (2 ^ 63) ≡ true) events
    → any (λ e. any (same_key e) stored) events ≡ true
    → insert_events events stored ≡ err (error optimistic_lock_error)
unfolding insert_events
insert_events_conflict [] stored fits h = cc
insert_events_conflict (event ∷ events) stored (fit, fits) h =
    elim (Bool-cases (any (same_key event) stored)) [
      | inl conflict ↦ rw (fit, conflict) refl
      | inr free ↦
          rw (fit, free)
            (insert_events_conflict events (stored ++ event ∷ []) fits
              (grows events (other_true (any (same_key event) stored) _ free h)))
    ]
  where
    grows :
        (es : List SerializedEvent)
        → any (λ e. any (same_key e) stored) es ≡ true
        → any (λ e. any (same_key e) (stored ++ event ∷ [])) es ≡ true
    grows [] h = h
    grows (e ∷ es) h =
        let more = any-append e event stored in
        elim (Bool-cases (any (same_key e) stored)) [
          | inl found ↦ rw (more, found) refl
          | inr free ↦ rw (grows es (other_true (any (same_key e) stored) _ free h)) (or_true _)
        ]

module _ (p : Primitives) (enc : Encodings) (codec : PiiEventCodec) (provider : KekProvider)
    {L : Type 0} (hooks : List (PersistHook L)) (aggregate_type : String) (draws : ℕ → ℕ → Draw)
    (events : List SerializedEvent) (snapshot_update : SnapshotUpdate) where
  -- What a write has done that was committed.
  pub record Committed (before after : Database L) : Type 0 where
    pub encrypted : List SerializedEvent
    pub encryption :
        encrypt_events_in_tx p enc codec provider draws 0 events before.keys
        ≡ ok (encrypted, after.keys)
    pub stored : before.events ++ encrypted ≡ after.events
    pub unique : Unique before.events → Unique after.events
    pub snapshot :
        write_snapshot aggregate_type snapshot_update encrypted before.snapshots
        ≡ ok after.snapshots
    pub called : call_hooks hooks events before.hooked ≡ ok after.hooked

  abbrev pub IsAtomic : Database L → Persisted (Unit {0}) × Database L → Type 0
  IsAtomic before (ok u, after) = Committed before after
  IsAtomic before (err e, after) = after ≡ before

  statements-IsAtomic :
      (before : Database L) (r : Persisted (Database L))
      → statements p enc codec provider hooks aggregate_type draws events snapshot_update before ≡ r
      → IsAtomic before (commit p enc codec provider hooks aggregate_type before r)
  statements-IsAtomic before (err e) h = refl
  statements-IsAtomic before (ok after) h =
      let (encrypted, ran, h₁) =
        bind-eq-ok (encrypt_events_in_tx p enc codec provider draws 0 events before.keys) _ h in
      let (stored, put, h₂) = bind-eq-ok (insert_events encrypted.0 before.events) _ h₁ in
      let (snapshots, snapped, h₃) =
        bind-eq-ok (write_snapshot aggregate_type snapshot_update encrypted.0 before.snapshots) _
          h₂ in
      let (hooked, called, last) = bind-eq-ok (call_hooks hooks events before.hooked) _ h₃ in
      let (same, unique) = insert_events-Unique encrypted.0 before.events stored put in
      subst (Committed before) (ok-eq-ok _ refl last) (record {
        encrypted = encrypted.0;
        encryption = ran;
        stored = same;
        unique = unique;
        snapshot = snapped;
        called = called;
      })

  -- `persist_in_transaction`, on a database that fails on its constraints only, is all or nothing:
  -- if it fails, the database is as it was; if it succeeds, the keys are those that the encryption
  -- of the batch leaves, the encrypted events stand after the stored ones, the snapshot and what
  -- the hooks write are stored too, and no two events have the same key of aggregate type,
  -- aggregate id and sequence, if no two had it before.
  pub persist_in_transaction-IsAtomic :
      (before : Database L)
      → IsAtomic before (
          persist_in_transaction p enc codec provider hooks aggregate_type draws events
            snapshot_update before)
  unfolding persist_in_transaction
  persist_in_transaction-IsAtomic before = statements-IsAtomic before _ refl

  -- If the batch is encrypted, its sequence numbers are below 2^63 and one of its events has the
  -- key of a stored event, `persist_in_transaction` fails with the optimistic lock error and
  -- leaves the database as it was.
  pub persist_in_transaction_conflict :
      (before : Database L) (encrypted : List SerializedEvent) (keys : Table)
      → encrypt_events_in_tx p enc codec provider draws 0 events before.keys ≡ ok (encrypted, keys)
      → All (λ e. ltb e.sequence (2 ^ 63) ≡ true) encrypted
      → any (λ e. any (same_key e) before.events) encrypted ≡ true
      → persist_in_transaction p enc codec provider hooks aggregate_type draws events
          snapshot_update before
        ≡ (err (error optimistic_lock_error), before)
  unfolding persist_in_transaction
  persist_in_transaction_conflict before encrypted keys ran fits conflict =
      rw (ran, insert_events_conflict encrypted before.events fits conflict) refl
