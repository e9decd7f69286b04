-- ===== src/Examples/Transactions.antt =====
-- The theorems on the write in one transaction, and on the hook, at concrete batches.
use journey_dynamics.Base.{
  ℕ, String, true, false, Option, none, some, [], ◌∷◌, ok, err, nat_ord, ◌≡◌, refl,
}
use journey_dynamics.Base.BTreeMap.{get, insert}
use journey_dynamics.Json.{Uuid, string, object, entry, end}
use journey_dynamics.Json.Map.{object_get}
use journey_dynamics.Crypto.Primitives.{zeros, error}
use journey_dynamics.Crypto.Kek.{KekProvider, static_provider}
use journey_dynamics.Crypto.Events.{SerializedEvent, optimistic_lock_error, PiiEventCodec}
use journey_dynamics.Crypto.Writing.{Draw, encrypt_events}
use journey_dynamics.Crypto.Postgres.{postgres}
use journey_dynamics.Crypto.Transaction.{
  Database, PersistHook, encrypt_events_in_tx, persist_in_transaction,
}
use journey_dynamics.Crypto.Transaction.Encryption.{Matches, encrypt_events_in_tx-Matches}
use journey_dynamics.Crypto.Transaction.Atomic.{
  IsAtomic, persist_in_transaction-IsAtomic, persist_in_transaction_conflict,
}
use journey_dynamics.SubjectLookup.{
  Lookup, captured, record_emails, on_persist, last_email, is_found, has_email,
  delete_subject_lookup, find_subjects_by_email_lem,
}
use journey_dynamics.Examples.Fixtures.{clear}
use journey_dynamics.Examples.Codes.{stroke_codes}
use journey_dynamics.Examples.Erasure.{event, codec, draw}

abbrev provider : KekProvider
provider = static_provider clear (record { primary = "v1"; keks = ("v1", zeros 32) ∷ [] })

abbrev draws : ℕ → ℕ → Draw
draws n = draw

abbrev parse : String → Option Uuid
parse s = some 3

abbrev lower : String → String
lower s = "ada@x"

abbrev hook : PersistHook Lookup
hook = on_persist parse lower

abbrev empty : Database Lookup
empty = record { keys = []; events = []; snapshots = []; hooked = [] }

encrypt_events_in_tx-Matches_example :
    Matches
      (encrypt_events_in_tx clear stroke_codes codec provider draws 0 (event ∷ []) [])
      (encrypt_events clear stroke_codes codec (postgres provider true) draws 0 (event ∷ []) [])
encrypt_events_in_tx-Matches_example =
    encrypt_events_in_tx-Matches clear stroke_codes codec provider true draws 0 (event ∷ []) []

persist_in_transaction-IsAtomic_example :
    IsAtomic clear stroke_codes codec provider (hook ∷ []) "Journey" draws (event ∷ []) none empty (
      persist_in_transaction clear stroke_codes codec provider
        (hook ∷ [])
        "Journey"
        draws
        (event ∷ [])
        none
        empty)
persist_in_transaction-IsAtomic_example =
    persist_in_transaction-IsAtomic clear stroke_codes codec provider (hook ∷ []) "Journey" draws
      (event ∷ []) none empty

-- Another process has stored an event under the same number.
abbrev plain_codec : PiiEventCodec
plain_codec = record codec { extract_partitions = λ e. ok (e, []) }

abbrev taken : Database Lookup
taken = record empty { events = record event { event_type = "JourneyClosed" } ∷ [] }

persist_in_transaction_conflict_example :
    persist_in_transaction clear stroke_codes plain_codec provider
      (hook ∷ [])
      "Journey"
      draws
      (event ∷ [])
      none
      taken
    ≡ (err (error optimistic_lock_error), taken)
unfolding encrypt_events_in_tx
persist_in_transaction_conflict_example =
    persist_in_transaction_conflict clear stroke_codes plain_codec provider (hook ∷ []) "Journey"
      draws (event ∷ []) none taken (event ∷ []) [] refl (refl, tt) refl

abbrev capture : SerializedEvent
capture = record event {
  event_type = "PersonCaptured";
  payload = object (
      entry "PersonCaptured"
        (object (entry "email" (string "Ada@X") (entry "subject_id" (string "three") end))) end);
}

find_subjects_by_email_lem_example :
    (is_found parse lower 3 "ADA@X" ((3, "ada@x") ∷ [])
      ≡ has_email parse lower "ADA@X" (last_email parse lower 3 (capture ∷ []) none))
    × (is_found parse lower 3 "ADA@X" (delete_subject_lookup 3 ((3, "ada@x") ∷ [])) ≡ false)
unfolding on_persist record_emails captured object_get get insert
find_subjects_by_email_lem_example =
    find_subjects_by_email_lem parse lower 3 "ADA@X" (capture ∷ []) [] ((3, "ada@x") ∷ []) tt refl
