-- ===== src/Lib.antt =====
-- Verification of journey_dynamics, an event-sourced workflow service whose personal data can be
-- erased by deleting keys.
--
-- The program. A command reaches the aggregate `Journey`, whose `handle` checks it against the
-- journey and the services and writes events; `apply` folds an event into the journey. Attribute
-- changes are keyed by JSON pointers, and a schema says which pointers hold a person's secrets: those
-- changes are grouped by subject, so that each group can be encrypted under a key of that subject.
-- The crate cqrs-es-crypto keeps one data key for each subject, wraps it under a versioned key
-- encryption key, deletes it to erase the subject's data, and re-wraps stale keys after a rotation.
--
-- An event's secrets are taken out of its payload by a codec, stored encrypted in the payload, and put
-- back or redacted when the event is read.
--
-- The files, with the code that each models:
--   Json            the JSON values and pointers, and the crates that work on them, as the record
--                   `Crates` of parameters (json_patch::merge, Pointer::assign, PointerBuf, Uuid)
--   Domain/Events   crates/journey_dynamics/src/domain/events.rs
--   Domain/Commands crates/journey_dynamics/src/domain/commands.rs
--   Domain/JsonPath crates/journey_dynamics/src/domain/json_path.rs: `flatten`, `assign_all`
--   Domain/Schema   crates/journey_dynamics/src/domain/attribute_schema.rs: `classify`,
--                   `classify_changes`, the configuration
--   Domain/Journey  crates/journey_dynamics/src/domain/journey.rs: State has the data and `apply`,
--                   Handle one function for each arm of `handle`; the other children are theorems
--   Services        crates/journey_dynamics/src/services/decision_engine.rs and schema_validator.rs
--   Crypto/Cipher, Crypto/PiiCipher   crates/cqrs-es-crypto/src/cipher.rs
--   Crypto/Kek      crates/cqrs-es-crypto/src/kek.rs: the provider interface and StaticKekProvider
--   Crypto/KeyStore crates/cqrs-es-crypto/src/key_store.rs: the trait and InMemoryKeyStore
--   Crypto/Rewrap   crates/cqrs-es-crypto/src/rewrap.rs: `RewrapWorker::run_once`
--   Crypto/Events, Crypto/Envelope, Crypto/Writing, Crypto/Reading
--                   crates/cqrs-es-crypto/src/repository.rs: the codec interface, `encrypt_events`
--                   and `decrypt_events`; Json/Map has the operations of `serde_json::Map`
--   Crypto/Repository   crates/cqrs-es-crypto/src/repository.rs: the repository trait of
--                   `CryptoShreddingEventRepository` without a pool, and `InMemoryEventRepository`
--   Crypto/Transaction  the same file: `encrypt_events_in_tx`, `persist_in_transaction` and its hooks
--   Crypto/Postgres crates/cqrs-es-crypto/src/key_store.rs: `PostgresKeyStore`; Refinement has it
--                   alone on a database, Interleaving among other processes
--   Derive          crates/cqrs-es-crypto-derive/src: Model is model.rs, Options and Parse are
--                   parse.rs, Codec the implementation that lib.rs generates, as a function of the
--                   models
--   PiiCodec        crates/journey_dynamics/src/pii_codec.rs: Taking has `extract_partitions`,
--                   Restoring the other methods of `JourneyPiiCodec`
--   ReadModel       crates/journey_dynamics/src/queries.rs: `JourneyView::update`; Tables and
--                   Projection are view_repository.rs: the tables, `apply_event_in_tx`, `dispatch`
--                   and `load`
--   SubjectLookup   crates/journey_dynamics/src/subject_lookup_hook.rs, and the searches of subjects
--                   by email in view_repository.rs
--   Erasing         crates/journey_dynamics/src/route_handler.rs: the erasure of a subject and by email
--   Requests        crates/journey_dynamics/src/command_extractor.rs, and `command_handler` of
--                   route_handler.rs
--   Examples        the theorems at concrete inputs
--   Base            Boolean tests, results, panics, ordered maps and texts
--
-- How the code is rendered. Names are those of the source in snake_case; a field or constructor that
-- is a keyword here has another name. A function that takes `&mut self` returns the new state. The
-- events that `handle` writes to its sink are the list that it returns: each arm reads the journey
-- before its first write. `Result` is `Result`; in the journey's `apply` a panic is `none`, in the
-- crypto crate it is the error `panic`. A `BTreeMap` is a list of entries in the order of its keys,
-- and so is a `HashMap`, since no result here depends on the order of a `HashMap`. A UUID is its
-- 128-bit number. Random keys and nonces are arguments. Async calls are plain calls; an operation of
-- `PostgresKeyStore` is a program of statements, so that other processes can act between them, and a
-- statement that fails may have had its effect.
--
-- The tables of Postgres are maps and lists. The read model and the write in one transaction run on a
-- database that fails on its constraints only, in an erasure every step may fail, and a transaction
-- that fails leaves the tables as they were.
--
-- Crates outside the repository are parameters: `Crates` for JSON and pointers, `Primitives` for
-- AES-256-GCM and AES-256-KWP, `Encodings` for UUIDs and base64 as texts, `JsonBytes` for JSON as
-- bytes, `Environment` for variables, `ReplayStreams` for the channels of cqrs_es. What the parser
-- reads of a syntax tree is data (syn). A theorem that relies on what such a crate does names it as a
-- hypothesis, `GcmOpens`, `GcmRejects`, `KwpUnwraps`, `Decodes` or `Buffers`; one on any key provider
-- asks of it `WrapsUnder` or `OpensOwn`. The operator `||` of jsonb and the
-- function `lower` of SQL are parameters too. The examples meet them with concrete functions.
--
-- Fuel. The loop of `run_once` is on fuel, one unit for each listing of stale subjects. Every listing
-- but the last re-wraps at least one subject, so a unit more than there are stale subjects is enough,
-- which is proved. The decimal print of a number is on fuel, one unit for each digit: it gets a unit
-- more than the number, which has no more digits. All else is structural recursion.
--
-- Not modelled: the lists and searches of views, the rest of the HTTP layer and the wiring, the arms
-- that the derive macro keeps for its tests, GoRulesDecisionEngine and JsonSchemaValidator (calls of other
-- crates), the clock, logging, and the scheduling of concurrent tasks other than the statements of the
-- key store.
pub mod Base
pub mod Json
pub mod Domain
pub mod Services
pub mod Crypto
pub mod PiiCodec
pub mod ReadModel
pub mod SubjectLookup
pub mod Erasing
pub mod Requests
pub mod Derive
pub mod Examples
