-- ===== src/Crypto.antt =====
-- The crate crates/cqrs-es-crypto: field encryption, key encryption keys and the store of data
-- encryption keys.
pub mod Primitives
pub mod Cipher
pub mod PiiCipher
pub mod Kek
pub mod KeyStore
pub mod Postgres
pub mod Rewrap
pub mod Events
pub mod Envelope
pub mod Writing
pub mod Reading
pub mod Repository
pub mod Transaction
