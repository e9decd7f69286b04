-- ===== src/Derive.antt =====
-- crates/cqrs-es-crypto-derive: the derive macro `PiiCodec`. Options reads an attribute, Parse
-- the enum into the model of Model, and Codec is what the generated code does.
pub mod Model
pub mod Options
pub mod Parse
pub mod Validation
pub mod Codec
pub mod Fields
pub mod Accepted
pub mod Redaction
pub mod RoundTrip
