-- ===== src/PiiCodec.antt =====
-- crates/journey_dynamics/src/pii_codec.rs: `JourneyPiiCodec`, which takes the secrets out of an
-- event's payload and puts them, or a redaction, back.
mod Taking
mod Restoring
pub mod Captured
pub use Taking.*
pub use Restoring.*
use journey_dynamics.Crypto.Events.{PiiEventCodec, Encodings}

module _ (enc : Encodings) (jb : JsonBytes) where
  -- `impl PiiEventCodec for JourneyPiiCodec`
  unfoldable pub journey_codec : PiiEventCodec
  journey_codec = record {
    extract_partitions = extract_partitions enc jb;
    reconstruct = reconstruct enc jb;
    redact_partitions = redact_partitions enc jb;
    extract_encrypted_legacy = extract_encrypted_legacy enc jb;
  }
