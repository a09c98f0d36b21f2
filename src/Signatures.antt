-- ===== src/Signatures.antt =====
-- misc/helper.go: how a threshold signature becomes bytes, and how a recovery id is read.
pub mod Bytes
pub mod Base64
pub mod Serialize
pub mod Layout
pub mod RecoverId
pub mod RoundTrip
