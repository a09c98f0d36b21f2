-- ===== src/Common.antt =====
-- common/: the types that the two sides of the bridge share, their hashes and queue indices, the
-- decimal adjustment of amounts and the bridge fee. The children hold the code and its proofs.
pub mod Libraries
pub mod Types
pub mod Hex
pub mod Decimal
pub mod Requests
pub mod Decimals
pub mod Fee
