-- ===== src/Inbound.antt =====
-- Deposits on the public chains: pubchain/tx_inbound.go. The answers of the nodes, the ABI and the
-- JSON decoders are arguments.
pub mod Erc20
pub mod Blocks
pub mod Quiet
pub mod Amounts
