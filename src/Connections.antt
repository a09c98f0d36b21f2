-- ===== src/Connections.antt =====
-- The connections to the chains and their renewal: pubchain/retry.go and cosbridge/retry.go, with
-- the health checks of pubchain/helper.go, and the waits for the outcome of a transaction.
pub mod PubChainConn
pub mod JoltConn
pub mod Renewed
pub mod TxStatus
pub mod Decided
