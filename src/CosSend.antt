-- ===== src/CosSend.antt =====
-- Transactions of the joltify chain: cosbridge/bridge.go and cosbridge/helper.go, from the messages
-- to the broadcast, and SubmitOutboundTx of cosbridge/submit_outboundtx.go.
pub mod TxConfig
pub mod Gas
pub mod Single
pub mod Batch
pub mod Submit
pub mod Origins
pub mod Hashes
