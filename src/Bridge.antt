-- ===== src/Bridge.antt =====
-- The service that drives the two halves: the folder bridge/, with FeedTx of pubchain/feed.go and
-- of cosbridge/feed.go.
pub mod Heights
pub mod Feed
pub mod OnHold
pub mod PubBlock
pub mod JoltBlock
pub mod Mint
pub mod Batches
pub mod Records
pub mod Transfers
