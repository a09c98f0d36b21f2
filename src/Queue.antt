-- ===== src/Queue.antt =====
-- The retry pools and the on-hold queues: cosbridge/oppy_item_process.go and
-- pubchain/public_items_process.go.
pub mod PopLoop
pub mod Outbound
pub mod Inbound
pub mod Pops
