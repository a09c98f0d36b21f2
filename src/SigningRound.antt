-- ===== src/SigningRound.antt =====
-- The batch signature of processEachOutBound (bridge/bridge_service.go): the goroutines of the
-- transfers, the one that collects their messages, and the broadcaster of pubchain/broadcast.go.
pub mod Broadcaster
pub mod Steps
pub mod Phases
pub mod Invariant
pub mod Workers
pub mod Messages
pub mod Keeps
pub mod Progress
pub mod Bound
pub mod Ends
