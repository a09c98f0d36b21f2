-- ===== src/MoveFund.antt =====
-- Moving the funds of an old pool: pubchain/move_fund.go.
pub mod Items
pub mod Oldest
pub mod Native
pub mod Found
pub mod Emptied
pub mod Settled
