-- ===== src/Examples.antt =====
-- The theorems at concrete inputs.
mod Libraries
mod Instances
mod Queues
mod Pools
mod Transfers
mod Services
mod Signing
mod Sending
mod Restarts
mod Renewals
