-- ===== src/Match.antt =====
-- The package match: the matching engine of one perpetual.
pub mod World
pub mod Memory
pub mod Settle
pub mod Rollback
pub mod Cancel
pub mod CloseOnly
pub mod Chain
pub mod Available
pub mod Item
pub mod Side
pub mod Execute
pub mod PoolSyncer
pub mod Round
pub mod OrderChecks
pub mod NewOrder
pub mod Invariant
pub mod Monitor
pub mod Server
