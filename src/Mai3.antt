-- ===== src/Mai3.antt =====
-- The package common/mai3: what a trade does to a trader's margin account and to the pool.
pub mod Storage
pub mod Account
pub mod Trade
pub mod Math
pub mod Amm
pub mod Pool
