-- ===== src/Mai3/Amm.antt =====
-- common/mai3/amm.go: how the automated market maker of a pool prices a trade.
pub mod Context
pub mod Internal
pub mod Quote
