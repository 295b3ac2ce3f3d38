-- ===== src/Orderbook.antt =====
-- common/orderbook/orderbook.go: the in-memory book of the orders that wait for a match.
pub mod Containers
pub mod Level
pub mod Book
pub mod Prices
