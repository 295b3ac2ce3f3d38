-- ===== src/Tests.antt =====
-- Concrete containers, database and floating point numbers, and runs of the code on them.
pub mod Containers
pub mod Data
mod Amounts
mod Books
mod Handlers
pub mod Trades
pub mod Matching
mod Execution
mod Serving
