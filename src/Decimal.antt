-- ===== src/Decimal.antt =====
-- github.com/shopspring/decimal, which the whole program computes with: a parameter of the model.
-- A value is an integer times a power of ten. `digits d` is how many digits it has after the
-- point, and `units k d` is d * 10^k, which is an integer if `digits d` is at most `k`. Sums,
-- differences, products and comparisons are exact, whatever the exponents are. Values that `Equal`
-- calls equal are one value here. Nothing is assumed of `Div` and `Round`.
mod Defs
mod Laws
pub mod Integers
unfoldable pub use Defs.*
pub use Laws.*
