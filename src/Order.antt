-- ===== src/Order.antt =====
-- common/model/order.go and change_order.go, and the status that dao/order.go derives from the
-- amounts when it saves an order. Times are nanoseconds since the epoch; `now` is the clock's
-- reading, an argument.
mod Defs
pub mod CancelReason
pub mod Balance
pub mod Status
pub mod Cancel
unfoldable pub use Defs.*
