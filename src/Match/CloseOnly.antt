-- ===== src/Match/CloseOnly.antt =====
-- match/order.go: how much of an order that may only close a position has to be canceled.
pub mod Closes
use mai3_broker.Base.{Bool, if◌then◌else◌}
use mai3_broker.Decimal.{Decimal, zero, add, abs, is_zero, greater_than}
use mai3_broker.Amount.{has_the_same_sign}
use mai3_broker.Order.{Order}
use mai3_broker.Mai3.Storage.{AccountStorage}

module _ {D : Type 0} ⦃dec : Decimal D⦄ where
  unfoldable pub check_close_only : AccountStorage D → Order D → D
  check_close_only account order =
      if order.is_close_only
      then (if is_zero account.position_amount
          then order.available_amount
          else if has_the_same_sign account.position_amount order.amount
          then order.available_amount
          else if greater_than (abs order.available_amount) (abs account.position_amount)
          then add order.available_amount account.position_amount
          else zero)
      else zero
