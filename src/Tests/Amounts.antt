-- ===== src/Tests/Amounts.antt =====
-- Runs on amounts, orders and price levels.
use mai3_broker.Base.{◌≡◌, ◌≢◌, ◌↔◌, ◌⊎◌, refl, true, false, [], ◌∷◌, ok}
use mai3_broker.Base.Int.{ℤ, pos, negsuc, ◌+ℤ◌, ◌-ℤ◌}
use mai3_broker.Decimal.{zero, add, sub, abs, less_than}
use mai3_broker.Decimal.Integers.{integers, negate}
use mai3_broker.Amount.{has_the_same_sign, split_amount}
use mai3_broker.Amount.Split.{split_amount_sum, split_amount_close}
use mai3_broker.Order
use mai3_broker.Order.{Order, OrderStatus, status_by_amounts}
use mai3_broker.Order.Balance.{total, IsBalanced, HasSigns}
use mai3_broker.Order.Status.{status_pending_iff}
use mai3_broker.Order.Cancel.{cancel_order_moves}
use mai3_broker.Tests.Data.{bid}

split_amount_sum_example : add (pos 3) (pos 4) ≡ pos 7
unfolding split_amount has_the_same_sign abs negate ◌+ℤ◌ ◌-ℤ◌
split_amount_sum_example = split_amount_sum (negsuc 2) (pos 7)

split_amount_close_example :
    (less_than (abs (negsuc 2)) (abs (pos 3)) ≡ false)
    × ((pos 3 ≡ zero) ⊎ (has_the_same_sign (negsuc 2) (pos 3) ≡ false))
    × (has_the_same_sign (add (negsuc 2) (pos 3)) (pos 4) ≡ true)
unfolding split_amount has_the_same_sign abs negate ◌+ℤ◌ ◌-ℤ◌
split_amount_close_example = split_amount_close (negsuc 2) (pos 7)

bid-IsBalanced : IsBalanced bid
unfolding ◌+ℤ◌
bid-IsBalanced = refl

pub bid-HasSigns : HasSigns bid
unfolding has_the_same_sign
bid-HasSigns = record { available = refl; pending = refl; confirmed = refl; canceled = refl }

status_pending_iff_example :
    (status_by_amounts bid ≡ OrderStatus.pending) ↔ (add (pos 3) (pos 2) ≢ pos 0)
status_pending_iff_example = status_pending_iff bid bid-IsBalanced bid-HasSigns refl

abbrev canceled_bid : Order ℤ
canceled_bid = record bid {
  available_amount = pos 1;
  canceled_amount = pos 3;
  cancel_reasons =
      record { reason = "user"; amount = pos 2; canceled_at = 7; transaction_hash = "" } ∷ [];
}

cancel_bid : Order.cancel_order 7 bid "user" (pos 2) ≡ ok canceled_bid
unfolding Order.cancel_order Order.add_cancel_reason has_the_same_sign abs ◌+ℤ◌ ◌-ℤ◌
cancel_bid = refl

cancel_order_moves_example :
    (total canceled_bid ≡ total bid)
    × (canceled_bid.available_amount ≡ sub bid.available_amount (pos 2))
    × (canceled_bid.pending_amount ≡ bid.pending_amount)
    × (canceled_bid.confirmed_amount ≡ bid.confirmed_amount)
    × HasSigns canceled_bid
cancel_order_moves_example =
    cancel_order_moves 7 bid canceled_bid "user" (pos 2) bid-HasSigns cancel_bid
