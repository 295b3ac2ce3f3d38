-- ===== src/Mai3/Account.antt =====
-- common/mai3/computation.go: an account's margins, the changes of its position, and the fee.
use mai3_broker.Base.{ℕ, Bool, not, ◌&&◌, ◌||◌, Result, ok, err, ◌>>=◌, or_fail, if◌then◌else◌}
use mai3_broker.Decimal.{
  Decimal, zero, add, sub, mul, div, abs, max_dec, less_than, less_than_or_equal, greater_than,
  greater_than_or_equal, is_zero,
}
use mai3_broker.Amount.{has_the_same_sign}
use mai3_broker.Mai3.Storage.{
  PerpetualStorage, LiquidityPoolStorage, AccountStorage, AccountComputed, TradeError,
  perpetual_not_found, bad_amount, bad_price, invalid_position, get_perpetual,
}

module _ {D : Type 0} ⦃dec : Decimal D⦄ where
  unfoldable pub account_of : PerpetualStorage D → AccountStorage D → AccountComputed D
  account_of perpetual a = record {
    position_value = position_value;
    position_margin = position_margin;
    maintenance_margin = maintenance_margin;
    available_cash_balance = available_cash_balance;
    margin_balance = margin_balance;
    available_margin = available_margin;
    withdrawable_balance = max_dec zero available_margin;
    is_mm_safe =
        greater_than_or_equal (sub (sub margin_balance maintenance_margin) reserved_cash) zero;
    is_im_safe = greater_than_or_equal available_margin zero;
    is_margin_safe = greater_than_or_equal margin_balance reserved_cash;
    leverage =
        if greater_than position_value zero && greater_than margin_without_reserved zero
        then div position_value margin_without_reserved
        else zero;
  }
    where
      position_value : D
      position_value = mul perpetual.mark_price (abs a.position_amount)

      position_margin : D
      position_margin = mul position_value perpetual.initial_margin_rate

      maintenance_margin : D
      maintenance_margin = mul position_value perpetual.maintenance_margin_rate

      reserved_cash : D
      reserved_cash = if is_zero a.position_amount then zero else perpetual.keeper_gas_reward

      available_cash_balance : D
      available_cash_balance =
          sub a.cash_balance (mul a.position_amount perpetual.unit_accumulative_funding)

      margin_balance : D
      margin_balance = add available_cash_balance (mul perpetual.mark_price a.position_amount)

      available_margin : D
      available_margin = sub (sub margin_balance position_margin) reserved_cash

      margin_without_reserved : D
      margin_without_reserved = sub margin_balance reserved_cash

  unfoldable pub compute_account :
      LiquidityPoolStorage D → ℕ → AccountStorage D → Result TradeError (AccountComputed D)
  compute_account p i a = do
    perpetual ← or_fail (get_perpetual i p.perpetuals) perpetual_not_found
    ok (account_of perpetual a)

  unfoldable pub compute_open_interest : D → D → D → D
  compute_open_interest old_open_interest old_position trade_amount =
      if greater_than new_position zero then add closed new_position else closed
    where
      new_position : D
      new_position = add old_position trade_amount

      closed : D
      closed =
          if greater_than old_position zero
          then sub old_open_interest old_position
          else old_open_interest

  -- The cash and the position after `amount` is bought at `price`.
  unfoldable pub move_position : PerpetualStorage D → D → D → AccountStorage D → AccountStorage D
  move_position perpetual price amount a = record a {
    cash_balance =
        add (sub a.cash_balance (mul price amount))
          (mul perpetual.unit_accumulative_funding amount);
    position_amount = add a.position_amount amount;
  }

  unfoldable pub compute_decrease_position :
      LiquidityPoolStorage D → ℕ → D → D → AccountStorage D → Result TradeError (AccountStorage D)
  unfolding move_position
  compute_decrease_position p i price amount a = do
    perpetual ← or_fail (get_perpetual i p.perpetuals) perpetual_not_found
    (if is_zero a.position_amount || is_zero amount || has_the_same_sign a.position_amount amount
        then err invalid_position
        else if less_than_or_equal price zero
        then err bad_price
        else if less_than (abs a.position_amount) (abs amount)
        then err invalid_position
        else ok (move_position perpetual price amount a))

  unfoldable pub compute_increase_position :
      LiquidityPoolStorage D → ℕ → D → D → AccountStorage D → Result TradeError (AccountStorage D)
  unfolding move_position
  compute_increase_position p i price amount a = do
    perpetual ← or_fail (get_perpetual i p.perpetuals) perpetual_not_found
    (if less_than_or_equal price zero
        then err bad_price
        else if is_zero amount
        then err bad_amount
        else if not (is_zero a.position_amount) && not (has_the_same_sign a.position_amount amount)
        then err invalid_position
        else ok (move_position perpetual price amount a))

  -- A trade that only closes pays no more than the margin that is left.
  unfoldable pub compute_fee : Bool → D → D → D → AccountComputed D → Result TradeError D
  compute_fee has_opened price amount fee_rate after_trade =
      if less_than_or_equal price zero || is_zero amount
      then err bad_price
      else if has_opened
      then ok total_fee
      else if less_than_or_equal after_trade.available_margin zero
      then ok zero
      else if greater_than total_fee after_trade.available_margin
      then ok after_trade.available_margin
      else ok total_fee
    where
      total_fee : D
      total_fee = mul (mul price (abs amount)) fee_rate
