-- ===== src/Mai3/Amm/Quote.antt =====
-- common/mai3/amm.go: the best price, and the amount that can be traded at a limit price. A failure
-- gives zero.
use mai3_broker.Base.{
  ℕ, none, some, Bool, false, not, ◌&&◌, ◌||◌, Result, ok, err, ◌>>=◌, or_fail, if◌then◌else◌,
}
use mai3_broker.Decimal.{
  Decimal, zero, add, sub, div, neg, abs, equal, less_than, less_than_or_equal, greater_than,
  greater_than_or_equal, is_zero,
}
use mai3_broker.Mai3.Math.{Floats}
use mai3_broker.Mai3.Storage.{LiquidityPoolStorage, AmmTradingContext, TradeError, no_context}
use mai3_broker.Mai3.Amm.Context.{
  init_amm_trading_context, is_amm_safe, compute_amm_pool_margin,
  compute_amm_safe_short_position_amount, compute_amm_safe_long_position_amount,
}
use mai3_broker.Mai3.Amm.Internal.{
  compute_best_ask_bid_price_if_safe, compute_best_ask_bid_price_if_unsafe, discount_limit,
  compute_amm_internal_close, compute_amm_internal_open, compute_amm_inverse_vwap,
}

module _ {D : Type 0} ⦃dec : Decimal D⦄ where
  abbrev pub or_zero : Result TradeError D → D
  or_zero (ok a) = a
  or_zero (err e) = zero

  -- The limit price asks for more than `price` gives.
  abbrev pub beyond : Bool → D → D → Bool
  beyond is_amm_buy limit_price price =
      if is_amm_buy then greater_than limit_price price else less_than limit_price price

  -- `price` is no worse than the limit.
  abbrev pub matches : Bool → D → D → Bool
  matches is_amm_buy price limit_price =
      if is_amm_buy
      then greater_than_or_equal price limit_price
      else less_than_or_equal price limit_price

  abbrev pub in_direction : Bool → D → Bool
  in_direction is_amm_buy amount =
      if is_amm_buy then greater_than amount zero else less_than amount zero

  abbrev pub average_price : AmmTradingContext D → D
  average_price c = abs (div c.delta_margin c.delta_position)

module _ {F D : Type 0} ⦃dec : Decimal D⦄ (fl : Floats F D) (round_bank : ℕ → D → D)
    (fuel : ℕ) where
  unfoldable pub compute_best_ask_bid_price :
      LiquidityPoolStorage D → ℕ → Bool → Result TradeError D
  compute_best_ask_bid_price p i is_amm_buy = do
    context ← or_fail (init_amm_trading_context p i) no_context
    let is_amm_closing =
        (greater_than context.position1 zero && not is_amm_buy)
        || (less_than context.position1 zero && is_amm_buy)
    let beta =
        if is_amm_closing then context.close_slippage_factor else context.open_slippage_factor
    ok (
        if not (is_amm_safe fl fuel context beta)
        then (if is_amm_closing then compute_best_ask_bid_price_if_unsafe context else zero)
        else or_zero (do
          c ← compute_amm_pool_margin fl fuel context beta false
          let price = compute_best_ask_bid_price_if_safe round_bank c beta is_amm_buy
          let limit = discount_limit c (greater_than c.position1 zero)
          ok (if is_amm_closing && beyond is_amm_buy price limit then limit else price)))

  unfoldable pub compute_amm_open_amount_with_price : AmmTradingContext D → D → Bool → D
  compute_amm_open_amount_with_price context limit_price is_amm_buy =
      if (is_amm_buy && less_than context.position1 zero)
        || (not is_amm_buy && greater_than context.position1 zero)
      then zero
      else if not (is_amm_safe fl fuel context beta)
      then zero
      else or_zero (do
        c ← compute_amm_pool_margin fl fuel context beta false
        let best = record c {
          best_ask_bid_price =
              if is_zero c.best_ask_bid_price
              then compute_best_ask_bid_price_if_safe round_bank c beta is_amm_buy
              else c.best_ask_bid_price;
        }
        (if beyond is_amm_buy limit_price best.best_ask_bid_price
              || beyond is_amm_buy best.position1 (safe_position best)
            then ok zero
            else to_limit best (sub (safe_position best) best.position1)))
    where
      beta : D
      beta = context.open_slippage_factor

      safe_position : AmmTradingContext D → D
      safe_position c =
          if is_amm_buy
          then compute_amm_safe_long_position_amount fl fuel c beta
          else compute_amm_safe_short_position_amount fl fuel c beta

      to_limit : AmmTradingContext D → D → Result TradeError D
      to_limit c max_amount = do
        safe ← compute_amm_internal_open fl round_bank fuel c max_amount
        (if not (equal max_amount (sub safe.delta_position c.delta_position))
            then ok zero
            else if matches is_amm_buy (average_price safe) limit_price
            then ok max_amount
            else (do
              amount ← compute_amm_inverse_vwap fl round_bank fuel c limit_price beta is_amm_buy
              ok (if in_direction is_amm_buy amount then amount else zero)))

  unfoldable pub compute_amm_close_and_open_amount_with_price : AmmTradingContext D → D → Bool → D
  unfolding compute_amm_open_amount_with_price
  compute_amm_close_and_open_amount_with_price context limit_price is_amm_buy =
      if not (is_zero context.delta_margin)
        || not (is_zero context.delta_position)
        || is_zero context.position1
      then zero
      else or_zero (do
        c ← best
        (if beyond is_amm_buy limit_price c.best_ask_bid_price
              || beyond is_amm_buy limit_price (discount_limit c (greater_than c.position1 zero))
            then ok zero
            else closing c))
    where
      safe : Bool
      safe = is_amm_safe fl fuel context context.close_slippage_factor

      best : Result TradeError (AmmTradingContext D)
      best =
          if safe
          then (do
            c ← compute_amm_pool_margin fl fuel context context.close_slippage_factor false
            ok (record c {
              best_ask_bid_price =
                  compute_best_ask_bid_price_if_safe round_bank c c.close_slippage_factor
                    is_amm_buy;
            }))
          else ok
              (record context { best_ask_bid_price = compute_best_ask_bid_price_if_unsafe context })

      -- case 6
      opening : AmmTradingContext D → D
      opening c =
          if (if is_amm_buy
            then greater_than_or_equal c.position1 zero
            else less_than_or_equal c.position1 zero)
          then add c.delta_position (compute_amm_open_amount_with_price c limit_price is_amm_buy)
          else c.delta_position

      -- cases 3, 4 and 5
      closing : AmmTradingContext D → Result TradeError D
      closing c = do
        to_zero ← compute_amm_internal_close fl round_bank fuel c (neg c.position1)
        (if is_zero to_zero.delta_position
            then ok zero
            else if matches is_amm_buy (average_price to_zero) limit_price
            then ok (opening to_zero)
            else if not safe
            then ok zero
            else (do
              amount ←
                  compute_amm_inverse_vwap fl round_bank fuel c limit_price c.close_slippage_factor
                    is_amm_buy
              (if in_direction is_amm_buy amount
                  then (do
                    closed ← compute_amm_internal_close fl round_bank fuel c amount
                    ok (opening closed))
                  else ok (opening c))))

  unfoldable pub compute_amm_amount_with_price : LiquidityPoolStorage D → ℕ → Bool → D → D
  unfolding compute_amm_close_and_open_amount_with_price compute_amm_open_amount_with_price
  compute_amm_amount_with_price p i is_trader_buy limit_price =
      elim (init_amm_trading_context p i) [
        | none ↦ zero
        | some context ↦
            if less_than_or_equal context.position1 zero && not is_amm_buy
            then neg (compute_amm_open_amount_with_price context limit_price is_amm_buy)
            else if less_than context.position1 zero && is_amm_buy
            then neg (compute_amm_close_and_open_amount_with_price context limit_price is_amm_buy)
            else if greater_than_or_equal context.position1 zero && is_amm_buy
            then neg (compute_amm_open_amount_with_price context limit_price is_amm_buy)
            else if greater_than context.position1 zero && not is_amm_buy
            then neg (compute_amm_close_and_open_amount_with_price context limit_price is_amm_buy)
            else zero
      ]
    where
      is_amm_buy : Bool
      is_amm_buy = not is_trader_buy
