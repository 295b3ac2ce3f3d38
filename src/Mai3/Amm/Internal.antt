-- ===== src/Mai3/Amm/Internal.antt =====
-- common/mai3/amm.go: a trade seen from the market maker, its closing part and then its opening one.
use mai3_broker.Base.{
  ℕ, Bool, false, not, ◌&&◌, ◌||◌, Result, ok, err, ◌>>=◌, or_fail, if◌then◌else◌,
}
use mai3_broker.Decimal.{
  Decimal, zero, add, sub, mul, div, neg, max_dec, round, less_than, less_than_or_equal,
  greater_than, is_zero,
}
use mai3_broker.Amount.{has_the_same_sign, split_amount}
use mai3_broker.Mai3.Math.{Floats, one, two, four, sqrt_decimal}
use mai3_broker.Mai3.Storage.{
  LiquidityPoolStorage, AmmTradingContext, TradeError, bad_amount, no_context, amm_unsafe,
  position_too_large, same_sign, no_best_price, cross_direction, no_pool_margin, impossible_price,
}
use mai3_broker.Mai3.Amm.Context.{
  copy_amm_trading_context, init_amm_trading_context, is_amm_safe, compute_amm_pool_margin,
  compute_amm_safe_short_position_amount, compute_amm_safe_long_position_amount,
}

module _ {D : Type 0} ⦃dec : Decimal D⦄ (round_bank : ℕ → D → D) where
  -- `RoundBank` of the decimal package is the parameter `round_bank`.
  unfoldable pub append_spread : AmmTradingContext D → D → Bool → D
  append_spread c mid_price is_amm_buy =
      if is_amm_buy
      then round_bank 18 (mul mid_price (sub one c.half_spread))
      else round 18 (mul mid_price (add one c.half_spread))

  unfoldable pub compute_best_ask_bid_price_if_safe : AmmTradingContext D → D → Bool → D
  unfolding append_spread
  compute_best_ask_bid_price_if_safe c beta is_amm_buy =
      if less_than_or_equal c.pool_margin zero
      then zero
      else append_spread c
          (mul (sub one (mul (div (mul c.position1 c.index) c.pool_margin) beta)) c.index)
          is_amm_buy

module _ {D : Type 0} ⦃dec : Decimal D⦄ where
  unfoldable pub compute_best_ask_bid_price_if_unsafe : AmmTradingContext D → D
  compute_best_ask_bid_price_if_unsafe c = c.index

  unfoldable pub compute_delta_margin : AmmTradingContext D → D → D → Result TradeError D
  compute_delta_margin c beta position2 =
      if (greater_than c.position1 zero && less_than position2 zero)
        || (less_than c.position1 zero && greater_than position2 zero)
      then err cross_direction
      else if less_than_or_equal c.pool_margin zero
      then err no_pool_margin
      else ok (mul (mul (sub c.position1 position2) (sub one slip)) c.index)
    where
      slip : D
      slip = mul (div (mul (div (add position2 c.position1) two) c.index) c.pool_margin) beta

  -- The discount on the index price that a closing trade may not exceed.
  abbrev pub discount_limit : AmmTradingContext D → Bool → D
  discount_limit c downwards =
      mul
        (add one (if downwards then neg c.max_close_price_discount else c.max_close_price_discount))
        c.index

  -- The common end of both parts: the context after `amount` for `delta_margin`.
  unfoldable pub traded : AmmTradingContext D → D → D → Result TradeError (AmmTradingContext D)
  traded c delta_margin amount =
      if has_the_same_sign delta_margin amount
      then err same_sign
      else ok (record c {
        delta_margin = add c.delta_margin delta_margin;
        delta_position = add c.delta_position amount;
        cash = add c.cash delta_margin;
        position1 = add c.position1 amount;
      })

module _ {F D : Type 0} ⦃dec : Decimal D⦄ (fl : Floats F D) (round_bank : ℕ → D → D)
    (fuel : ℕ) where
  unfoldable pub compute_amm_internal_close :
      AmmTradingContext D → D → Result TradeError (AmmTradingContext D)
  unfolding traded
  compute_amm_internal_close context amount =
      (if is_amm_safe fl fuel ret beta
        then (do
          c ← compute_amm_pool_margin fl fuel ret beta false
          let best = record c {
            best_ask_bid_price =
                compute_best_ask_bid_price_if_safe round_bank c beta (greater_than amount zero);
          }
          delta_margin ← compute_delta_margin best beta (add ret.position1 amount)
          traded best (limited delta_margin) amount)
        else (let price = compute_best_ask_bid_price_if_unsafe ret in
            traded (record ret { best_ask_bid_price = price }) (limited (neg (mul price amount)))
              amount))
    where
      beta : D
      beta = context.close_slippage_factor

      ret : AmmTradingContext D
      ret = copy_amm_trading_context context

      limited : D → D
      limited delta_margin =
          max_dec delta_margin (neg (mul (discount_limit context (less_than amount zero)) amount))

  unfoldable pub compute_amm_internal_open :
      AmmTradingContext D → D → Result TradeError (AmmTradingContext D)
  unfolding traded
  compute_amm_internal_open context amount =
      (if not (is_amm_safe fl fuel ret beta) then err amm_unsafe else do
        c ← compute_amm_pool_margin fl fuel ret beta false
        (if too_large c then err position_too_large else (do
          let best = record c {
            best_ask_bid_price =
                if is_zero c.best_ask_bid_price
                then compute_best_ask_bid_price_if_safe round_bank c beta (greater_than amount zero)
                else c.best_ask_bid_price;
          }
          delta_margin ← compute_delta_margin best beta position2
          traded best delta_margin amount)))
    where
      beta : D
      beta = context.open_slippage_factor

      ret : AmmTradingContext D
      ret = copy_amm_trading_context context

      position2 : D
      position2 = add ret.position1 amount

      too_large : AmmTradingContext D → Bool
      too_large c =
          if greater_than amount zero
          then greater_than position2 (compute_amm_safe_long_position_amount fl fuel c beta)
          else less_than position2 (compute_amm_safe_short_position_amount fl fuel c beta)

  -- A part that is zero is skipped.
  abbrev pub unless_zero :
      (AmmTradingContext D → D → Result TradeError (AmmTradingContext D))
      → D
      → AmmTradingContext D
      → Result TradeError (AmmTradingContext D)
  unless_zero f amount c = if is_zero amount then ok c else f c amount

  unfoldable pub compute_amm_internal_trade :
      LiquidityPoolStorage D → ℕ → D → Result TradeError (AmmTradingContext D)
  unfolding compute_amm_internal_close compute_amm_internal_open
  compute_amm_internal_trade p i amount = do
    context ← or_fail (init_amm_trading_context p i) no_context
    let close = (split_amount context.position1 amount).0
    let opened = (split_amount context.position1 amount).1
    (if is_zero close && is_zero opened then err bad_amount else (do
      closed ← unless_zero compute_amm_internal_close close context
      moved ← unless_zero compute_amm_internal_open opened closed
      (if is_zero moved.best_ask_bid_price
          then err no_best_price
          else (let value = neg (mul moved.best_ask_bid_price amount) in
              ok (
                if less_than moved.delta_margin value
                then record moved { delta_margin = value }
                else moved)))))

  -- The inverse of the average price, from the market maker's view.
  unfoldable pub compute_amm_inverse_vwap : AmmTradingContext D → D → D → Bool → Result TradeError D
  compute_amm_inverse_vwap context price beta is_amm_buy =
      if is_zero denominator
      then err impossible_price
      else if less_than before_sqrt zero
      then err impossible_price
      else ok (div (sub (if is_amm_buy then root else neg root) b) denominator)
    where
      a : D
      a = mul (mul context.index context.index) beta

      denominator : D
      denominator = mul a two

      b : D
      b =
          mul
            (add (add (neg (mul context.index context.pool_margin)) (mul a context.position1))
              (mul context.pool_margin price))
            two

      c : D
      c = neg (
          mul
            (mul (sub (neg context.delta_margin) (mul context.delta_position price))
              context.pool_margin)
            two)

      before_sqrt : D
      before_sqrt = add (neg (mul (mul a c) four)) (mul b b)

      root : D
      root = sqrt_decimal fl fuel before_sqrt
