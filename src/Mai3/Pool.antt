-- ===== src/Mai3/Pool.antt =====
-- common/mai3: a trade against the pool. The pool and the account are changed in place, before the
-- limit on the open interest is checked.
pub mod Balance
use mai3_broker.Base.{
  ℕ, Option, none, some, Bool, true, false, not, ◌&&◌, ◌||◌, Result, ok, err, or_fail,
  if◌then◌else◌,
}
use mai3_broker.Base.Actions.{Action, pure, fail_with, ◌>>=◌, ◌>>◌}
use mai3_broker.Decimal.{
  Decimal, zero, add, sub, mul, div, neg, abs, less_than, greater_than, is_zero, equal,
}
use mai3_broker.Mai3.Math.{Floats, gss}
use mai3_broker.Mai3.Storage.{
  PerpetualStorage, LiquidityPoolStorage, AccountStorage, AccountComputed, TradeError,
  perpetual_not_found, bad_amount, amount_mismatch, open_interest_exceeded, no_context,
  get_perpetual, set_perpetual,
}
use mai3_broker.Mai3.Account.{compute_open_interest}
use mai3_broker.Mai3.Trade.{TradeResult, compute_trade_with_price}
use mai3_broker.Mai3.Amm.Context.{init_amm_trading_context, is_amm_safe, compute_amm_pool_margin}
use mai3_broker.Mai3.Amm.Internal.{compute_amm_internal_trade}

pub record Market (D : Type 0) : Type 0 where
  pub pool : LiquidityPoolStorage D
  pub trader : AccountStorage D

pub record AmmPrice (D : Type 0) : Type 0 where
  pub delta_margin : D
  pub delta_amount : D
  pub trading_price : D

pub record AmmTrade (D : Type 0) : Type 0 where
  pub after_trade : AccountComputed D
  pub is_safe : Bool
  pub trading_price : D

module _ {D : Type 0} ⦃dec : Decimal D⦄ where
  -- The pool after `delta` is bought by the market maker at `price`.
  unfoldable pub move_pool :
      ℕ → PerpetualStorage D → D → D → D → D → LiquidityPoolStorage D → LiquidityPoolStorage D
  move_pool i q delta price lp_fee open_interest p = record p {
    pool_cash_balance =
        add
          (add (sub p.pool_cash_balance (mul delta price)) (mul q.unit_accumulative_funding delta))
          lp_fee;
    perpetuals =
        set_perpetual i
          (record q {
            amm_position_amount = add q.amm_position_amount delta;
            open_interest = open_interest;
          })
          p.perpetuals;
  }

  -- A call that changes the account of a market.
  abbrev pub on_trader :
      {A : Type 0} → Action TradeError (AccountStorage D) A → Action TradeError (Market D) A
  on_trader f m = let (r, a) = f m.trader in (r, record m { trader = a })

module _ {F D : Type 0} ⦃dec : Decimal D⦄ (fl : Floats F D) (round_bank : ℕ → D → D)
    (fuel : ℕ) where
  unfoldable pub compute_amm_price : LiquidityPoolStorage D → ℕ → D → Result TradeError (AmmPrice D)
  compute_amm_price p i amount =
      if is_zero amount
      then err bad_amount
      else elim (compute_amm_internal_trade fl round_bank fuel p i (neg amount)) [
        | err e ↦ err e
        | ok c ↦ ok (record {
          delta_margin = c.delta_margin;
          delta_amount = c.delta_position;
          trading_price = abs (div c.delta_margin c.delta_position);
        })
      ]

  -- Only a trade that raises the open interest is held to the limit.
  unfoldable pub check_open_interest :
      LiquidityPoolStorage D → ℕ → PerpetualStorage D → D → Result TradeError (Unit {0})
  check_open_interest p i q open_interest =
      if not (greater_than open_interest q.open_interest)
      then ok tt
      else elim (init_amm_trading_context p i) [
        | none ↦ err no_context
        | some c ↦ elim (compute_amm_pool_margin fl fuel c c.open_slippage_factor true) [
          | err e ↦ err e
          | ok c' ↦
              if greater_than open_interest
                (div (mul c'.pool_margin q.max_open_interest_rate) q.index_price)
              then err open_interest_exceeded
              else ok tt
        ]
      ]

  -- The market maker's side of the trade. The trader's position has changed already: the new open
  -- interest is computed from the position after the trade as if the trade were still to come.
  unfoldable pub settle_trade :
      ℕ
      → PerpetualStorage D
      → AmmPrice D
      → D
      → TradeResult D
      → Action TradeError (Market D) (AmmTrade D)
  unfolding check_open_interest
  settle_trade i q price fee_rate r m = elim (check_open_interest pool i q open_interest) [
    | err e ↦ (err e, record m { pool = pool })
    | ok _ ↦ (
      ok (record {
        after_trade = r.after_trade;
        is_safe = r.is_safe;
        trading_price = price.trading_price;
      }),
      record m { pool = pool },
    )
  ]
    where
      open_interest : D
      open_interest =
          compute_open_interest
            (compute_open_interest q.open_interest m.trader.position_amount
              (neg price.delta_amount))
            q.amm_position_amount price.delta_amount

      pool : LiquidityPoolStorage D
      pool =
          move_pool i q price.delta_amount price.trading_price
            (div (mul r.total_fee q.lp_fee_rate) fee_rate) open_interest m.pool

  unfoldable pub trade_at :
      ℕ → PerpetualStorage D → AmmPrice D → Action TradeError (Market D) (AmmTrade D)
  unfolding settle_trade
  trade_at i q price m =
      (on_trader (
            compute_trade_with_price m.pool i price.trading_price (neg price.delta_amount) fee_rate)
          >>= settle_trade i q price fee_rate)
        m
    where
      fee_rate : D
      fee_rate = add (add q.lp_fee_rate m.pool.vault_fee_rate) q.operator_fee_rate

  unfoldable pub compute_amm_trade : ℕ → D → Action TradeError (Market D) (AmmTrade D)
  unfolding compute_amm_price trade_at
  compute_amm_trade i amount m =
      if is_zero amount then (err bad_amount, m) else elim (get_perpetual i m.pool.perpetuals) [
        | none ↦ (err perpetual_not_found, m)
        | some q ↦ elim (compute_amm_price m.pool i amount) [
          | err e ↦ (err e, m)
          | ok price ↦
              if not (equal (neg price.delta_amount) amount)
              then (err amount_mismatch, m)
              else trade_at i q price m
        ]
      ]

  -- The greatest amount that is safe, by a golden section search on copies of the market.
  unfoldable pub compute_amm_max_trade_amount : Market D → ℕ → F → D → Bool → D
  unfolding compute_amm_trade
  compute_amm_max_trade_amount m i tolerance amount is_trader_buy =
      elim (init_amm_trading_context m.pool i) [
        | none ↦ zero
        | some c ↦
            if not (is_amm_safe fl fuel c c.open_slippage_factor)
              && (if is_trader_buy
                  then less_than c.position1 zero
                  else greater_than c.position1 zero)
            then zero
            else fl.to_decimal (gss fl check_trading fl.zero (fl.of_decimal amount) tolerance 15)
      ]
    where
      check_trading : F → F
      check_trading a =
          if fl.is_zero a then fl.zero else elim (compute_amm_trade i (fl.to_decimal a) m).0 [
            | err _ ↦ fl.abs a
            | ok r ↦ if r.is_safe then fl.neg (fl.abs a) else fl.abs a
          ]
