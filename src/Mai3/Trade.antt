-- ===== src/Mai3/Trade.antt =====
-- common/mai3/computation.go: a trade at a given price. The account is changed step by step, and
-- stays as the steps before have left it when one fails.
pub mod Balance
use mai3_broker.Base.{
  ℕ, Option, none, some, Bool, true, false, not, ◌&&◌, ◌||◌, Result, ok, err, or_fail,
  if◌then◌else◌,
}
use mai3_broker.Base.Actions.{Action, pure, fail_with, ◌>>=◌, ◌>>◌}
use mai3_broker.Decimal.{
  Decimal, zero, add, sub, mul, div, neg, abs, max_dec, min_dec, less_than, less_than_or_equal,
  greater_than, is_zero,
}
use mai3_broker.Amount.{split_amount}
use mai3_broker.Mai3.Storage.{
  PerpetualStorage, LiquidityPoolStorage, AccountStorage, AccountComputed, TradeError,
  perpetual_not_found, bad_amount, bad_leverage, wallet_too_low, get_perpetual,
}
use mai3_broker.Mai3.Account.{
  compute_account, compute_decrease_position, compute_increase_position, compute_fee,
}

pub record TradeResult (D : Type 0) : Type 0 where
  pub after_trade : AccountComputed D
  pub is_safe : Bool
  pub total_fee : D

module _ {D : Type 0} ⦃dec : Decimal D⦄ where
  -- > 0 if more collateral is required
  unfoldable pub adjust_margin_leverage :
      LiquidityPoolStorage D
      → ℕ
      → AccountComputed D
      → AccountStorage D
      → D
      → D
      → D
      → D
      → Result TradeError D
  adjust_margin_leverage p i a trader price close opened total_fee =
      elim (get_perpetual i p.perpetuals) [
        | none ↦ err perpetual_not_found
        | some perpetual ↦
            if not (is_zero close) && is_zero opened
            then ok (
                min_dec
                  (max_dec (div (kept perpetual) (sub position2 close)) (neg a.available_margin))
                  zero)
            else if less_than_or_equal trader.target_leverage zero
            then err bad_leverage
            else ok (
                max_dec
                  (if is_zero (sub position2 delta_position) || not (is_zero close)
                    then sub (add (margin perpetual) perpetual.keeper_gas_reward) a.margin_balance
                    else add
                        (sub (sub (margin perpetual) (mul perpetual.mark_price opened)) delta_cash)
                        total_fee)
                  (neg a.available_margin))
      ]
    where
      delta_position : D
      delta_position = add close opened

      delta_cash : D
      delta_cash = neg (mul delta_position price)

      position2 : D
      position2 = trader.position_amount

      margin : PerpetualStorage D → D
      margin perpetual = div (mul (abs opened) perpetual.mark_price) trader.target_leverage

      -- What keeps the margin ratio of a position that is closed in part.
      kept : PerpetualStorage D → D
      kept perpetual =
          let moved =
            sub (mul a.available_cash_balance close) (mul (sub delta_cash total_fee) position2) in
          if is_zero position2 then moved else sub moved (mul perpetual.keeper_gas_reward close)

  -- A step that reads the account, and one that replaces it if it succeeds.
  abbrev pub reading :
      {A : Type 0}
      → (AccountStorage D → Result TradeError A)
      → Action TradeError (AccountStorage D) A
  reading f a = (f a, a)

  abbrev pub changing :
      (AccountStorage D → Result TradeError (AccountStorage D))
      → Action TradeError (AccountStorage D) (Unit {0})
  changing f a = elim (f a) [ ok a' ↦ (ok tt, a') | err e ↦ (err e, a) ]

  abbrev pub withdraw_cash : D → AccountStorage D → AccountStorage D
  withdraw_cash fee a = record a { cash_balance = sub a.cash_balance fee }

  abbrev pub move_collateral : D → AccountStorage D → AccountStorage D
  move_collateral x a = record a {
    cash_balance = add a.cash_balance x;
    wallet_balance = sub a.wallet_balance x;
  }

  -- The margin is deposited from the wallet, or withdrawn to it if `adjust_margin` is negative.
  unfoldable pub deposit : D → AccountStorage D → Result TradeError (AccountStorage D)
  deposit adjust_margin a =
      if greater_than adjust_margin a.wallet_balance
      then err wallet_too_low
      else ok (move_collateral adjust_margin a)

  -- The closing part is traded, then the opening one.
  unfoldable pub trade_position :
      LiquidityPoolStorage D → ℕ → D → D → D → Action TradeError (AccountStorage D) (Unit {0})
  trade_position p i price close opened =
      (if is_zero close then pure tt else changing (compute_decrease_position p i price close))
      >> (if is_zero opened then pure tt else changing (compute_increase_position p i price opened))

  -- The fee is paid, and the margin moved to what the target leverage asks for.
  unfoldable pub settle_margin :
      LiquidityPoolStorage D
      → ℕ
      → D
      → D
      → D
      → D
      → D
      → Action TradeError (AccountStorage D) (TradeResult D)
  unfolding deposit
  settle_margin p i price amount fee_rate close opened = do
    traded ← reading (compute_account p i)
    total_fee ← reading (λ _. compute_fee (not (is_zero opened)) price amount fee_rate traded)
    changing (λ a. ok (withdraw_cash total_fee a))
    charged ← reading (compute_account p i)
    adjust_margin ← reading (λ a. adjust_margin_leverage p i charged a price close opened total_fee)
    changing (deposit adjust_margin)
    after_trade ← reading (compute_account p i)
    pure (record {
      after_trade = after_trade;
      is_safe = if is_zero opened then after_trade.is_margin_safe else after_trade.is_im_safe;
      total_fee = total_fee;
    })

  unfoldable pub compute_trade_with_price :
      LiquidityPoolStorage D → ℕ → D → D → D → Action TradeError (AccountStorage D) (TradeResult D)
  unfolding trade_position settle_margin
  compute_trade_with_price p i price amount fee_rate a =
      if less_than_or_equal price zero || is_zero amount
      then (err bad_amount, a)
      else (trade_position p i price close opened
            >> settle_margin p i price amount fee_rate close opened)
          a
    where
      close : D
      close = (split_amount a.position_amount amount).0

      opened : D
      opened = (split_amount a.position_amount amount).1
