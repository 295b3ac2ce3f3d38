-- ===== src/Tests/Trades.antt =====
-- Runs of trades, on whole numbers and rates of 0 or 1.
use mai3_broker.Base.{ℕ, ◌≡◌, refl, some, true, false, [], ◌∷◌, ok}
use mai3_broker.Base.Int.{ℤ, pos, negsuc, ◌+ℤ◌, ◌-ℤ◌, ◌*ℤ◌, ltb_ℤ}
use mai3_broker.Decimal.{add, sub, mul, neg, abs, is_negative, is_zero}
use mai3_broker.Decimal.Integers.{integers, quotient, negate}
use mai3_broker.Amount.{has_the_same_sign, split_amount}
use mai3_broker.Mai3.Storage.{
  PerpetualStorage, LiquidityPoolStorage, AccountStorage, get_perpetual, set_perpetual,
}
use mai3_broker.Mai3.Account.{
  account_of, compute_account, compute_fee, compute_increase_position, move_position,
  compute_open_interest,
}
use mai3_broker.Mai3.Trade.{
  TradeResult, compute_trade_with_price, trade_position, settle_margin, deposit,
  adjust_margin_leverage,
}
use mai3_broker.Mai3.Trade.Balance.{compute_trade_with_price_lem}
use mai3_broker.Mai3.Math.{Floats, sqrt_decimal, newton, raise_guess}
use mai3_broker.Mai3.Amm.Context.{
  init_amm_trading_context, collect, empty_context, with_current, with_cash,
  init_amm_trading_context_eager_evaluation, is_amm_safe, compute_amm_pool_margin,
  copy_amm_trading_context, sum_values, sum_squares, sum_margins, compute_amm_safe_condition2,
  compute_amm_safe_condition3, compute_amm_safe_short_position_amount,
}
use mai3_broker.Mai3.Amm.Internal.{
  append_spread, compute_best_ask_bid_price_if_safe, compute_delta_margin, traded,
  compute_amm_internal_open, compute_amm_internal_trade,
}
use mai3_broker.Mai3.Pool.{
  Market, AmmTrade, move_pool, compute_amm_price, check_open_interest, settle_trade, trade_at,
  compute_amm_trade,
}
use mai3_broker.Mai3.Pool.Balance.{compute_amm_trade_positions}
use mai3_broker.Order.{Order}
use mai3_broker.Match.CloseOnly.{check_close_only}
use mai3_broker.Match.CloseOnly.Closes.{OnlyCloses, check_close_only_closes}
use mai3_broker.Tests.Data.{bid, param}

-- Whole numbers in place of the floating point ones. The guess of a root is the number itself.
abbrev pub whole : Floats ℤ ℤ
whole = record {
  of_decimal = λ a. a;
  to_decimal = λ a. a;
  nan = negsuc 999;
  is_nan = λ a. is_zero (add a (pos 1000));
  zero = pos 0;
  half = pos 1;
  invphi = pos 1;
  invphi2 = pos 0;
  is_zero = is_zero;
  add = add;
  sub = sub;
  mul = mul;
  neg = neg;
  abs = abs;
  sqrt = λ a. a;
  less_than = ltb_ℤ;
}

abbrev pub perpetual : PerpetualStorage ℤ
perpetual = record {
  is_normal = true;
  mark_price = pos 10;
  index_price = pos 10;
  unit_accumulative_funding = pos 0;
  initial_margin_rate = pos 1;
  maintenance_margin_rate = pos 1;
  operator_fee_rate = pos 0;
  lp_fee_rate = pos 1;
  referrer_rebate_rate = pos 0;
  liquidation_penalty_rate = pos 0;
  keeper_gas_reward = pos 1;
  insurance_fund_rate = pos 0;
  open_interest = pos 0;
  max_open_interest_rate = pos 1;
  half_spread = pos 0;
  open_slippage_factor = pos 1;
  close_slippage_factor = pos 1;
  funding_rate_factor = pos 0;
  funding_rate_limit = pos 0;
  max_leverage = pos 1;
  max_close_price_discount = pos 0;
  amm_cash_balance = pos 0;
  amm_position_amount = pos 0;
}

abbrev pub pool : LiquidityPoolStorage ℤ
pool = record {
  vault_fee_rate = pos 0;
  pool_cash_balance = pos 10000;
  perpetuals = (0, perpetual) ∷ [];
}

abbrev pub trader : AccountStorage ℤ
trader = record {
  target_leverage = pos 1;
  wallet_balance = pos 1000;
  cash_balance = pos 0;
  position_amount = pos 0;
}

-- Five are bought at 10, for a fee of 50. The margin account needs 51.
abbrev pub buyer : AccountStorage ℤ
buyer = record trader { wallet_balance = pos 899; cash_balance = pos 1; position_amount = pos 5 }

abbrev bought : TradeResult ℤ
bought = record { after_trade = account_of perpetual buyer; is_safe = true; total_fee = pos 50 }

buy_five : compute_trade_with_price pool 0 (pos 10) (pos 5) (pos 1) trader ≡ (ok bought, buyer)
unfolding compute_trade_with_price trade_position settle_margin deposit adjust_margin_leverage
    compute_account compute_fee compute_increase_position move_position account_of split_amount
    has_the_same_sign abs get_perpetual quotient negate ◌+ℤ◌ ◌-ℤ◌ ◌*ℤ◌
buy_five = refl

perpetual_found : get_perpetual 0 pool.perpetuals ≡ some perpetual
unfolding get_perpetual
perpetual_found = refl

abbrev spent : ℤ
spent =
    sub (add (pos 1000) (add (sub (pos 0) (mul (pos 10) (pos 5))) (mul (pos 0) (pos 5)))) (pos 50)

compute_trade_with_price_lem_example :
    (pos 5 ≡ add (pos 0) (pos 5))
    × (add (pos 899) (pos 1) ≡ spent)
    × (is_negative (pos 899) ≡ false)
    × (account_of perpetual buyer ≡ account_of perpetual buyer)
    × (is_zero (split_amount (pos 0) (pos 5)).1 ≡ false → true ≡ true)
compute_trade_with_price_lem_example =
    compute_trade_with_price_lem pool 0 perpetual (pos 10) (pos 5) (pos 1) bought trader buyer
      perpetual_found buy_five

abbrev pub sold_perpetual : PerpetualStorage ℤ
sold_perpetual = record perpetual { amm_position_amount = negsuc 4; open_interest = pos 5 }

abbrev pub market : Market ℤ
market = record { pool = pool; trader = trader }

abbrev pub sold_market : Market ℤ
sold_market = record {
  pool = record pool { pool_cash_balance = pos 10100; perpetuals = (0, sold_perpetual) ∷ [] };
  trader = buyer;
}

abbrev pub amm_trade : AmmTrade ℤ
amm_trade = record {
  after_trade = account_of perpetual buyer;
  is_safe = true;
  trading_price = pos 10;
}

abbrev pub to_even : ℕ → ℤ → ℤ
to_even k a = a

pub sell_five : compute_amm_trade whole to_even 40 0 (pos 5) market ≡ (ok amm_trade, sold_market)
unfolding compute_amm_trade compute_amm_price trade_at settle_trade check_open_interest move_pool
    compute_amm_internal_trade compute_amm_internal_open traded compute_delta_margin
    compute_best_ask_bid_price_if_safe append_spread init_amm_trading_context collect empty_context
    with_current with_cash init_amm_trading_context_eager_evaluation is_amm_safe
    compute_amm_pool_margin copy_amm_trading_context sum_values sum_squares sum_margins
    compute_amm_safe_condition2 compute_amm_safe_condition3 compute_amm_safe_short_position_amount
    sqrt_decimal newton raise_guess set_perpetual compute_open_interest compute_trade_with_price
    trade_position settle_margin deposit adjust_margin_leverage compute_account compute_fee
    compute_increase_position move_position account_of split_amount has_the_same_sign abs
    get_perpetual quotient negate ◌+ℤ◌ ◌-ℤ◌ ◌*ℤ◌
sell_five = refl

compute_amm_trade_positions_example :
    (after : PerpetualStorage ℤ) × (get_perpetual 0 sold_market.pool.perpetuals ≡ some after)
    × (add after.amm_position_amount (pos 5) ≡ add (pos 0) (pos 0))
compute_amm_trade_positions_example =
    compute_amm_trade_positions whole to_even 40 0 perpetual (pos 5) amm_trade market sold_market
      perpetual_found sell_five

abbrev closing_bid : Order ℤ
closing_bid = record bid { param = record (param (pos 2) (pos 10)) { is_close_only = true } }

abbrev short : AccountStorage ℤ
short = record trader { position_amount = negsuc 1 }

close_one : check_close_only short closing_bid ≡ pos 1
unfolding check_close_only has_the_same_sign abs negate ◌+ℤ◌ ◌-ℤ◌
close_one = refl

check_close_only_closes_example :
    OnlyCloses (negsuc 1) (sub (pos 3) (check_close_only short closing_bid))
unfolding has_the_same_sign
check_close_only_closes_example = check_close_only_closes short closing_bid refl refl refl
