-- ===== src/Tests/Matching.antt =====
-- Runs of the matching.
use mai3_broker.Base.{◌≢◌, ◌⊎◌, List, length, ◌*◌, ◌≤◌, ◌≡◌, refl, some, true, false, [], ◌∷◌, ok}
use mai3_broker.Base.Int.{ℤ, pos, negsuc, ◌+ℤ◌, ◌-ℤ◌, ◌*ℤ◌}
use mai3_broker.Decimal.{abs, add}
use mai3_broker.Decimal.Integers.{integers, quotient, negate, read, strokes}
use mai3_broker.Amount.{has_the_same_sign, split_amount}
use mai3_broker.Mai3.Storage.{get_perpetual, set_perpetual}
use mai3_broker.Mai3.Account.{
  account_of, compute_account, compute_fee, compute_increase_position, move_position,
  compute_open_interest,
}
use mai3_broker.Mai3.Trade.{
  trade_position, settle_margin, deposit, adjust_margin_leverage, compute_trade_with_price,
}
use mai3_broker.Mai3.Math.{sqrt_decimal, newton, raise_guess}
use mai3_broker.Mai3.Amm.Context.{
  init_amm_trading_context, collect, empty_context, with_current, with_cash,
  init_amm_trading_context_eager_evaluation, is_amm_safe, compute_amm_pool_margin,
  copy_amm_trading_context, sum_values, sum_squares, sum_margins, compute_amm_safe_condition2,
  compute_amm_safe_condition3, compute_amm_safe_short_position_amount,
}
use mai3_broker.Mai3.Amm.Internal.{
  append_spread, compute_best_ask_bid_price_if_safe, compute_delta_margin, traded,
  compute_amm_internal_open, compute_amm_internal_trade, compute_amm_inverse_vwap,
}
use mai3_broker.Mai3.Amm.Quote.{
  compute_amm_amount_with_price, compute_amm_open_amount_with_price, compute_best_ask_bid_price,
  compute_amm_close_and_open_amount_with_price,
}
use mai3_broker.Mai3.Pool.{
  move_pool, compute_amm_price, check_open_interest, settle_trade, trade_at, compute_amm_trade,
}
use mai3_broker.Base.Actions.{pure}
use mai3_broker.Order.{Order}
use mai3_broker.Orderbook.Level
use mai3_broker.Orderbook.Level.{MemoryOrder, PriceLevel}
use mai3_broker.Orderbook.Book.{
  get_bid_orders_by_price, get_ask_orders_by_price, get_orders_by_price,
}
use mai3_broker.Orderbook.Prices.{
  get_bid_prices_desc, get_ask_prices_asc, sort_slice, insert_sorted,
}
use mai3_broker.Match.Chain.{Chain, Perpetual, funded_account, wallet_balance}
use mai3_broker.Match.Item.{MatchItem, get_match_item, try_trade, item_of}
use mai3_broker.Match.Item.Amounts.{IsTried, get_match_item-IsTried}
use mai3_broker.Match.Side.{
  match_in_pool, walk_prices, match_next_price, match_one_side, walk_orders, match_order,
  take_order, add_item, is_triggered, get_gas_fee_limit,
}
use mai3_broker.Match.Side.{Engine}
use mai3_broker.Match.Side.Bounds.{match_in_pool_bound}
use mai3_broker.Match.Side.Loop.{match_in_pool_ends}
use mai3_broker.Match.Available.{
  Funds, close_orders, open_orders, open_order, open_order_cost, compute_order_available,
}
use mai3_broker.Match.Available.Wallet.{
  AtLeast, close_orders_wallet, open_orders_paid, outlays, required,
}
use mai3_broker.Match.Available.Cancels.{CancelsOf, compute_order_available_cancels}
use mai3_broker.Match.PoolSyncer.{PoolSyncer, get_pool_storage, set_pool_storage_dirty, fetch}
use mai3_broker.Match.PoolSyncer.Fresh.{get_pool_storage_dirty}
use mai3_broker.Tests.Containers.{ordered_list, price_list, find}
use mai3_broker.Tests.Data.{TestWorld, TestBook, Levels, rows, param, bid, bid_in_book, empty_book}
use mai3_broker.Tests.Trades.{whole, to_even, pool, perpetual, trader, market, sold_market}

-- A chain that gives every trader the same account, and every pool the same storage.
instance abbrev pub steady : Chain (Unit {0}) ℤ
steady = record {
  get_account_storage = λ i pool trader_address. pure trader;
  balance_of = λ token trader_address decimals. pure (pos 1000);
  allowance = λ token trader_address pool decimals. pure (pos 1200);
  get_gas_balance = λ broker trader_address. pure (pos 1);
  get_liquidity_pool_storage = λ address. pure pool;
}

abbrev pub contract : Perpetual
contract = record {
  liquidity_pool_address = "p";
  perpetual_index = 0;
  symbol = "s";
  operator_address = "o";
  collateral_symbol = "c";
  collateral_address = "c";
  collateral_decimals = 18;
  is_published = true;
  block_number = 0;
}

-- An order to buy five at 10.
abbrev pub five : Order ℤ
five = record bid {
  param = param (pos 10) (pos 5);
  available_amount = pos 5;
  pending_amount = pos 0;
  confirmed_amount = pos 0;
  canceled_amount = pos 0;
}

abbrev pub five_in_book : MemoryOrder ℤ
five_in_book = record bid_in_book { price = pos 10; amount = pos 5 }

abbrev pub five_level : PriceLevel ℤ Levels
five_level = record { price = pos 10; total_amount = pos 5; order_map = ("x", five_in_book) ∷ [] }

abbrev pub five_book : TestBook
five_book = record empty_book {
  bids_tree = (pos 10, five_level) ∷ [];
  bid_prices = ("+1111111111", tt) ∷ [];
}

abbrev pub five_world : TestWorld
five_world = record {
  store = record { orders = ("x", five) ∷ []; matches = [] };
  orderbook = five_book;
  timers = ("x", 100) ∷ [];
  expired = [];
  ws_chan = [];
}

abbrev pub five_item : MatchItem ℤ
five_item = record {
  order = five_in_book;
  order_cancel_amounts = [];
  order_cancel_reasons = [];
  order_total_cancel = pos 0;
  matched_amount = pos 5;
}

take_five :
    get_match_item whole to_even 40 (pos 0) 0 (pos 5) five_in_book true market
    ≡ (ok five_item, sold_market)
unfolding get_match_item try_trade item_of compute_amm_trade compute_amm_price trade_at settle_trade
    check_open_interest move_pool compute_amm_internal_trade compute_amm_internal_open traded
    compute_delta_margin compute_best_ask_bid_price_if_safe append_spread init_amm_trading_context
    collect empty_context with_current with_cash init_amm_trading_context_eager_evaluation
    is_amm_safe compute_amm_pool_margin copy_amm_trading_context sum_values sum_squares sum_margins
    compute_amm_safe_condition2 compute_amm_safe_condition3 compute_amm_safe_short_position_amount
    sqrt_decimal newton raise_guess set_perpetual compute_open_interest compute_trade_with_price
    trade_position settle_margin deposit adjust_margin_leverage compute_account compute_fee
    compute_increase_position move_position account_of split_amount has_the_same_sign abs
    get_perpetual quotient negate ◌+ℤ◌ ◌-ℤ◌ ◌*ℤ◌
take_five = refl

get_match_item-IsTried_example :
    IsTried whole to_even 40 (pos 0) 0 five_in_book five_item sold_market
get_match_item-IsTried_example =
    get_match_item-IsTried whole to_even 40 (pos 0) 0 (pos 5) five_in_book true five_item market
      sold_market take_five

match_five :
    match_in_pool whole to_even 40
      (pos 0)
      contract
      9_000_000
      five_book
      (record { pool = pool; chain = tt })
    ≡ some (five_item ∷ [], record { pool = sold_market.pool; chain = tt })
unfolding match_in_pool walk_prices match_next_price match_one_side walk_orders match_order
    take_order add_item is_triggered get_gas_fee_limit funded_account wallet_balance get_match_item
    try_trade item_of get_bid_prices_desc get_ask_prices_asc sort_slice insert_sorted
    get_bid_orders_by_price get_ask_orders_by_price get_orders_by_price Level.get_orders find read
    strokes compute_amm_amount_with_price compute_amm_open_amount_with_price
    compute_best_ask_bid_price compute_amm_close_and_open_amount_with_price compute_amm_inverse_vwap
    compute_amm_trade compute_amm_price trade_at settle_trade check_open_interest move_pool
    compute_amm_internal_trade compute_amm_internal_open traded compute_delta_margin
    compute_best_ask_bid_price_if_safe append_spread init_amm_trading_context collect empty_context
    with_current with_cash init_amm_trading_context_eager_evaluation is_amm_safe
    compute_amm_pool_margin copy_amm_trading_context sum_values sum_squares sum_margins
    compute_amm_safe_condition2 compute_amm_safe_condition3 compute_amm_safe_short_position_amount
    sqrt_decimal newton raise_guess set_perpetual compute_open_interest compute_trade_with_price
    trade_position settle_margin deposit adjust_margin_leverage compute_account compute_fee
    compute_increase_position move_position account_of split_amount has_the_same_sign abs
    get_perpetual quotient negate ◌+ℤ◌ ◌-ℤ◌ ◌*ℤ◌
match_five = refl

match_in_pool_bound_example : length (five_item ∷ []) * get_gas_fee_limit 1 false ≤ 9_000_000
match_in_pool_bound_example =
    match_in_pool_bound whole to_even 40 (pos 0) contract 9_000_000 five_book (five_item ∷ [])
      (record { pool = pool; chain = tt }) (record { pool = sold_market.pool; chain = tt })
      match_five

match_in_pool_ends_example :
    (r : List (MatchItem ℤ) × Engine (Unit {0}) ℤ) × (match_in_pool whole to_even 40
        (pos 0)
        contract
        9_000_000
        five_book
        (record { pool = pool; chain = tt })
      ≡ some r)
match_in_pool_ends_example =
    match_in_pool_ends whole to_even 40 (pos 0) contract 9_000_000 five_book
      (record { pool = pool; chain = tt })

abbrev funds : Funds ℤ
funds = record { position = negsuc 2; margin = pos 100; wallet = pos 7 }

close_orders_wallet_example :
    AtLeast (close_orders pool perpetual (five ∷ []) funds).0.wallet (pos 7)
close_orders_wallet_example = close_orders_wallet pool perpetual (five ∷ []) funds

abbrev checked_five : Order ℤ
checked_five = record five { check_amount = pos 5 }

abbrev rich : Funds ℤ
rich = record { position = pos 0; margin = pos 0; wallet = pos 1000 }

five_paid : (open_orders pool 0 perpetual (pos 1) (checked_five ∷ []) rich).0 ≡ []
unfolding open_orders open_order open_order_cost get_perpetual quotient negate abs ◌+ℤ◌ ◌-ℤ◌ ◌*ℤ◌
five_paid = refl

open_orders_paid_example :
    (let (cancels, f) = open_orders pool 0 perpetual (pos 1) (checked_five ∷ []) rich in
      (add f.wallet f.margin
        ≡ add (add rich.wallet rich.margin) (outlays pool 0 (pos 1) (checked_five ∷ [])))
      × AtLeast f.margin (required perpetual f.position)
      × ((cancels ≢ []) ⊎ AtLeast f.wallet (pos 0)))
open_orders_paid_example = open_orders_paid pool 0 perpetual (pos 1) checked_five [] rich refl

compute_order_available_cancels_example :
    CancelsOf (five ∷ bid ∷ []) (compute_order_available pool 0 trader (five ∷ bid ∷ [])).0
compute_order_available_cancels_example =
    compute_order_available_cancels pool 0 trader (five ∷ bid ∷ [])

abbrev pub cache : PoolSyncer (Unit {0}) ℤ
cache = record {
  pool_storage = ("p", record { storage = some pool; latest_get = 3; is_dirty = false }) ∷ [];
  chain = tt;
}

get_pool_storage_dirty_example :
    (get_pool_storage 5 "p" (set_pool_storage_dirty "p" cache)).0 ≡ (fetch "p" cache).0
get_pool_storage_dirty_example = get_pool_storage_dirty 5 "p" cache
