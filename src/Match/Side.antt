-- ===== src/Match/Side.antt =====
-- match/order.go: the walk over the book's prices, best bid and best ask side by side, and over the
-- orders of each price. Trials change the pool that the engine holds, and the chain is asked anew
-- for each order, so both are passed along.
pub mod Bounds
pub mod Loop
use mai3_broker.Base.{
  ℕ, zero, suc, ◌+◌, ◌*◌, ◌/◌, List, [], ◌∷◌, ◌++◌, length, Option, none, some, Bool, true, false,
  not, ◌&&◌, ◌||◌, ◌==◌, max, Result, ok, err, if◌then◌else◌,
}
use mai3_broker.Base.Int.{pos}
use mai3_broker.Decimal.{
  Decimal, of_int, sub, mul, div, round, abs, less_than, greater_than, is_zero, is_positive,
  is_negative,
}
use mai3_broker.Amount.{has_the_same_sign}
use mai3_broker.Order.{stop_limit_order, take_profit_order}
use mai3_broker.Orderbook.Containers.{OrderedMap, PriceTree}
use mai3_broker.Orderbook.Level.{MemoryOrder, PriceLevel}
use mai3_broker.Orderbook.Book.{Book, get_bid_orders_by_price, get_ask_orders_by_price}
use mai3_broker.Orderbook.Prices.{get_bid_prices_desc, get_ask_prices_asc}
use mai3_broker.Mai3.Math.{Floats}
use mai3_broker.Mai3.Storage.{PerpetualStorage, LiquidityPoolStorage, AccountStorage, get_perpetual}
use mai3_broker.Mai3.Amm.Quote.{compute_amm_amount_with_price}
use mai3_broker.Mai3.Pool.{Market}
use mai3_broker.Match.Chain.{Chain, Perpetual, ChainError, funded_account}
use mai3_broker.Match.Item.{MatchItem, ItemError, get_match_item}

abbrev pub decimals : ℕ
decimals = 18

-- common/mai3/consts.go
abbrev pub mai_v3_base_gas : ℕ
mai_v3_base_gas = 4_800_000

abbrev pub mai_v3_gas_for_each_perp : ℕ
mai_v3_gas_for_each_perp = 7_300

abbrev pub mai_v3_base_gas_close_only : ℕ
mai_v3_base_gas_close_only = 1_129_722

abbrev pub mai_v3_gas_for_each_perp_close_only : ℕ
mai_v3_gas_for_each_perp_close_only = 22_330

-- common/mai3/order.go
unfoldable pub get_gas_fee_limit : ℕ → Bool → ℕ
get_gas_fee_limit perpetual_count is_close_only =
    if is_close_only
    then mai_v3_base_gas_close_only + mai_v3_gas_for_each_perp_close_only * perpetual_count
    else mai_v3_base_gas + mai_v3_gas_for_each_perp * perpetual_count

-- How many orders fit in one transaction.
abbrev pub max_match_group : {D : Type 0} → ℕ → LiquidityPoolStorage D → ℕ
max_match_group gas_limit pool = gas_limit / get_gas_fee_limit (length pool.perpetuals) false

pub record Engine (C D : Type 0) : Type 0 where
  pub pool : LiquidityPoolStorage D
  pub chain : C

abbrev pub drop_first : {A : Type 0} → List A → List A
drop_first [] = []
drop_first (x ∷ xs) = xs

-- What the loop over the orders of one price changes.
pub record Walk (C D : Type 0) : Type 0 where
  pub max_trade_amount : D
  pub result : List (MatchItem D)
  pub engine : Engine C D

-- The end of one round of that loop: on to the next order, or out of it, with the answer whether
-- the other prices of the side are worth a look.
pub data Turn (C D : Type 0) : Type 0 where
  next : Walk C D → Turn C D
  leave : Bool → Walk C D → Turn C D

module _ {D : Type 0} ⦃dec : Decimal D⦄ where
  -- 0.99
  abbrev pub trade_amount_relax_factor : D
  trade_amount_relax_factor = div (of_int (pos 99)) (of_int (pos 100))

  -- A stop order waits for the index price, which no trade of the engine changes.
  unfoldable pub is_triggered : D → MemoryOrder D → Bool
  is_triggered index_price order =
      if order.type == stop_limit_order
      then not (is_zero index_price)
        && not (is_positive order.amount && less_than index_price order.trigger_price)
        && not (is_negative order.amount && greater_than index_price order.trigger_price)
      else if order.type == take_profit_order
      then not (is_zero index_price)
        && not (is_positive order.amount && greater_than index_price order.trigger_price)
        && not (is_negative order.amount && less_than index_price order.trigger_price)
      else true

module _ {D M T : Type 0} ⦃dec : Decimal D⦄ ⦃om : OrderedMap M (MemoryOrder D)⦄
    ⦃pt : PriceTree T D (PriceLevel D M)⦄ where
  abbrev pub orders_at : Book D M T → Bool → D → List (MemoryOrder D)
  orders_at book is_buy price =
      if is_buy then get_bid_orders_by_price book price else get_ask_orders_by_price book price

module _ {F C D : Type 0} ⦃dec : Decimal D⦄ ⦃ch : Chain C D⦄ (fl : Floats F D)
    (round_bank : ℕ → D → D) (fuel : ℕ) (tolerance : F) (perpetual : Perpetual) where
  -- An item is added if the market maker takes the order, and the account that was asked for is
  -- forgotten.
  unfoldable pub add_item :
      D → MemoryOrder D → Bool → AccountStorage D → Walk C D → Option (MatchItem D) × Walk C D
  add_item amount order is_buy account w =
      let (r, market) =
        get_match_item fl round_bank fuel tolerance perpetual.perpetual_index amount order is_buy
          (record { pool = w.engine.pool; trader = account }) in
      let engine = record w.engine { pool = market.pool } in
      elim r [
        | err e ↦ (none, record w { engine = engine })
        | ok item ↦ (some item, record w { result = w.result ++ item ∷ []; engine = engine })
      ]

  -- An order that the price has room for is matched in full, and the last one in part.
  unfoldable pub take_order : MemoryOrder D → Bool → AccountStorage D → Walk C D → Turn C D
  unfolding add_item
  take_order order is_buy account w =
      let part = less_than (abs w.max_trade_amount) (abs order.amount) in
      let amount =
        if part
        then round decimals (mul w.max_trade_amount trade_amount_relax_factor)
        else order.amount in
      let (item, w') = add_item amount order is_buy account w in
      elim item [
        | none ↦ next w'
        | some _ ↦
            if part
            then leave true w'
            else next (record w' { max_trade_amount = sub w.max_trade_amount order.amount })
      ]

  unfoldable pub match_order : ℕ → D → Bool → MemoryOrder D → Walk C D → Turn C D
  unfolding take_order is_triggered
  match_order max_group index_price is_buy order w =
      if length w.result == max_group
      then leave false w
      else if less_than (abs w.max_trade_amount) (abs order.min_trade_amount)
          || not (is_triggered index_price order)
      then next w
      else (let (r, chain) = funded_account perpetual order.trader w.engine.chain in
          let asked = record w { engine = record w.engine { chain = chain } } in
          elim r [ err e ↦ leave false asked | ok account ↦ take_order order is_buy account asked ])

  unfoldable pub walk_orders : ℕ → D → Bool → List (MemoryOrder D) → Walk C D → Bool × Walk C D
  unfolding match_order
  walk_orders max_group index_price is_buy [] w = (true, w)
  walk_orders max_group index_price is_buy (o ∷ os) w =
      elim (match_order max_group index_price is_buy o w) [
        | leave go_on w' ↦ (go_on, w')
        | next w' ↦ walk_orders max_group index_price is_buy os w'
      ]

  module _ {M T : Type 0} ⦃om : OrderedMap M (MemoryOrder D)⦄
      ⦃pt : PriceTree T D (PriceLevel D M)⦄ where
    -- Whether to go on with the side, and what is matched so far.
    unfoldable pub match_one_side :
        Book D M T
        → D
        → Bool
        → ℕ
        → List (MatchItem D)
        → Engine C D
        → Bool × List (MatchItem D) × Engine C D
    unfolding walk_orders
    match_one_side book price is_buy max_group result e = elim (orders_at book is_buy price) [
      | [] ↦ (true, result, e)
      | o ∷ os ↦ elim (get_perpetual perpetual.perpetual_index e.pool.perpetuals) [
        | none ↦ (false, result, e)
        | some q ↦
            let most =
              compute_amm_amount_with_price fl round_bank fuel e.pool perpetual.perpetual_index
                is_buy price in
            if not q.is_normal || is_zero most || not (has_the_same_sign most o.amount)
            then (false, result, e)
            else (let (go_on, w) =
                  walk_orders max_group q.index_price is_buy (o ∷ os)
                    (record { max_trade_amount = most; result = result; engine = e }) in
                (go_on, w.result, w.engine))
      ]
    ]

    -- The first of the prices of a side that are left.
    unfoldable pub match_next_price :
        Book D M T
        → Bool
        → ℕ
        → List D
        → List (MatchItem D)
        → Engine C D
        → Bool × List (MatchItem D) × Engine C D
    unfolding match_one_side
    match_next_price book is_buy max_group [] result e = (false, result, e)
    match_next_price book is_buy max_group (p ∷ ps) result e =
        match_one_side book p is_buy max_group result e

    -- The loop that takes one price of each side in each round, on fuel: `none` if that runs out.
    unfoldable pub walk_prices :
        ℕ
        → Book D M T
        → ℕ
        → List D
        → List D
        → List (MatchItem D)
        → Engine C D
        → Option (List (MatchItem D) × Engine C D)
    unfolding match_next_price
    walk_prices zero book max_group bids asks result e = none
    walk_prices (suc n) book max_group bids asks result e =
        let (bid_continue, result1, e1) = match_next_price book true max_group bids result e in
        let (ask_continue, result2, e2) = match_next_price book false max_group asks result1 e1 in
        let rest = walk_prices n book max_group (drop_first bids) (drop_first asks) result2 e2 in
        if bid_continue || ask_continue then rest else some (result2, e2)

    -- One round more than the longer side has prices.
    unfoldable pub match_in_pool :
        ℕ → Book D M T → Engine C D → Option (List (MatchItem D) × Engine C D)
    unfolding walk_prices get_gas_fee_limit
    match_in_pool gas_limit book e =
        let bids = get_bid_prices_desc book in
        let asks = get_ask_prices_asc book in
        walk_prices (suc (max (length bids) (length asks))) book (max_match_group gas_limit e.pool)
          bids asks [] e
