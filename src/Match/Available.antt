-- ===== src/Match/Available.antt =====
-- match/order.go: what an account can still pay once all its active orders are filled, and which of
-- them it cannot pay.
pub mod Wallet
pub mod Cancels
use mai3_broker.Base.{
  ℕ, String, List, [], ◌∷◌, ◌++◌, none, some, Bool, not, ◌&&◌, ok, err, if◌then◌else◌,
}
use mai3_broker.Base.Int.{pos}
use mai3_broker.Decimal.{
  Decimal, of_int, zero, add, sub, mul, div, abs, min_dec, max_dec, less_than, greater_than,
  greater_than_or_equal, equal, is_zero,
}
use mai3_broker.Amount.{split_amount}
use mai3_broker.Order.{Order, OrderStatus}
use mai3_broker.Order.CancelReason
use mai3_broker.Orderbook.Prices.{sort_slice}
use mai3_broker.Mai3.Storage.{PerpetualStorage, LiquidityPoolStorage, AccountStorage, get_perpetual}
use mai3_broker.Mai3.Account.{compute_account}

-- match/monitor.go
pub record OrderCancel (D : Type 0) : Type 0 where
  pub liquidity_pool_address : String
  pub perpetual_index : ℕ
  pub order_hash : String
  pub status : OrderStatus
  pub to_cancel : D
  pub reason : String

-- The variables of `sideAvailable` that its loops change.
pub record Funds (D : Type 0) : Type 0 where
  pub position : D
  pub margin : D
  pub wallet : D

pub record OpenCost (D : Type 0) : Type 0 where
  pub cost : D
  pub fee : D
  pub potential_loss : D

module _ {D : Type 0} ⦃dec : Decimal D⦄ where
  abbrev pub fee_rate_of : LiquidityPoolStorage D → PerpetualStorage D → D
  fee_rate_of pool q = add (add pool.vault_fee_rate q.lp_fee_rate) q.operator_fee_rate

  -- The orders that buy and those that sell, in the order of the list.
  unfoldable pub split_sides : List (Order D) → List (Order D) × List (Order D)
  split_sides [] = ([], [])
  split_sides (o ∷ os) =
      let amount = add o.available_amount o.pending_amount in
      let order = record o { check_amount = amount } in
      let (buys, sells) = split_sides os in
      if less_than amount zero
      then (buys, order ∷ sells)
      else if greater_than amount zero
      then (order ∷ buys, sells)
      else (buys, sells)

  abbrev pub by_price_desc : Order D → Order D → Bool
  by_price_desc a b = greater_than a.price b.price

  abbrev pub by_price_asc : Order D → Order D → Bool
  by_price_asc a b = less_than a.price b.price

  unfoldable pub split_active_orders : List (Order D) → List (Order D) × List (Order D)
  unfolding split_sides
  split_active_orders orders =
      let (buys, sells) = split_sides orders in
      (sort_slice by_price_desc buys, sort_slice by_price_asc sells)

  unfoldable pub open_order_cost : LiquidityPoolStorage D → ℕ → Order D → D → OpenCost D
  open_order_cost pool i order leverage = elim (get_perpetual i pool.perpetuals) [
    | none ↦ record { cost = zero; fee = zero; potential_loss = zero }
    | some q ↦
        let amount = order.check_amount in
        let loss = min_dec zero (mul (sub q.mark_price order.price) amount) in
        let fee = mul (mul order.price (abs amount)) (fee_rate_of pool q) in
        let margin =
          if less_than amount zero && less_than order.price q.mark_price
          then div (mul q.mark_price (abs amount)) leverage
          else div (mul order.price (abs amount)) leverage in
        record { cost = sub (add margin fee) loss; fee = fee; potential_loss = loss }
  ]

  -- The initial margin of a position, and the reserve of one that is not empty.
  unfoldable pub position_margin : PerpetualStorage D → D → D
  position_margin q position =
      let margin = mul (mul q.mark_price (abs position)) q.initial_margin_rate in
      if is_zero position then margin else add margin q.keeper_gas_reward

  -- The margin once `close` of the position is closed, its fee paid.
  unfoldable pub margin_after_close :
      LiquidityPoolStorage D → PerpetualStorage D → Funds D → Order D → D → D
  unfolding position_margin
  margin_after_close pool q f order close =
      let after = add f.margin (min_dec (mul (sub q.mark_price order.price) close) zero) in
      let fee = mul (mul order.price (abs close)) (fee_rate_of pool q) in
      sub after (
        if equal close order.check_amount
        then min_dec (max_dec (sub after (position_margin q (add f.position close))) zero) fee
        else fee)

  -- The margin in excess of the share that stays with what is left of the position.
  unfoldable pub excess_margin : PerpetualStorage D → Funds D → D → D → D
  excess_margin q f after close =
      let ratio = abs (div close f.position) in
      let left = mul (sub (of_int (pos 1)) ratio) (sub f.margin q.keeper_gas_reward) in
      let withdraw = sub after left in
      if is_zero (add f.position close) then withdraw else sub withdraw q.keeper_gas_reward

  -- What is taken out then, of a margin that is not below the initial one. Nothing is put in.
  unfoldable pub withdrawn : PerpetualStorage D → Funds D → D → D → D
  unfolding position_margin excess_margin
  withdrawn q f after close =
      if greater_than_or_equal after (position_margin q (add f.position close))
      then max_dec zero (excess_margin q f after close)
      else zero

  -- An order against the position. What is left of the order is to be opened.
  unfoldable pub close_order :
      LiquidityPoolStorage D → PerpetualStorage D → Order D → Funds D → Funds D × List (Order D)
  unfolding margin_after_close withdrawn
  close_order pool q order f =
      let close = (split_amount f.position order.check_amount).0 in
      let after = margin_after_close pool q f order close in
      let withdraw = withdrawn q f after close in
      let left = sub order.check_amount close in
      if is_zero close
      then (f, order ∷ [])
      else if less_than after zero
      then (record f { position = zero; margin = zero }, order ∷ [])
      else (
        record {
          position = add f.position close;
          margin = sub after withdraw;
          wallet = add f.wallet withdraw;
        },
        if is_zero left then [] else record order { check_amount = left } ∷ [],
      )

  unfoldable pub close_orders :
      LiquidityPoolStorage D
      → PerpetualStorage D
      → List (Order D)
      → Funds D
      → Funds D × List (Order D)
  unfolding close_order
  close_orders pool q [] f = (f, [])
  close_orders pool q (o ∷ os) f =
      let (f1, left) = close_order pool q o f in
      let (f2, lefts) = close_orders pool q os f1 in (f2, left ++ lefts)

  -- An account without a position gives all its margin back.
  unfoldable pub release_margin : Funds D → Funds D
  release_margin f =
      if is_zero f.position then record f { wallet = add f.wallet f.margin; margin = zero } else f

  abbrev pub cancel_of : Order D → OrderCancel D
  cancel_of order = record {
    liquidity_pool_address = order.liquidity_pool_address;
    perpetual_index = order.perpetual_index;
    order_hash = order.order_hash;
    status = order.status;
    to_cancel = order.available_amount;
    reason = CancelReason.insufficient_funds;
  }

  unfoldable pub open_order :
      LiquidityPoolStorage D → ℕ → PerpetualStorage D → D → Order D → Funds D → Funds D
  unfolding open_order_cost
  open_order pool i q leverage order f =
      let c = open_order_cost pool i order leverage in
      let cost1 = if is_zero f.position then add c.cost q.keeper_gas_reward else c.cost in
      let position = add f.position order.check_amount in
      let margin = sub (add f.margin c.potential_loss) c.fee in
      let im =
        add (mul (mul q.mark_price (abs position)) q.initial_margin_rate) q.keeper_gas_reward in
      let cost = max_dec (sub im margin) cost1 in
      record { position = position; margin = add margin cost; wallet = sub f.wallet cost }

  unfoldable pub open_orders :
      LiquidityPoolStorage D
      → ℕ
      → PerpetualStorage D
      → D
      → List (Order D)
      → Funds D
      → List (OrderCancel D) × Funds D
  unfolding open_order
  open_orders pool i q leverage [] f = ([], f)
  open_orders pool i q leverage (o ∷ os) f =
      let f1 = open_order pool i q leverage o f in
      let (cancels, f2) = open_orders pool i q leverage os f1 in
      (if less_than f1.wallet zero then cancel_of o ∷ cancels else cancels, f2)

  unfoldable pub side_available :
      LiquidityPoolStorage D → ℕ → D → List (Order D) → Funds D → List (OrderCancel D) × D
  unfolding close_orders release_margin open_orders
  side_available pool i leverage [] f = ([], f.wallet)
  side_available pool i leverage (o ∷ os) f = elim (get_perpetual i pool.perpetuals) [
    | none ↦ ([], f.wallet)
    | some q ↦
        let (f1, left) = close_orders pool q (o ∷ os) f in
        let (cancels, f2) = open_orders pool i q leverage left (release_margin f1) in
        (cancels, f2.wallet)
  ]

  unfoldable pub compute_order_available :
      LiquidityPoolStorage D → ℕ → AccountStorage D → List (Order D) → List (OrderCancel D) × D
  unfolding split_active_orders side_available
  compute_order_available pool i account orders =
      let (buys, sells) = split_active_orders orders in
      elim (compute_account pool i account) [
        | err e ↦ ([], zero)
        | ok computed ↦
            let f : Funds D = record {
              position = account.position_amount;
              margin = computed.margin_balance;
              wallet = account.wallet_balance;
            } in
            let (buy_cancels, buy_available) =
              side_available pool i account.target_leverage buys f in
            let (sell_cancels, sell_available) =
              side_available pool i account.target_leverage sells f in
            (buy_cancels ++ sell_cancels, min_dec buy_available sell_available)
      ]
