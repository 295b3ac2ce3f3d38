-- ===== src/Match/Monitor.antt =====
-- match/monitor.go: which of a user's active orders have to be canceled. An account that the chain
-- does not have comes with an error. The maps of collaterals and perpetuals are walked in the order
-- in which their keys came.
use mai3_broker.Base.{
  ℕ, ◌-◌, leb, String, List, [], ◌∷◌, ◌++◌, Option, none, some, Bool, not, ◌&&◌, str_eq, ok, err,
  if◌then◌else◌,
}
use Prim.Native.Char.{Char, code}
use Prim.Native.String.{char_at}
use mai3_broker.Base.Actions.{Action, ◌>>=◌, pure, fail_with}
use mai3_broker.Decimal.{Decimal, zero, is_zero, min_dec}
use mai3_broker.Order.{Order}
use mai3_broker.Order.CancelReason
use mai3_broker.Mai3.Storage.{LiquidityPoolStorage, AccountStorage}
use mai3_broker.Match.CloseOnly.{check_close_only}
use mai3_broker.Match.Chain.{Chain, ChainError, no_answer}
use mai3_broker.Match.Available.{OrderCancel, compute_order_available}
use mai3_broker.Match.PoolSyncer.{PoolSyncer, get_pool_storage}
use mai3_broker.Match.OrderChecks.{same_perpetual, is_normal_perpetual}

pub record OrdersPerpMap (D : Type 0) : Type 0 where
  pub liquidity_pool_address : String
  pub perpetual_index : ℕ
  pub account : AccountStorage D
  pub pool_storage : LiquidityPoolStorage D
  pub orders : List (Order D)

pub record OrdersCollateral (D : Type 0) : Type 0 where
  pub collateral : String
  pub wallet_balance : D
  pub order_map : List (OrdersPerpMap D)

pub record Checked (D : Type 0) : Type 0 where
  pub res : List (OrdersCollateral D)
  pub cancels : List (OrderCancel D)

-- `strings.ToLower`, for the letters that an address is made of.
unfoldable pub to_lower_char : Char → Char
to_lower_char c =
    if leb 65 (code c) && leb (code c) 90
    then char_at "abcdefghijklmnopqrstuvwxyz" (code c - 65)
    else c

unfoldable pub to_lower : String → String
unfolding to_lower_char
to_lower String.[] = ""
to_lower (String.◌∷◌ c s) = String.◌∷◌ (to_lower_char c) (to_lower s)

module _ {D : Type 0} where
  abbrev pub cancel_with : Order D → D → String → OrderCancel D
  cancel_with order amount reason = record {
    liquidity_pool_address = order.liquidity_pool_address;
    perpetual_index = order.perpetual_index;
    order_hash = order.order_hash;
    status = order.status;
    to_cancel = amount;
    reason = reason;
  }

  unfoldable pub find_collateral : String → List (OrdersCollateral D) → Option (OrdersCollateral D)
  find_collateral c [] = none
  find_collateral c (x ∷ xs) = if str_eq x.collateral c then some x else find_collateral c xs

  unfoldable pub set_collateral :
      OrdersCollateral D → List (OrdersCollateral D) → List (OrdersCollateral D)
  set_collateral y [] = y ∷ []
  set_collateral y (x ∷ xs) =
      if str_eq x.collateral y.collateral then y ∷ xs else x ∷ set_collateral y xs

  abbrev pub is_of_perp : Order D → OrdersPerpMap D → Bool
  is_of_perp o v =
      same_perpetual v.liquidity_pool_address v.perpetual_index o.liquidity_pool_address
        o.perpetual_index

  unfoldable pub find_perp : Order D → List (OrdersPerpMap D) → Option (OrdersPerpMap D)
  find_perp o [] = none
  find_perp o (v ∷ vs) = if is_of_perp o v then some v else find_perp o vs

  unfoldable pub set_perp :
      Order D → OrdersPerpMap D → List (OrdersPerpMap D) → List (OrdersPerpMap D)
  set_perp o y [] = y ∷ []
  set_perp o y (v ∷ vs) = if is_of_perp o v then y ∷ vs else v ∷ set_perp o y vs

module _ {D : Type 0} ⦃dec : Decimal D⦄ where
  -- `broker` is the broker's address of the configuration. An order that was signed for another broker is
  -- canceled, and so is one of a perpetual that is not normal.
  unfoldable pub single_order_check :
      String → Order D → LiquidityPoolStorage D → AccountStorage D → Option (OrderCancel D)
  unfolding is_normal_perpetual to_lower
  single_order_check broker order pool account =
      let amount = check_close_only account order in
      if not (str_eq order.broker_address (to_lower broker))
      then some (cancel_with order order.available_amount CancelReason.transaction_fail)
      else if not (is_normal_perpetual order.perpetual_index pool)
      then some (cancel_with order order.available_amount CancelReason.contract_settled)
      else if not (is_zero amount)
      then some (cancel_with order amount CancelReason.close_only)
      else none

  abbrev pub without_pending : Order D → Order D
  without_pending order = record order { pending_amount = zero }

  abbrev pub new_perp : LiquidityPoolStorage D → AccountStorage D → Order D → OrdersPerpMap D
  new_perp pool account order = record {
    liquidity_pool_address = order.liquidity_pool_address;
    perpetual_index = order.perpetual_index;
    account = account;
    pool_storage = pool;
    orders = order ∷ [];
  }

  abbrev pub canceling : Checked D → OrderCancel D → Checked D
  canceling c x = record c { cancels = c.cancels ++ x ∷ [] }

  -- An order of a perpetual that is known with the collateral.
  unfoldable pub check_known :
      String → Order D → OrdersCollateral D → OrdersPerpMap D → Checked D → Checked D
  unfolding single_order_check set_collateral set_perp
  check_known broker order coll perp c =
      elim (single_order_check broker order perp.pool_storage perp.account) [
        | some x ↦ canceling c x
        | none ↦
            let perp' = record perp { orders = perp.orders ++ without_pending order ∷ [] } in
            record c {
              res =
                  set_collateral (record coll { order_map = set_perp order perp' coll.order_map })
                    c.res;
            }
      ]

  -- The orders that the wallet does not pay, one perpetual after the other.
  unfoldable pub unpaid_orders : D → List (OrdersPerpMap D) → List (OrderCancel D)
  unpaid_orders wallet [] = []
  unpaid_orders wallet (v ∷ vs) =
      let (cancels, available) =
        compute_order_available v.pool_storage v.perpetual_index
          (record v.account { wallet_balance = wallet }) v.orders in
      cancels ++ unpaid_orders available vs

  unfoldable pub unpaid_in_all : List (OrdersCollateral D) → List (OrderCancel D)
  unfolding unpaid_orders
  unpaid_in_all [] = []
  unpaid_in_all (x ∷ xs) = unpaid_orders x.wallet_balance x.order_map ++ unpaid_in_all xs

module _ {C D : Type 0} ⦃dec : Decimal D⦄ ⦃ch : Chain C D⦄ where
  abbrev pub ask : {A : Type 0} → Action ChainError C A → Action ChainError (PoolSyncer C D) A
  ask f p = let (r, chain) = f p.chain in (r, record p { chain = chain })

  abbrev pub cached_pool : ℕ → String → Action ChainError (PoolSyncer C D) (LiquidityPoolStorage D)
  cached_pool now pool p =
      let (found, p') = get_pool_storage now pool p in
      elim found [ none ↦ (err no_answer, p') | some s ↦ (ok s, p') ]

  -- `decimals_of` looks up the engine of a perpetual, for the decimals of its collateral.
  module _ (broker : String) (decimals_of : String → ℕ → Option ℕ) (now : ℕ) where
    -- The first order of a further perpetual with the collateral. It keeps its pending amount.
    unfoldable pub check_new_perp :
        Order D → OrdersCollateral D → Checked D → Action ChainError (PoolSyncer C D) (Checked D)
    unfolding single_order_check set_collateral
    check_new_perp order coll c = do
      pool ← cached_pool now order.liquidity_pool_address
      account ← ask (
          ch.get_account_storage order.perpetual_index order.liquidity_pool_address
            order.trader_address)
      pure (elim (single_order_check broker order pool account) [
        | some x ↦ canceling c x
        | none ↦ record c {
          res =
              set_collateral
                (record coll { order_map = coll.order_map ++ new_perp pool account order ∷ [] })
                c.res;
        }
      ])

    unfoldable pub add_collateral :
        Order D
        → LiquidityPoolStorage D
        → AccountStorage D
        → Checked D
        → Action ChainError (PoolSyncer C D) (Checked D)
    add_collateral order pool account c =
        elim (decimals_of order.liquidity_pool_address order.perpetual_index) [
          | none ↦ fail_with no_answer
          | some decimals ↦ (do
            balance ← ask (ch.balance_of order.collateral_address order.trader_address decimals)
            allowance ← ask (
                ch.allowance order.collateral_address order.trader_address
                  order.liquidity_pool_address decimals)
            pure (record c {
              res =
                  c.res
                  ++ record {
                    collateral = order.collateral_address;
                    wallet_balance = min_dec balance allowance;
                    order_map = new_perp pool account (without_pending order) ∷ [];
                  }
                    ∷ [];
            }))
        ]

    -- The first order with the collateral.
    unfoldable pub check_new_collateral :
        Order D → Checked D → Action ChainError (PoolSyncer C D) (Checked D)
    unfolding single_order_check add_collateral
    check_new_collateral order c = do
      pool ← cached_pool now order.liquidity_pool_address
      account ← ask (
          ch.get_account_storage order.perpetual_index order.liquidity_pool_address
            order.trader_address)
      elim (single_order_check broker order pool account) [
        | some x ↦ pure (canceling c x)
        | none ↦ add_collateral order pool account c
      ]

    unfoldable pub check_active_order :
        Order D → Checked D → Action ChainError (PoolSyncer C D) (Checked D)
    unfolding check_known check_new_perp check_new_collateral find_collateral find_perp
    check_active_order order c = elim (find_collateral order.collateral_address c.res) [
      | none ↦ check_new_collateral order c
      | some coll ↦ elim (find_perp order coll.order_map) [
        | some perp ↦ pure (check_known broker order coll perp c)
        | none ↦ check_new_perp order coll c
      ]
    ]

    unfoldable pub split_active_orders_in_each_perpetual :
        List (Order D) → Checked D → Action ChainError (PoolSyncer C D) (Checked D)
    unfolding check_active_order
    split_active_orders_in_each_perpetual [] c = pure c
    split_active_orders_in_each_perpetual (o ∷ os) c =
        check_active_order o c >>= split_active_orders_in_each_perpetual os

    -- On an error nothing is canceled.
    unfoldable pub check_user_pending_orders :
        Option (List (Order D)) → PoolSyncer C D → List (OrderCancel D) × PoolSyncer C D
    unfolding split_active_orders_in_each_perpetual unpaid_in_all
    check_user_pending_orders none p = ([], p)
    check_user_pending_orders (some orders) p =
        let (r, p') =
          split_active_orders_in_each_perpetual orders (record { res = []; cancels = [] }) p in
        elim r [ err e ↦ ([], p') | ok c ↦ (c.cancels ++ unpaid_in_all c.res, p') ]
