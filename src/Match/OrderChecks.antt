-- ===== src/Match/OrderChecks.antt =====
-- match/new_order.go: the checks of a new order.
pub mod Keeps
use mai3_broker.Base.{
  ℕ, suc, String, List, [], ◌∷◌, ◌++◌, length, Option, none, some, Bool, true, false, not, ◌&&◌,
  ltb, leb, ◌==◌, str_eq, Result, ok, err, if◌then◌else◌,
}
use mai3_broker.Base.Int.{pos}
use mai3_broker.Base.Actions.{Action, ◌>>=◌, ◌>>◌, pure, fail_with}
use mai3_broker.Decimal.{Decimal, of_int, zero, mul, less_than, equal, min_dec}
use mai3_broker.Amount.{to_wad, to_gwei}
use mai3_broker.Order.{Order}
use mai3_broker.Orderbook.Containers.{OrderedMap, PriceTree}
use mai3_broker.Orderbook.Level.{MemoryOrder, PriceLevel}
use mai3_broker.Orderbook.Book
use mai3_broker.Mai3.Storage.{PerpetualStorage, LiquidityPoolStorage, AccountStorage, get_perpetual}
use mai3_broker.Match.World as World
use mai3_broker.Match.World.{
  World, Database, MatchError, transaction, create_order, on_book, notify,
}
use mai3_broker.Match.Memory.{get_memory_order}
use mai3_broker.Match.Settle.{notice_of}
use mai3_broker.Match.CloseOnly.{check_close_only}
use mai3_broker.Match.Chain.{Chain, ChainError, Perpetual, wallet_balance}
use mai3_broker.Match.Available.{compute_order_available}
use mai3_broker.Match.Side.{get_gas_fee_limit}
use mai3_broker.Match.PoolSyncer.{PoolSyncer, get_pool_storage}
use mai3_broker.Match.Execute.{set_expiration_timer}
use mai3_broker.Match.Round.{Matcher}

-- The codes of common/model/order.go; `MatchOK` is a success.
pub data NewOrderError : Type 0 where
  internal_error : NewOrderError
  gas_not_enough : NewOrderError
  close_only : NewOrderError
  insufficient_balance : NewOrderError
  max_order_num_reach : NewOrderError

-- The settings of package conf that are read.
pub record Conf : Type 0 where
  pub max_order_num : ℕ
  pub gas_enable : Bool
  pub broker_address : String

abbrev pub channel_hwm : ℕ
channel_hwm = 64

pub record OrdersEachPerp (D : Type 0) : Type 0 where
  pub liquidity_pool_address : String
  pub perpetual_index : ℕ
  pub pool_storage : LiquidityPoolStorage D
  pub orders : List (Order D)

-- The printed pool and index are the key of the map of perpetuals; a key is printed from one pair.
abbrev pub same_perpetual : String → ℕ → String → ℕ → Bool
same_perpetual p i q j = str_eq p q && i == j

abbrev pub check : {E W : Type 0} → Bool → E → Action E W (Unit {0})
check true e = pure tt
check false e = fail_with e

module _ {D : Type 0} where
  -- The order joins those of its perpetual, if that is in the map.
  unfoldable pub join_perp : Order D → List (OrdersEachPerp D) → Option (List (OrdersEachPerp D))
  join_perp o [] = none
  join_perp o (v ∷ vs) =
      let rest = join_perp o vs in
      if same_perpetual v.liquidity_pool_address v.perpetual_index o.liquidity_pool_address
        o.perpetual_index
      then some (record v { orders = v.orders ++ o ∷ [] } ∷ vs)
      else elim rest [ none ↦ none | some ws ↦ some (v ∷ ws) ]

  unfoldable pub is_normal_perpetual : ℕ → LiquidityPoolStorage D → Bool
  is_normal_perpetual i pool = elim (get_perpetual i pool.perpetuals) [
    | none ↦ false
    | some q ↦ q.is_normal
  ]

  abbrev pub with_gas_fee_limit : LiquidityPoolStorage D → Order D → Order D
  with_gas_fee_limit pool order = record order {
    gas_fee_limit = pos (get_gas_fee_limit (length pool.perpetuals) order.is_close_only);
  }

module _ {C D M T S : Type 0} where
  abbrev pub on_chain :
      {A : Type 0} → Action ChainError C A → Action NewOrderError (Matcher C D M T S) A
  on_chain f m =
      let (r, chain) = f m.pool_syncer.chain in
      let m' = record m { pool_syncer = record m.pool_syncer { chain = chain } } in
      elim r [ ok a ↦ (ok a, m') | err e ↦ (err internal_error, m') ]

  abbrev pub on_world :
      {A : Type 0}
      → Action MatchError (World D M T S) A
      → Action NewOrderError (Matcher C D M T S) A
  on_world f m =
      let (r, world) = f m.world in
      let m' = record m { world = world } in
      elim r [ ok a ↦ (ok a, m') | err e ↦ (err internal_error, m') ]

  -- An answer that may be missing.
  abbrev pub or_internal : {A : Type 0} → Option A → Action NewOrderError (Matcher C D M T S) A
  or_internal none m = (err internal_error, m)
  or_internal (some a) m = (ok a, m)

  abbrev pub pool_of :
      ⦃ch : Chain C D⦄
      → ℕ
      → String
      → Action NewOrderError (Matcher C D M T S) (LiquidityPoolStorage D)
  pool_of now pool m =
      let (found, p) = get_pool_storage now pool m.pool_syncer in
      or_internal found (record m { pool_syncer = p })

  -- The loop's channel has room for so many messages.
  unfoldable pub trigger_match : Action NewOrderError (Matcher C D M T S) (Unit {0})
  trigger_match m = (ok tt, if ltb m.trgr channel_hwm then record m { trgr = suc m.trgr } else m)

module _ {C D M T S : Type 0} ⦃dec : Decimal D⦄ ⦃ch : Chain C D⦄ ⦃om : OrderedMap M (MemoryOrder D)⦄
    ⦃pt : PriceTree T D (PriceLevel D M)⦄ ⦃db : Database S D⦄ where
  -- The orders of each perpetual with the collateral, where an order starts a perpetual that is not
  -- there yet.
  unfoldable pub split_active_orders_with_collateral :
      ℕ
      → String
      → List (Order D)
      → List (OrdersEachPerp D)
      → Action NewOrderError (Matcher C D M T S) (List (OrdersEachPerp D))
  unfolding join_perp
  split_active_orders_with_collateral now collateral [] res = pure res
  split_active_orders_with_collateral now collateral (o ∷ os) res =
      (elim (join_perp o res) [
        | some joined ↦ pure joined
        | none ↦
            if str_eq o.collateral_address collateral
            then (pool_of now o.liquidity_pool_address >>= λ pool. pure (
                res
                ++ record {
                  liquidity_pool_address = o.liquidity_pool_address;
                  perpetual_index = o.perpetual_index;
                  pool_storage = pool;
                  orders = o ∷ [];
                }
                  ∷ []))
            else pure res
      ])
      >>= split_active_orders_with_collateral now collateral os

  -- One account after the other pays its orders from what the ones before it have left.
  unfoldable pub check_perps :
      Perpetual
      → String
      → AccountStorage D
      → D
      → List (OrdersEachPerp D)
      → Action NewOrderError (Matcher C D M T S) D
  check_perps perpetual trader account wallet [] = pure wallet
  check_perps perpetual trader account wallet (v ∷ vs) =
      (if same_perpetual v.liquidity_pool_address v.perpetual_index perpetual.liquidity_pool_address
          perpetual.perpetual_index
        then pure account
        else on_chain (ch.get_account_storage v.perpetual_index v.liquidity_pool_address trader))
      >>= λ (a : AccountStorage D).
          let available =
            (compute_order_available v.pool_storage v.perpetual_index
              (record a { wallet_balance = wallet }) v.orders).1 in
          check (not (less_than available zero)) insufficient_balance
          >> check_perps perpetual trader account available vs

  -- The gas of the trader pays for all active orders and this one, and so does the order's fee limit
  -- for this one.
  unfoldable pub check_gas :
      Conf → D → ℕ → Order D → Action NewOrderError (Matcher C D M T S) (Unit {0})
  check_gas conf gas_price active order =
      if not conf.gas_enable
      then pure tt
      else (on_chain (ch.get_gas_balance conf.broker_address order.trader_address)
          >>= λ (balance : D).
              check (not (less_than (to_wad balance) (mul gas_reward (of_int (pos (suc active))))))
                gas_not_enough
              >> check (not (less_than (to_gwei (of_int order.broker_fee_limit)) gas_reward))
                  gas_not_enough)
    where
      gas_reward : D
      gas_reward = mul gas_price (of_int order.gas_fee_limit)

  unfoldable pub check_funds :
      (List (OrdersEachPerp D) → List (OrdersEachPerp D))
      → ℕ
      → Perpetual
      → AccountStorage D
      → D
      → List (Order D)
      → Order D
      → Action NewOrderError (Matcher C D M T S) D
  unfolding split_active_orders_with_collateral check_perps
  check_funds iterate now perpetual account wallet active order =
      split_active_orders_with_collateral now order.collateral_address (active ++ order ∷ []) []
      >>= λ perps. check_perps perpetual order.trader_address account wallet (iterate perps)

  -- The settings of a check: `iterate` is the order in which Go walks the map of perpetuals.
  module _ (conf : Conf) (iterate : List (OrdersEachPerp D) → List (OrdersEachPerp D)) (now : ℕ)
      (perpetual : Perpetual) (gas_price : D) (active : List (Order D)) where
    unfoldable pub check_payment :
        AccountStorage D → D → Order D → Action NewOrderError (Matcher C D M T S) (Order D)
    unfolding check_gas check_funds
    check_payment account wallet order =
        check_gas conf gas_price (length active) order
        >> (check_funds iterate now perpetual account wallet active order >> pure order)

    -- The order gets the gas limit that goes with the number of perpetuals.
    unfoldable pub check_in_pool :
        AccountStorage D
        → D
        → Order D
        → LiquidityPoolStorage D
        → Action NewOrderError (Matcher C D M T S) (Order D)
    unfolding check_payment get_gas_fee_limit is_normal_perpetual
    check_in_pool account wallet order pool =
        check (is_normal_perpetual perpetual.perpetual_index pool) internal_error
        >> check_payment account wallet (with_gas_fee_limit pool order)

    unfoldable pub check_account :
        Order D → AccountStorage D → D → Action NewOrderError (Matcher C D M T S) (Order D)
    unfolding check_in_pool
    check_account order account wallet =
        check (equal (check_close_only account order) zero) close_only
        >> (pool_of now perpetual.liquidity_pool_address >>= check_in_pool account wallet order)

    -- All that is checked before the order is written.
    unfoldable pub check_order : Order D → Action NewOrderError (Matcher C D M T S) (Order D)
    unfolding check_account
    check_order order =
        check (ltb (length active) conf.max_order_num) max_order_num_reach
        >> (on_chain (
              ch.get_account_storage perpetual.perpetual_index perpetual.liquidity_pool_address
                order.trader_address)
            >>= λ account.
                on_chain (wallet_balance perpetual order.trader_address)
                >>= check_account order account)
