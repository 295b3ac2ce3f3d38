-- ===== src/Match/OrderChecks/Keeps.antt =====
-- What the checks of a new order touch.
use mai3_broker.Base.{
  ℕ, suc, ◌≡◌, refl, ◌∙◌, String, List, [], ◌∷◌, ◌++◌, Option, none, some, Bool, true, false,
  Result, ok, err, length, if◌then◌else◌, str_eq, not, ltb,
}
use mai3_broker.Base.Actions.{Action, ◌>>=◌, ◌>>◌, pure}
use mai3_broker.Decimal.{Decimal, less_than, zero, equal, mul, of_int}
use mai3_broker.Base.Int.{pos}
use mai3_broker.Amount.{to_wad, to_gwei}
use mai3_broker.Match.CloseOnly.{check_close_only}
use mai3_broker.Order.{Order}
use mai3_broker.Orderbook.Containers.{OrderedMap, PriceTree}
use mai3_broker.Orderbook.Level.{MemoryOrder, PriceLevel}
use mai3_broker.Mai3.Storage.{AccountStorage, LiquidityPoolStorage}
use mai3_broker.Match.World.{World, Database}
use mai3_broker.Match.Chain.{Chain, ChainError, Perpetual, wallet_balance}
use mai3_broker.Match.Available.{compute_order_available}
use mai3_broker.Match.PoolSyncer.{get_pool_storage}
use mai3_broker.Match.Round.{Matcher}
use mai3_broker.Match.OrderChecks.{
  NewOrderError, Conf, OrdersEachPerp, internal_error, insufficient_balance, gas_not_enough,
  max_order_num_reach, close_only, with_gas_fee_limit, is_normal_perpetual, on_chain, or_internal,
  pool_of, check, join_perp, same_perpetual, split_active_orders_with_collateral, check_perps,
  check_gas, check_funds, check_payment, check_in_pool, check_account, check_order,
}

module _ {C D M T S : Type 0} where
  -- The action does not touch the database or the book.
  abbrev pub Keeps : {A : Type 0} → Action NewOrderError (Matcher C D M T S) A → Type 0
  Keeps f = (m : Matcher C D M T S) → (f m).1.world ≡ m.world

  pub >>=-Keeps :
      {A B : Type 0} (f : Action NewOrderError (Matcher C D M T S) A)
      (g : A → Action NewOrderError (Matcher C D M T S) B)
      → Keeps f
      → ((a : A) → Keeps (g a))
      → Keeps (f >>= g)
  >>=-Keeps {A} {B} f g k l m = go (f m) (k m)
    where
      go :
          (r : Result NewOrderError A × Matcher C D M T S)
          → r.1.world ≡ m.world
          → ◌≡◌ {A = World D M T S}
              (◌>>=◌ {E = NewOrderError} {W = Matcher C D M T S} (λ _. r) g m).1.world
              m.world
      go (ok a, m') h = l a m' ∙ h
      go (err e, m') h = h

  on_chain-Keeps : {A : Type 0} (f : Action ChainError C A) → Keeps (on_chain f)
  on_chain-Keeps {A} f m = go (f m.pool_syncer.chain)
    where
      go :
          (r : Result ChainError A × C)
          → (on_chain {D = D} {M = M} {T = T} {S = S} (λ _. r) m).1.world ≡ m.world
      go (ok a, c) = refl
      go (err e, c) = refl

  check-Keeps : (b : Bool) (e : NewOrderError) → Keeps (check b e)
  check-Keeps true e m = refl
  check-Keeps false e m = refl

  pub or_internal-Keeps : {A : Type 0} (o : Option A) → Keeps (or_internal o)
  or_internal-Keeps none m = refl
  or_internal-Keeps (some a) m = refl

  pool_of-Keeps : ⦃ch : Chain C D⦄ → (now : ℕ) (pool : String) → Keeps (pool_of now pool)
  pool_of-Keeps now pool m =
      let p = (get_pool_storage now pool m.pool_syncer).1 in
      or_internal-Keeps (get_pool_storage now pool m.pool_syncer).0 (record m { pool_syncer = p })

module _ {C D M T S : Type 0} ⦃dec : Decimal D⦄ ⦃ch : Chain C D⦄ ⦃om : OrderedMap M (MemoryOrder D)⦄
    ⦃pt : PriceTree T D (PriceLevel D M)⦄ ⦃db : Database S D⦄ where
  split_active_orders_with_collateral-Keeps :
      (now : ℕ) (collateral : String) (os : List (Order D)) (res : List (OrdersEachPerp D))
      → Keeps {C = C} {M = M} {T = T} {S = S}
          (split_active_orders_with_collateral now collateral os res)
  unfolding split_active_orders_with_collateral
  split_active_orders_with_collateral-Keeps now collateral [] res m = refl
  split_active_orders_with_collateral-Keeps now collateral (o ∷ os) res m =
      >>=-Keeps (joined (join_perp o res)) (split_active_orders_with_collateral now collateral os)
        (joined-Keeps (join_perp o res))
        (split_active_orders_with_collateral-Keeps now collateral os) m
    where
      started :
          LiquidityPoolStorage D
          → Action NewOrderError (Matcher C D M T S) (List (OrdersEachPerp D))
      started pool = pure (
          res
          ++ record {
            liquidity_pool_address = o.liquidity_pool_address;
            perpetual_index = o.perpetual_index;
            pool_storage = pool;
            orders = o ∷ [];
          }
            ∷ [])

      start : Bool → Action NewOrderError (Matcher C D M T S) (List (OrdersEachPerp D))
      start b = if b then (pool_of now o.liquidity_pool_address >>= started) else pure res

      joined :
          Option (List (OrdersEachPerp D))
          → Action NewOrderError (Matcher C D M T S) (List (OrdersEachPerp D))
      joined x = elim x [ some j ↦ pure j | none ↦ start (str_eq o.collateral_address collateral) ]

      start-Keeps : (b : Bool) → Keeps (start b)
      start-Keeps true m =
          >>=-Keeps (pool_of now o.liquidity_pool_address) started
            (pool_of-Keeps now o.liquidity_pool_address) (λ a m. refl) m
      start-Keeps false m = refl

      joined-Keeps : (x : Option (List (OrdersEachPerp D))) → Keeps (joined x)
      joined-Keeps (some j) m = refl
      joined-Keeps none m = start-Keeps (str_eq o.collateral_address collateral) m

  check_perps-Keeps :
      (perpetual : Perpetual) (trader : String) (account : AccountStorage D) (wallet : D)
      (vs : List (OrdersEachPerp D))
      → Keeps {C = C} {M = M} {T = T} {S = S} (check_perps perpetual trader account wallet vs)
  unfolding check_perps
  check_perps-Keeps perpetual trader account wallet [] m = refl
  check_perps-Keeps perpetual trader account wallet (v ∷ vs) m =
      >>=-Keeps (found here) rest (found-Keeps here)
        (λ a.
          >>=-Keeps (check (not (less_than (available a) zero)) insufficient_balance) (λ _. next a)
            (check-Keeps (not (less_than (available a) zero)) insufficient_balance)
            (λ _. check_perps-Keeps perpetual trader account (available a) vs))
        m
    where
      here : Bool
      here =
          same_perpetual v.liquidity_pool_address v.perpetual_index perpetual.liquidity_pool_address
            perpetual.perpetual_index

      asked : Action ChainError C (AccountStorage D)
      asked = ch.get_account_storage v.perpetual_index v.liquidity_pool_address trader

      found : Bool → Action NewOrderError (Matcher C D M T S) (AccountStorage D)
      found b = if b then pure account else on_chain asked

      found-Keeps : (b : Bool) → Keeps (found b)
      found-Keeps true m = refl
      found-Keeps false m = on_chain-Keeps asked m

      available : AccountStorage D → D
      available a =
          (compute_order_available v.pool_storage v.perpetual_index
            (record a { wallet_balance = wallet }) v.orders).1

      next : AccountStorage D → Action NewOrderError (Matcher C D M T S) D
      next a = check_perps perpetual trader account (available a) vs

      rest : AccountStorage D → Action NewOrderError (Matcher C D M T S) D
      rest a = check (not (less_than (available a) zero)) insufficient_balance >> next a

  check_gas-Keeps :
      (conf : Conf) (gas_price : D) (active : ℕ) (o : Order D)
      → Keeps {C = C} {M = M} {T = T} {S = S} (check_gas conf gas_price active o)
  unfolding check_gas
  check_gas-Keeps conf gas_price active o m = whole-Keeps conf.gas_enable m
    where
      reward : D
      reward = mul gas_price (of_int o.gas_fee_limit)

      asked : Action ChainError C D
      asked = ch.get_gas_balance conf.broker_address o.trader_address

      pays_all : D → Bool
      pays_all balance = not (less_than (to_wad balance) (mul reward (of_int (pos (suc active)))))

      pays_one : Bool
      pays_one = not (less_than (to_gwei (of_int o.broker_fee_limit)) reward)

      rest : D → Action NewOrderError (Matcher C D M T S) (Unit {0})
      rest balance = check (pays_all balance) gas_not_enough >> check pays_one gas_not_enough

      whole : Bool → Action NewOrderError (Matcher C D M T S) (Unit {0})
      whole enabled = if not enabled then pure tt else (on_chain asked >>= rest)

      whole-Keeps : (enabled : Bool) → Keeps (whole enabled)
      whole-Keeps false m = refl
      whole-Keeps true m =
          >>=-Keeps (on_chain asked) rest (on_chain-Keeps asked)
            (λ balance.
              >>=-Keeps (check (pays_all balance) gas_not_enough)
                (λ _. check pays_one gas_not_enough) (check-Keeps (pays_all balance) gas_not_enough)
                (λ _. check-Keeps pays_one gas_not_enough))
            m

  check_funds-Keeps :
      (iterate : List (OrdersEachPerp D) → List (OrdersEachPerp D)) (now : ℕ)
      (perpetual : Perpetual) (account : AccountStorage D) (wallet : D) (active : List (Order D))
      (o : Order D)
      → Keeps {C = C} {M = M} {T = T} {S = S}
          (check_funds iterate now perpetual account wallet active o)
  unfolding check_funds
  check_funds-Keeps iterate now perpetual account wallet active o =
      >>=-Keeps (split_active_orders_with_collateral now o.collateral_address (active ++ o ∷ []) [])
        (λ perps. check_perps perpetual o.trader_address account wallet (iterate perps))
        (split_active_orders_with_collateral-Keeps now o.collateral_address (active ++ o ∷ []) [])
        (λ perps. check_perps-Keeps perpetual o.trader_address account wallet (iterate perps))

  module _ (conf : Conf) (iterate : List (OrdersEachPerp D) → List (OrdersEachPerp D)) (now : ℕ)
      (perpetual : Perpetual) (gas_price : D) (active : List (Order D)) where
    check_payment-Keeps :
        (account : AccountStorage D) (wallet : D) (o : Order D)
        → Keeps {C = C} {M = M} {T = T} {S = S}
            (check_payment conf iterate now perpetual gas_price active account wallet o)
    unfolding check_payment
    check_payment-Keeps account wallet o =
        >>=-Keeps (check_gas conf gas_price (length active) o)
          (λ _. check_funds iterate now perpetual account wallet active o >> pure o)
          (check_gas-Keeps conf gas_price (length active) o)
          (λ _.
            >>=-Keeps (check_funds iterate now perpetual account wallet active o) (λ _. pure o)
              (check_funds-Keeps iterate now perpetual account wallet active o) (λ _ m. refl))

    check_in_pool-Keeps :
        (account : AccountStorage D) (wallet : D) (o : Order D) (pool : LiquidityPoolStorage D)
        → Keeps {C = C} {M = M} {T = T} {S = S}
            (check_in_pool conf iterate now perpetual gas_price active account wallet o pool)
    unfolding check_in_pool
    check_in_pool-Keeps account wallet o pool =
        let normal = is_normal_perpetual perpetual.perpetual_index pool in
        >>=-Keeps (check normal internal_error)
          (λ _.
            check_payment conf iterate now perpetual gas_price active account wallet
              (with_gas_fee_limit pool o))
          (check-Keeps normal internal_error)
          (λ _. check_payment-Keeps account wallet (with_gas_fee_limit pool o))

    check_account-Keeps :
        (o : Order D) (account : AccountStorage D) (wallet : D)
        → Keeps {C = C} {M = M} {T = T} {S = S}
            (check_account conf iterate now perpetual gas_price active o account wallet)
    unfolding check_account
    check_account-Keeps o account wallet =
        let closes = equal (check_close_only account o) zero in
        let in_pool = check_in_pool conf iterate now perpetual gas_price active account wallet o in
        >>=-Keeps (check closes close_only)
          (λ _. pool_of now perpetual.liquidity_pool_address >>= in_pool)
          (check-Keeps closes close_only)
          (λ _.
            >>=-Keeps (pool_of now perpetual.liquidity_pool_address) in_pool
              (pool_of-Keeps now perpetual.liquidity_pool_address)
              (check_in_pool-Keeps account wallet o))

    -- None of the checks touches the database or the book.
    pub check_order-Keeps :
        (o : Order D)
        → Keeps {C = C} {M = M} {T = T} {S = S}
            (check_order conf iterate now perpetual gas_price active o)
    unfolding check_order
    check_order-Keeps o =
        >>=-Keeps (check has_room max_order_num_reach) (λ _. on_chain asked >>= with_account)
          (check-Keeps has_room max_order_num_reach)
          (λ _. >>=-Keeps (on_chain asked) with_account (on_chain-Keeps asked) (λ account.
            >>=-Keeps (on_chain funds) (with_wallet account) (on_chain-Keeps funds)
              (check_account-Keeps o account)))
      where
        has_room : Bool
        has_room = ltb (length active) conf.max_order_num

        asked : Action ChainError C (AccountStorage D)
        asked =
            ch.get_account_storage perpetual.perpetual_index perpetual.liquidity_pool_address
              o.trader_address

        funds : Action ChainError C D
        funds = wallet_balance perpetual o.trader_address

        with_wallet : AccountStorage D → D → Action NewOrderError (Matcher C D M T S) (Order D)
        with_wallet account wallet =
            check_account conf iterate now perpetual gas_price active o account wallet

        with_account : AccountStorage D → Action NewOrderError (Matcher C D M T S) (Order D)
        with_account account = on_chain funds >>= with_wallet account
