-- ===== src/Match/NewOrder/Checked.antt =====
-- What the checks of a new order find, when they succeed.
use mai3_broker.Base.{
  ℕ, ◌≡◌, refl, sym, ap, ◌∙◌, List, length, String, Option, none, some, Bool, true, false, ltb,
  Result, ok, err, arith,
}
use mai3_broker.Base.Actions.{Action, ◌>>=◌, ◌>>◌, pure, >>=-eq-ok, pure-eq-ok}
use mai3_broker.Decimal.{Decimal, equal, zero}
use mai3_broker.Order.{Order}
use mai3_broker.Orderbook.Containers.{OrderedMap, PriceTree}
use mai3_broker.Orderbook.Level.{MemoryOrder, PriceLevel}
use mai3_broker.Mai3.Storage.{AccountStorage, LiquidityPoolStorage}
use mai3_broker.Match.World.{Database}
use mai3_broker.Match.CloseOnly.{check_close_only}
use mai3_broker.Match.PoolSyncer.{PoolSyncer, get_pool_storage}
use mai3_broker.Match.Chain.{Chain, ChainError, Perpetual, wallet_balance}
use mai3_broker.Match.Round.{Matcher}
use mai3_broker.Match.OrderChecks.{
  NewOrderError, Conf, OrdersEachPerp, on_chain, or_internal, pool_of, check, check_gas,
  check_funds, check_payment, check_in_pool, check_account, check_order, internal_error,
  max_order_num_reach, close_only, with_gas_fee_limit, is_normal_perpetual,
}

module _ {C D M T S : Type 0} where
  -- Whatever the action gives, called on `m`, has the property.
  abbrev Gives :
      {A : Type 0}
      → (A → Type 0)
      → Action NewOrderError (Matcher C D M T S) A
      → Matcher C D M T S
      → Type 0
  Gives {A} P f m = (m' : Matcher C D M T S) (a : A) → f m ≡ (ok a, m') → P a

  >>=-Gives :
      {A B : Type 0} (P : B → Type 0) (f : Action NewOrderError (Matcher C D M T S) A)
      (g : A → Action NewOrderError (Matcher C D M T S) B) (m : Matcher C D M T S)
      → ((a : A) (v : Matcher C D M T S) → f m ≡ (ok a, v) → Gives P (g a) v)
      → Gives P (f >>= g) m
  >>=-Gives P f g m k m' b e = let (a, v, first, rest) = >>=-eq-ok f g m e in k a v first m' b rest

  check-Gives :
      {B : Type 0} (P : B → Type 0) (b : Bool) (x : NewOrderError)
      (g : Action NewOrderError (Matcher C D M T S) B) (m : Matcher C D M T S)
      → (b ≡ true → Gives P g m)
      → Gives P (check b x >> g) m
  check-Gives P true x g m k m' a e = k refl m' a e
  check-Gives P false x g m k m' a e = absurd (cc)

  -- A call of the chain gives its answer, and leaves the cache.
  on_chain-ok :
      {A : Type 0} (f : Action ChainError C A) (m v : Matcher C D M T S) (a : A)
      → on_chain f m ≡ (ok a, v)
      → ((f m.pool_syncer.chain).0 ≡ ok a)
        × (v.pool_syncer.pool_storage ≡ m.pool_syncer.pool_storage)
  on_chain-ok {A} f m v a e = go (f m.pool_syncer.chain) refl e
    where
      go :
          (r : Result ChainError A × C)
          → f m.pool_syncer.chain ≡ r
          → on_chain {D = D} {M = M} {T = T} {S = S} (λ _. r) m ≡ (ok a, v)
          → ((f m.pool_syncer.chain).0 ≡ ok a)
            × (v.pool_syncer.pool_storage ≡ m.pool_syncer.pool_storage)
      go (ok x, c) k h = (ap (λ r. r.0) k ∙ ground arith, ground arith)
      go (err x, c) k h = absurd (cc)

  pub or_internal-ok :
      {A : Type 0} (o : Option A) (a : A) (m m' : Matcher C D M T S)
      → or_internal o m ≡ (ok a, m')
      → (o ≡ some a) × (m' ≡ m)
  or_internal-ok none a m m' e = absurd (cc)
  or_internal-ok (some x) a m m' e = (cc, cc)

module _ {C D : Type 0} ⦃ch : Chain C D⦄ where
  -- What the cache of pools gives for a pool, at some moment of the chain.
  abbrev pub IsPoolOf : ℕ → String → PoolSyncer C D → LiquidityPoolStorage D → Type 0
  IsPoolOf now address start pool =
      (p : PoolSyncer C D) × (p.pool_storage ≡ start.pool_storage)
      × ((get_pool_storage now address p).0 ≡ some pool)

-- What the checks of an order that succeed have found. The account is the chain's answer for the
-- trader of the order, and the pool is that of the perpetual, out of the cache.
pub record IsChecked {C D : Type 0} ⦃dec : Decimal D⦄ ⦃ch : Chain C D⦄ (conf : Conf) (now : ℕ)
    (perpetual : Perpetual) (p : PoolSyncer C D) (active : List (Order D)) (o o' : Order D)
    : Type 0 where
  pub has_room : ltb (length active) conf.max_order_num ≡ true
  pub account : AccountStorage D
  pub answered :
      (ch.get_account_storage perpetual.perpetual_index perpetual.liquidity_pool_address
        o.trader_address p.chain).0
      ≡ ok account
  pub closes : equal (check_close_only account o) zero ≡ true
  pub pool : LiquidityPoolStorage D
  pub cached : IsPoolOf now perpetual.liquidity_pool_address p pool
  pub normal : is_normal_perpetual perpetual.perpetual_index pool ≡ true
  pub order : o' ≡ with_gas_fee_limit pool o

module _ {C D : Type 0} ⦃dec : Decimal D⦄ ⦃ch : Chain C D⦄ (now : ℕ) (perpetual : Perpetual)
    (start : PoolSyncer C D) where
  abbrev Accounted : AccountStorage D → Order D → Order D → Type 0
  Accounted account o o' =
      (pool : LiquidityPoolStorage D) × (equal (check_close_only account o) zero ≡ true)
      × IsPoolOf now perpetual.liquidity_pool_address start pool
      × (is_normal_perpetual perpetual.perpetual_index pool ≡ true)
      × (o' ≡ with_gas_fee_limit pool o)

module _ {C D M T S : Type 0} ⦃dec : Decimal D⦄ ⦃ch : Chain C D⦄ ⦃om : OrderedMap M (MemoryOrder D)⦄
    ⦃pt : PriceTree T D (PriceLevel D M)⦄ ⦃db : Database S D⦄ where
  pool_of-ok :
      (now : ℕ) (address : String) (m v : Matcher C D M T S) (pool : LiquidityPoolStorage D)
      → pool_of now address m ≡ (ok pool, v)
      → (get_pool_storage now address m.pool_syncer).0 ≡ some pool
  pool_of-ok now address m v pool e =
      (or_internal-ok (get_pool_storage now address m.pool_syncer).0 pool
        (record m { pool_syncer = (get_pool_storage now address m.pool_syncer).1 }) v e).0

  module _ (conf : Conf) (iterate : List (OrdersEachPerp D) → List (OrdersEachPerp D)) (now : ℕ)
      (perpetual : Perpetual) (gas_price : D) (active : List (Order D)) where
    check_payment-same :
        (account : AccountStorage D) (wallet : D) (o : Order D) (m : Matcher C D M T S)
        → Gives
            (λ o'. o' ≡ o)
            (check_payment conf iterate now perpetual gas_price active account wallet o)
            m
    unfolding check_payment
    check_payment-same account wallet o m =
        >>=-Gives (λ o'. o' ≡ o) (check_gas conf gas_price (length active) o)
          (λ _. check_funds iterate now perpetual account wallet active o >> pure o) m
          (λ _ v _.
            >>=-Gives (λ o'. o' ≡ o) (check_funds iterate now perpetual account wallet active o)
              (λ _. pure o) v (λ _ u _ m' a e. sym (pure-eq-ok o a u m' e).0))

    check_in_pool-InPool :
        (account : AccountStorage D) (wallet : D) (o : Order D) (pool : LiquidityPoolStorage D)
        (m : Matcher C D M T S)
        → Gives
            (λ o'.
              (is_normal_perpetual perpetual.perpetual_index pool ≡ true)
              × (o' ≡ with_gas_fee_limit pool o))
            (check_in_pool conf iterate now perpetual gas_price active account wallet o pool)
            m
    unfolding check_in_pool
    check_in_pool-InPool account wallet o pool m =
        let o1 = with_gas_fee_limit pool o in
        check-Gives
          (λ o'.
            (is_normal_perpetual perpetual.perpetual_index pool ≡ true)
            × (o' ≡ with_gas_fee_limit pool o))
          (is_normal_perpetual perpetual.perpetual_index pool) internal_error
          (check_payment conf iterate now perpetual gas_price active account wallet o1) m
          (λ normal m' a e. (normal, check_payment-same account wallet o1 m m' a e))

    check_account-Accounted :
        (o : Order D) (account : AccountStorage D) (wallet : D) (start : PoolSyncer C D)
        (m : Matcher C D M T S)
        → m.pool_syncer.pool_storage ≡ start.pool_storage
        → Gives
            (Accounted now perpetual start account o)
            (check_account conf iterate now perpetual gas_price active o account wallet)
            m
    unfolding check_account
    check_account-Accounted o account wallet start m same =
        let in_pool = check_in_pool conf iterate now perpetual gas_price active account wallet o in
        check-Gives (Accounted now perpetual start account o)
          (equal (check_close_only account o) zero) close_only
          (pool_of now perpetual.liquidity_pool_address >>= in_pool) m
          (λ closes.
            >>=-Gives (Accounted now perpetual start account o)
              (pool_of now perpetual.liquidity_pool_address) in_pool m
              (λ pool v given m' o' e.
                let (normal, made) = check_in_pool-InPool account wallet o pool v m' o' e in
                (
                  pool,
                  closes,
                  (
                    m.pool_syncer,
                    same,
                    pool_of-ok now perpetual.liquidity_pool_address m v pool given,
                  ),
                  normal,
                  made,
                )))

    pub check_order-IsChecked :
        (o : Order D) (m : Matcher C D M T S)
        → Gives
            (IsChecked conf now perpetual m.pool_syncer active o)
            (check_order conf iterate now perpetual gas_price active o)
            m
    unfolding check_order
    check_order-IsChecked o m =
        check-Gives IsFine (ltb (length active) conf.max_order_num) max_order_num_reach
          (on_chain asked >>= with_account) m
          (λ room. >>=-Gives IsFine (on_chain asked) with_account m (λ account v given.
            let (answered, cache) = on_chain-ok asked m v account given in
            >>=-Gives IsFine (on_chain funds) (with_wallet account) v (λ wallet u paid m' o' e.
              let (pool, closes, cached, normal, made) =
                check_account-Accounted o account wallet m.pool_syncer u
                  ((on_chain-ok funds v u wallet paid).1 ∙ cache) m' o' e in
              record {
                has_room = room;
                account = account;
                answered = answered;
                closes = closes;
                pool = pool;
                cached = cached;
                normal = normal;
                order = made;
              })))
      where
        IsFine : Order D → Type 0
        IsFine = IsChecked conf now perpetual m.pool_syncer active o

        asked : Action ChainError C (AccountStorage D)
        asked =
            ch.get_account_storage perpetual.perpetual_index perpetual.liquidity_pool_address
              o.trader_address

        funds : Action ChainError C D
        funds = wallet_balance perpetual o.trader_address

        with_wallet : AccountStorage D → D → Action NewOrderError (Matcher C D M T S) (Order D)
        with_wallet account wallet =
            check_account conf iterate now perpetual gas_price active o account wallet

        with_account : AccountStorage D → Action NewOrderError (Matcher C D M T S) (Order D)
        with_account account = on_chain funds >>= with_wallet account
