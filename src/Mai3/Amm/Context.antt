-- ===== src/Mai3/Amm/Context.antt =====
-- common/mai3/amm.go: the trading context of a perpetual, and the conditions on its safety.
use mai3_broker.Base.{
  ℕ, List, [], ◌∷◌, ◌++◌, Option, none, some, Bool, not, ◌==◌, ◌&&◌, Result, ok, err, if◌then◌else◌,
}
use mai3_broker.Decimal.{
  Decimal, zero, add, sub, mul, div, neg, abs, max_dec, min_dec, less_than, less_than_or_equal,
  greater_than_or_equal,
}
use mai3_broker.Mai3.Math.{Floats, two, sqrt_decimal}
use mai3_broker.Mai3.Storage.{
  PerpetualStorage, Perpetuals, LiquidityPoolStorage, AmmTradingContext, TradeError, amm_unsafe,
  no_pool_margin, get_perpetual,
}

module _ {D : Type 0} ⦃dec : Decimal D⦄ where
  -- The copy has no discount: the source leaves the field out.
  unfoldable pub copy_amm_trading_context : AmmTradingContext D → AmmTradingContext D
  copy_amm_trading_context c = record c { max_close_price_discount = zero }

  unfoldable pub empty_context : D → AmmTradingContext D
  empty_context cash = record {
    index = zero;
    position1 = zero;
    half_spread = zero;
    open_slippage_factor = zero;
    close_slippage_factor = zero;
    funding_rate_limit = zero;
    max_close_price_discount = zero;
    max_leverage = zero;
    other_index = [];
    other_position = [];
    other_open_slippage_factor = [];
    other_max_leverage = [];
    cash = cash;
    pool_margin = zero;
    delta_margin = zero;
    delta_position = zero;
    best_ask_bid_price = zero;
    value_without_current = zero;
    square_value_without_current = zero;
    position_margin_without_current = zero;
  }

  unfoldable pub with_current : PerpetualStorage D → AmmTradingContext D → AmmTradingContext D
  with_current p c = record c {
    index = p.index_price;
    position1 = p.amm_position_amount;
    half_spread = p.half_spread;
    open_slippage_factor = p.open_slippage_factor;
    close_slippage_factor = p.close_slippage_factor;
    funding_rate_limit = p.funding_rate_limit;
    max_close_price_discount = p.max_close_price_discount;
    max_leverage = p.max_leverage;
  }

  unfoldable pub with_other : PerpetualStorage D → AmmTradingContext D → AmmTradingContext D
  with_other p c = record c {
    other_index = c.other_index ++ p.index_price ∷ [];
    other_position = c.other_position ++ p.amm_position_amount ∷ [];
    other_open_slippage_factor = c.other_open_slippage_factor ++ p.open_slippage_factor ∷ [];
    other_max_leverage = c.other_max_leverage ++ p.max_leverage ∷ [];
  }

  unfoldable pub with_cash : PerpetualStorage D → AmmTradingContext D → AmmTradingContext D
  with_cash p c = record c {
    cash =
        sub (add c.cash p.amm_cash_balance) (mul p.unit_accumulative_funding p.amm_position_amount);
  }

  -- The loop over the perpetuals. It stops at an index price that is not positive.
  unfoldable pub collect : ℕ → Perpetuals D → AmmTradingContext D → Option (AmmTradingContext D)
  unfolding with_current with_other with_cash
  collect i [] c = some c
  collect i ((j, p) ∷ ps) c =
      let skipped = collect i ps c in
      let taken =
        collect i ps
          (if j == i then with_current p (with_cash p c) else with_other p (with_cash p c)) in
      if not p.is_normal
      then skipped
      else if less_than_or_equal p.index_price zero
      then none
      else taken

  -- The three sums over the other perpetuals.
  unfoldable pub sum_values : List D → List D → D → D
  sum_values (p ∷ ps) (n ∷ ns) v = sum_values ps ns (add v (mul p n))
  sum_values _ _ v = v

  unfoldable pub sum_squares : List D → List D → List D → D → D
  sum_squares (b ∷ bs) (p ∷ ps) (n ∷ ns) v =
      sum_squares bs ps ns (add v (mul (mul (mul (mul b p) p) n) n))
  sum_squares _ _ _ v = v

  unfoldable pub sum_margins : List D → List D → List D → D → D
  sum_margins (p ∷ ps) (n ∷ ns) (l ∷ ls) v = sum_margins ps ns ls (add v (div (mul p (abs n)) l))
  sum_margins _ _ _ v = v

  unfoldable pub init_amm_trading_context_eager_evaluation :
      AmmTradingContext D → Option (AmmTradingContext D)
  unfolding sum_values sum_squares sum_margins
  init_amm_trading_context_eager_evaluation c =
      if less_than (add (add c.cash value) (mul c.index c.position1)) zero
      then none
      else some (record c {
        value_without_current = value;
        square_value_without_current =
            sum_squares c.other_open_slippage_factor c.other_index c.other_position zero;
        position_margin_without_current =
            sum_margins c.other_index c.other_position c.other_max_leverage zero;
      })
    where
      value : D
      value = sum_values c.other_index c.other_position zero

  -- `none` is the nil pointer.
  unfoldable pub init_amm_trading_context :
      LiquidityPoolStorage D → ℕ → Option (AmmTradingContext D)
  unfolding collect empty_context init_amm_trading_context_eager_evaluation
  init_amm_trading_context p i = elim (get_perpetual i p.perpetuals) [
    | none ↦ none
    | some _ ↦ elim (collect i p.perpetuals (empty_context p.pool_cash_balance)) [
      | none ↦ none
      | some c ↦ init_amm_trading_context_eager_evaluation c
    ]
  ]

  abbrev pub square_value_with_current : AmmTradingContext D → D → D
  square_value_with_current c beta =
      add c.square_value_without_current
        (mul (mul (mul (mul beta c.index) c.index) c.position1) c.position1)

  compute_amm_safe_condition1 : AmmTradingContext D → D → D
  compute_amm_safe_condition1 c beta = div (div c.pool_margin c.index) beta

module _ {F D : Type 0} ⦃dec : Decimal D⦄ (fl : Floats F D) (fuel : ℕ) where
  unfoldable pub is_amm_safe : AmmTradingContext D → D → Bool
  is_amm_safe c beta = greater_than_or_equal c.cash safe_cash
    where
      safe_cash : D
      safe_cash =
          sub (sqrt_decimal fl fuel (mul two (square_value_with_current c beta)))
            (add c.value_without_current (mul c.index c.position1))

  unfoldable pub compute_amm_pool_margin :
      AmmTradingContext D → D → Bool → Result TradeError (AmmTradingContext D)
  compute_amm_pool_margin c beta allow_unsafe =
      if less_than before_sqrt zero && not allow_unsafe
      then err amm_unsafe
      else if less_than pool_margin zero
      then err no_pool_margin
      else ok (record c { pool_margin = pool_margin })
    where
      margin_balance : D
      margin_balance = add (add c.cash c.value_without_current) (mul c.index c.position1)

      before_sqrt : D
      before_sqrt =
          sub (mul margin_balance margin_balance) (mul two (square_value_with_current c beta))

      pool_margin : D
      pool_margin =
          div
            (add margin_balance
              (sqrt_decimal fl fuel (if less_than before_sqrt zero then zero else before_sqrt)))
            two

  -- `none` if any position is safe.
  unfoldable pub compute_amm_safe_condition2 : AmmTradingContext D → D → Option D
  compute_amm_safe_condition2 c beta =
      if less_than_or_equal c.pool_margin zero
      then none
      else if less_than before_sqrt zero
      then none
      else some (
          div
            (div (div (max_dec (sub c.pool_margin (sqrt_decimal fl fuel before_sqrt)) zero) beta)
              c.max_leverage)
            c.index)
    where
      x : D
      x =
          add (sub c.pool_margin c.position_margin_without_current)
            (div (div c.square_value_without_current c.pool_margin) two)

      before_sqrt : D
      before_sqrt =
          mul (sub c.pool_margin (mul (mul (mul (mul x c.max_leverage) c.max_leverage) beta) two))
            c.pool_margin

  -- `none` if no position is safe.
  unfoldable pub compute_amm_safe_condition3 : AmmTradingContext D → D → Option D
  compute_amm_safe_condition3 c beta =
      if less_than before_sqrt zero
      then none
      else some (div (sqrt_decimal fl fuel before_sqrt) c.index)
    where
      before_sqrt : D
      before_sqrt =
          div (sub (mul (mul two c.pool_margin) c.pool_margin) c.square_value_without_current) beta

  unfoldable pub compute_amm_safe_short_position_amount : AmmTradingContext D → D → D
  compute_amm_safe_short_position_amount c beta = elim (compute_amm_safe_condition3 c beta) [
    | none ↦ zero
    | some condition3 ↦ elim (compute_amm_safe_condition2 c beta) [
      | none ↦ neg condition3
      | some condition2 ↦ max_dec (neg condition2) (neg condition3)
    ]
  ]

  unfoldable pub compute_amm_safe_long_position_amount : AmmTradingContext D → D → D
  unfolding compute_amm_safe_condition1
  compute_amm_safe_long_position_amount c beta = elim (compute_amm_safe_condition3 c beta) [
    | none ↦ zero
    | some condition3 ↦
        let condition13 = min_dec (compute_amm_safe_condition1 c beta) condition3 in
        elim (compute_amm_safe_condition2 c beta) [
          | none ↦ condition13
          | some condition2 ↦ min_dec condition2 condition13
        ]
  ]
