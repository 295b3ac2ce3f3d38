-- ===== src/Mai3/Pool/Balance.antt =====
-- What a trade moves between the trader and the market maker.
use mai3_broker.Base.{
  ℕ, ◌+◌, ◌≡◌, refl, ap, ◌∙◌, some, Result, ok, err, inl, inr, arith, Bool-cases, ◌==◌, [], ◌∷◌,
}
use mai3_broker.Base.Actions.{Action, ◌>>=◌}
use mai3_broker.Decimal.{Decimal, add, neg, digits, exact, eq_of_units}
use mai3_broker.Mai3.Math.{Floats}
use mai3_broker.Mai3.Storage.{
  PerpetualStorage, AccountStorage, TradeError, get_perpetual, set_perpetual, Perpetuals,
}
use mai3_broker.Mai3.Account.{compute_open_interest}
use mai3_broker.Mai3.Trade.{TradeResult, compute_trade_with_price}
use mai3_broker.Mai3.Trade.Balance.{compute_trade_with_price_lem}
use mai3_broker.Mai3.Pool.{
  Market, AmmPrice, AmmTrade, move_pool, on_trader, compute_amm_price, settle_trade, trade_at,
  compute_amm_trade,
}

module _ {D : Type 0} where
  get_perpetual-set :
      (i : ℕ) (q q' : PerpetualStorage D) (ps : Perpetuals D)
      → get_perpetual i ps ≡ some q
      → get_perpetual i (set_perpetual i q' ps) ≡ some q'
  unfolding get_perpetual set_perpetual
  get_perpetual-set i q q' [] h = cc
  get_perpetual-set i q q' ((j, p) ∷ ps) h = elim (Bool-cases (i == j)) [
    | inl same ↦ rw (same, same) refl
    | inr other ↦ rw (other, other) (get_perpetual-set i q q' ps (rw other at h))
  ]

module _ {D : Type 0} ⦃dec : Decimal D⦄ where
  exchanged : (a t d : D) → add (add a d) (add t (neg d)) ≡ add a t
  exchanged a t d =
      let k = digits a + digits t + digits d in
      eq_of_units k _ _ (omega exact) (omega exact) (omega exact)

module _ {F D : Type 0} ⦃dec : Decimal D⦄ (fl : Floats F D) (round_bank : ℕ → D → D)
    (fuel : ℕ) where
  abbrev pub IsExchanged : ℕ → PerpetualStorage D → AccountStorage D → Market D → Type 0
  IsExchanged i q t m' =
      (after : PerpetualStorage D) × (get_perpetual i m'.pool.perpetuals ≡ some after)
      × (add after.amm_position_amount m'.trader.position_amount
          ≡ add q.amm_position_amount t.position_amount)

  abbrev moved_interest : PerpetualStorage D → AmmPrice D → Market D → D
  moved_interest q price m =
      compute_open_interest
        (compute_open_interest q.open_interest m.trader.position_amount (neg price.delta_amount))
        q.amm_position_amount price.delta_amount

  settle_trade_lem :
      (i : ℕ) (q : PerpetualStorage D) (price : AmmPrice D) (rate : D) (r : TradeResult D)
      (x : AmmTrade D) (m m' : Market D)
      → get_perpetual i m.pool.perpetuals ≡ some q
      → settle_trade fl round_bank fuel i q price rate r m ≡ (ok x, m')
      → (after : PerpetualStorage D) × (get_perpetual i m'.pool.perpetuals ≡ some after)
        × (after.amm_position_amount ≡ add q.amm_position_amount price.delta_amount)
        × (m'.trader ≡ m.trader)
  unfolding settle_trade move_pool
  settle_trade_lem i q price rate r x m m' h e = (
    record q {
      amm_position_amount = add q.amm_position_amount price.delta_amount;
      open_interest = moved_interest q price m;
    },
    ground (
      arith,
      get_perpetual-set i q
          (record q {
            amm_position_amount = add q.amm_position_amount price.delta_amount;
            open_interest = moved_interest q price m;
          })
          m.pool.perpetuals h,
    ),
    refl,
    ground arith,
  )

  on_trader-eq-ok :
      {A B : Type 0} (f : Action TradeError (AccountStorage D) A)
      (k : A → Action TradeError (Market D) B) (m m' : Market D) (b : B)
      → (on_trader f >>= k) m ≡ (ok b, m')
      → (a : A) × (t : AccountStorage D) × (f m.trader ≡ (ok a, t))
        × (k a (record m { trader = t }) ≡ (ok b, m'))
  on_trader-eq-ok {A} {B} f k m m' b e = go (f m.trader) refl e
    where
      go :
          (r : Result TradeError A × AccountStorage D)
          → f m.trader ≡ r
          → (elim r.0 [
            | ok a ↦ k a (record m { trader = r.1 })
            | err y ↦ (err y, record m { trader = r.1 })
          ])
            ≡ (ok b, m')
          → (a : A) × (t : AccountStorage D) × (f m.trader ≡ (ok a, t))
            × (k a (record m { trader = t }) ≡ (ok b, m'))
      go (ok a, t) h e = (a, t, h, e)
      go (err y, t) h e = absurd (cc)

  trade_at_lem :
      (i : ℕ) (q : PerpetualStorage D) (price : AmmPrice D) (x : AmmTrade D) (m m' : Market D)
      → get_perpetual i m.pool.perpetuals ≡ some q
      → trade_at fl round_bank fuel i q price m ≡ (ok x, m')
      → IsExchanged i q m.trader m'
  unfolding trade_at
  trade_at_lem i q price x m m' h e =
      let (r, t, traded, settled) =
        on_trader-eq-ok
          (compute_trade_with_price m.pool i price.trading_price (neg price.delta_amount) _)
          (settle_trade fl round_bank fuel i q price _) m m' x e in
      let (after, found, amm, trader) =
        settle_trade_lem i q price _ r x (record m { trader = t }) m' h settled in
      let moved =
        (compute_trade_with_price_lem m.pool i q price.trading_price (neg price.delta_amount) _ r
          m.trader t h traded).0 in
      (
        after,
        found,
        (λ j. add (amm j) (AccountStorage.position_amount (trader j)))
            ∙ ap (add (add q.amm_position_amount price.delta_amount)) moved
            ∙ exchanged q.amm_position_amount m.trader.position_amount price.delta_amount,
      )

  compute_amm_trade_at :
      (i : ℕ) (q : PerpetualStorage D) (amount : D) (x : AmmTrade D) (m m' : Market D)
      → get_perpetual i m.pool.perpetuals ≡ some q
      → compute_amm_trade fl round_bank fuel i amount m ≡ (ok x, m')
      → (price : AmmPrice D) × (trade_at fl round_bank fuel i q price m ≡ (ok x, m'))
  unfolding compute_amm_trade
  compute_amm_trade_at i q amount x m m' h e =
      go (compute_amm_price fl round_bank fuel m.pool i amount) refl
    where
      go :
          (r : Result TradeError (AmmPrice D))
          → compute_amm_price fl round_bank fuel m.pool i amount ≡ r
          → (price : AmmPrice D) × (trade_at fl round_bank fuel i q price m ≡ (ok x, m'))
      go (ok price) k = (price, ground arith)
      go (err y) k = absurd (ground arith)

  -- What a trade that succeeds gives the trader, the market maker gives up: the perpetual is still in
  -- the pool, and the sum of its position and the trader's stays the same.
  pub compute_amm_trade_positions :
      (i : ℕ) (q : PerpetualStorage D) (amount : D) (x : AmmTrade D) (m m' : Market D)
      → get_perpetual i m.pool.perpetuals ≡ some q
      → compute_amm_trade fl round_bank fuel i amount m ≡ (ok x, m')
      → (after : PerpetualStorage D) × (get_perpetual i m'.pool.perpetuals ≡ some after)
        × (add after.amm_position_amount m'.trader.position_amount
            ≡ add q.amm_position_amount m.trader.position_amount)
  compute_amm_trade_positions i q amount x m m' h e =
      let (price, traded) = compute_amm_trade_at i q amount x m m' h e in
      trade_at_lem i q price x m m' h traded
