-- ===== src/Match/Side/Bounds.antt =====
-- The number and the gas of the matched orders of one transaction.
use native.Mathlib.Nat.{div-mul-le_self, mul-le-mul_right}
use mai3_broker.Base.{
  max, ◌/◌, subst, ◌*◌, ◌||◌, List-cases, Result-cases, ℕ, zero, suc, ◌≤◌, ◌≡◌, List, [], ◌∷◌,
  length, length-append, Option, some, Bool, true, false, arith, inl, inr, Option-cases, Bool-cases,
}
use mai3_broker.Decimal.{Decimal, round, mul}
use mai3_broker.Orderbook.Containers.{OrderedMap, PriceTree}
use mai3_broker.Orderbook.Level.{MemoryOrder, PriceLevel}
use mai3_broker.Orderbook.Book.{Book}
use mai3_broker.Orderbook.Prices.{get_bid_prices_desc, get_ask_prices_asc}
use mai3_broker.Mai3.Math.{Floats}
use mai3_broker.Mai3.Pool.{Market}
use mai3_broker.Mai3.Storage.{AccountStorage, get_perpetual}
use mai3_broker.Mai3.Amm.Quote.{compute_amm_amount_with_price}
use mai3_broker.Match.Chain.{Chain, Perpetual, funded_account}
use mai3_broker.Match.Item.{MatchItem, get_match_item}
use mai3_broker.Match.Side.{
  get_gas_fee_limit, Engine, Walk, Turn, next, decimals, trade_amount_relax_factor, leave, add_item,
  take_order, match_order, walk_orders, match_one_side, orders_at, match_next_price, walk_prices,
  match_in_pool, max_match_group, drop_first,
}

abbrev pub walk_of : {C D : Type 0} → Turn C D → Walk C D
walk_of (next w) = w
walk_of (leave b w) = w

fits : (g f l : ℕ) → l ≤ g / f → l * f ≤ g
fits g f l h = omega (arith, div-mul-le_self g f, mul-le-mul_right f h)

module _ {F C D : Type 0} ⦃dec : Decimal D⦄ ⦃ch : Chain C D⦄ (fl : Floats F D)
    (round_bank : ℕ → D → D) (fuel : ℕ) (tolerance : F) (perpetual : Perpetual) where
  add_item-length :
      (amount : D) (o : MemoryOrder D) (is_buy : Bool) (account : AccountStorage D) (w : Walk C D)
      → length (add_item fl round_bank fuel tolerance perpetual amount o is_buy account w).1.result
        ≤ suc (length w.result)
  unfolding add_item
  add_item-length amount o is_buy account w =
      let market : Market D = record { pool = w.engine.pool; trader = account } in
      let r =
        (get_match_item fl round_bank fuel tolerance perpetual.perpetual_index amount o is_buy
          market).0 in
      elim (Result-cases r) [
        | inl (item, e) ↦ ground (arith, length-append w.result (item ∷ []))
        | inr (x, e) ↦ ground arith
      ]

  take_order-length :
      (o : MemoryOrder D) (is_buy : Bool) (account : AccountStorage D) (w : Walk C D)
      → length
          (walk_of (take_order fl round_bank fuel tolerance perpetual o is_buy account w)).result
        ≤ suc (length w.result)
  unfolding take_order
  take_order-length o is_buy account w = ground (
    arith,
    add_item-length (round decimals (mul w.max_trade_amount trade_amount_relax_factor)) o is_buy
        account w,
    add_item-length o.amount o is_buy account w,
  )

  match_order-length :
      (n : ℕ) (index_price : D) (is_buy : Bool) (o : MemoryOrder D) (w : Walk C D)
      → length w.result ≤ n
      → length
          (walk_of
            (match_order fl round_bank fuel tolerance perpetual n index_price is_buy o w)).result
        ≤ n
  unfolding match_order
  match_order-length n index_price is_buy o w h =
      let (r, chain) = funded_account {D = D} perpetual o.trader w.engine.chain in
      let asked : Walk C D = record w { engine = record w.engine { chain = chain } } in
      elim (Result-cases r) [
        | inl (account, e) ↦ ground (arith, take_order-length o is_buy account asked)
        | inr (x, e) ↦ ground arith
      ]

  pub walk_orders-length :
      (n : ℕ) (index_price : D) (is_buy : Bool) (os : List (MemoryOrder D)) (w : Walk C D)
      → length w.result ≤ n
      → length
          (walk_orders fl round_bank fuel tolerance perpetual n index_price is_buy os w).1.result
        ≤ n
  unfolding walk_orders
  walk_orders-length n index_price is_buy [] w h = h
  walk_orders-length n index_price is_buy (o ∷ os) w h =
      go (match_order fl round_bank fuel tolerance perpetual n index_price is_buy o w)
        (match_order-length n index_price is_buy o w h)
        (λ w' h. walk_orders-length n index_price is_buy os w' h)
    where
      after : Turn C D → Bool × Walk C D
      after t = elim t [
        | leave go_on w' ↦ (go_on, w')
        | next w' ↦ walk_orders fl round_bank fuel tolerance perpetual n index_price is_buy os w'
      ]

      go :
          (t : Turn C D)
          → length (walk_of t).result ≤ n
          → ((w' : Walk C D) → length w'.result ≤ n → length (after (next w')).1.result ≤ n)
          → length (after t).1.result ≤ n
      go (next w') h k = k w' h
      go (leave b w') h k = h

  module _ {M T : Type 0} ⦃om : OrderedMap M (MemoryOrder D)⦄
      ⦃pt : PriceTree T D (PriceLevel D M)⦄ where
    pub match_one_side-length :
        (book : Book D M T) (price : D) (is_buy : Bool) (n : ℕ) (result : List (MatchItem D))
        (e : Engine C D)
        → length result ≤ n
        → length
            (match_one_side fl round_bank fuel tolerance perpetual book price is_buy n result e).1
          ≤ n
    unfolding match_one_side
    match_one_side-length book price is_buy n result e h =
        elim (List-cases (orders_at book is_buy price)) [
          | inl none_there ↦ ground arith
          | inr (o, os, there) ↦
              elim (Option-cases (get_perpetual perpetual.perpetual_index e.pool.perpetuals)) [
                | inl missing ↦ ground arith
                | inr (q, found) ↦
                    let most =
                      compute_amm_amount_with_price fl round_bank fuel e.pool
                        perpetual.perpetual_index is_buy price in
                    ground (
                      arith,
                      walk_orders-length n q.index_price is_buy (o ∷ os)
                          (record { max_trade_amount = most; result = result; engine = e }),
                    )
              ]
        ]

    match_next_price-length :
        (book : Book D M T) (is_buy : Bool) (n : ℕ) (ps : List D) (result : List (MatchItem D))
        (e : Engine C D)
        → length result ≤ n
        → length
            (match_next_price fl round_bank fuel tolerance perpetual book is_buy n ps result e).1
          ≤ n
    unfolding match_next_price
    match_next_price-length book is_buy n [] result e h = h
    match_next_price-length book is_buy n (p ∷ ps) result e h =
        match_one_side-length book p is_buy n result e h

    walk_prices-length :
        (k : ℕ) (book : Book D M T) (n : ℕ) (bids asks : List D) (result items : List (MatchItem D))
        (e e' : Engine C D)
        → length result ≤ n
        → walk_prices fl round_bank fuel tolerance perpetual k book n bids asks result e
          ≡ some (items, e')
        → length items ≤ n
    unfolding walk_prices
    walk_prices-length zero book n bids asks result items e e' h found = absurd (cc)
    walk_prices-length (suc k) book n bids asks result items e e' h found =
        let first =
          match_next_price fl round_bank fuel tolerance perpetual book true n bids result e in
        let second =
          match_next_price fl round_bank fuel tolerance perpetual book false n asks first.1
            first.2 in
        let one = match_next_price-length book true n bids result e h in
        let two = match_next_price-length book false n asks first.1 first.2 one in
        elim (Bool-cases (first.0 || second.0)) [
          | inl go_on ↦
              walk_prices-length k book n (drop_first bids) (drop_first asks) second.1 items
                second.2 e' two (rw go_on at found)
          | inr stop ↦
              let ended : ◌≡◌ {A = Option (List (MatchItem D) × Engine C D)}
                  (some (second.1, second.2)) (some (items, e')) =
                rw stop at found in
              let same : second.1 ≡ items = ground arith in subst (λ l. length l ≤ n) same two
        ]

    -- A group of orders that is matched fits in the gas limit of one transaction.
    pub match_in_pool_bound :
        (gas_limit : ℕ) (book : Book D M T) (items : List (MatchItem D)) (e e' : Engine C D)
        → match_in_pool fl round_bank fuel tolerance perpetual gas_limit book e ≡ some (items, e')
        → length items * get_gas_fee_limit (length e.pool.perpetuals) false ≤ gas_limit
    unfolding match_in_pool
    match_in_pool_bound gas_limit book items e e' found =
        let bids : List D = get_bid_prices_desc book in
        let asks : List D = get_ask_prices_asc book in
        let n = max_match_group gas_limit e.pool in
        fits gas_limit (get_gas_fee_limit (length e.pool.perpetuals) false) (length items) (
          walk_prices-length (suc (max (length bids) (length asks))) book n bids asks [] items e e'
            (omega arith) found)
