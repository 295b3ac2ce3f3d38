-- ===== src/Match/Side/Loop.antt =====
-- The end of the walk over the prices.
use mai3_broker.Base.{
  ℕ, zero, suc, ◌≤◌, ◌≡◌, refl, List, [], ◌∷◌, length, max, some, Bool, true, false, ◌||◌, arith,
  inl, inr, Bool-cases,
}
use mai3_broker.Decimal.{Decimal}
use mai3_broker.Orderbook.Containers.{OrderedMap, PriceTree}
use mai3_broker.Orderbook.Level.{MemoryOrder, PriceLevel}
use mai3_broker.Orderbook.Book.{Book}
use mai3_broker.Orderbook.Prices.{get_bid_prices_desc, get_ask_prices_asc}
use mai3_broker.Mai3.Math.{Floats}
use mai3_broker.Match.Chain.{Chain, Perpetual}
use mai3_broker.Match.Item.{MatchItem}
use mai3_broker.Match.Side.{
  Engine, match_next_price, walk_prices, match_in_pool, max_match_group, drop_first,
}

drop_first-length :
    {D : Type 0} (k : ℕ) (ps : List D) → length ps ≤ suc k → length (drop_first ps) ≤ k
drop_first-length k [] h = omega arith
drop_first-length k (p ∷ ps) h = omega arith

module _ {F C D M T : Type 0} ⦃dec : Decimal D⦄ ⦃ch : Chain C D⦄ ⦃om : OrderedMap M (MemoryOrder D)⦄
    ⦃pt : PriceTree T D (PriceLevel D M)⦄ (fl : Floats F D) (round_bank : ℕ → D → D) (fuel : ℕ)
    (tolerance : F) (perpetual : Perpetual) where
  stopped :
      (book : Book D M T) (is_buy : Bool) (n : ℕ) (ps : List D) (result : List (MatchItem D))
      (e : Engine C D)
      → length ps ≤ 0
      → (match_next_price fl round_bank fuel tolerance perpetual book is_buy n ps result e).0
        ≡ false
  unfolding match_next_price
  stopped book is_buy n [] result e h = refl
  stopped book is_buy n (p ∷ ps) result e h = absurd (omega arith)

  walk_prices_ends :
      (k : ℕ) (book : Book D M T) (n : ℕ) (bids asks : List D) (result : List (MatchItem D))
      (e : Engine C D)
      → length bids ≤ k
      → length asks ≤ k
      → (r : List (MatchItem D) × Engine C D) × (walk_prices fl round_bank fuel tolerance perpetual
            (suc k)
            book
            n
            bids
            asks
            result
            e
          ≡ some r)
  unfolding walk_prices
  walk_prices_ends zero book n bids asks result e h h' =
      let first =
        match_next_price fl round_bank fuel tolerance perpetual book true n bids result e in
      let second =
        match_next_price fl round_bank fuel tolerance perpetual book false n asks first.1 first.2 in
      (
        (second.1, second.2),
        rw (stopped book true n bids result e h, stopped book false n asks first.1 first.2 h') refl,
      )
  walk_prices_ends (suc k) book n bids asks result e h h' =
      let first =
        match_next_price fl round_bank fuel tolerance perpetual book true n bids result e in
      let second =
        match_next_price fl round_bank fuel tolerance perpetual book false n asks first.1 first.2 in
      let (r, more) =
        walk_prices_ends k book n (drop_first bids) (drop_first asks) second.1 second.2
          (drop_first-length k bids h) (drop_first-length k asks h') in
      elim (Bool-cases (first.0 || second.0)) [
        | inl go_on ↦ (r, rw go_on more)
        | inr stop ↦ ((second.1, second.2), rw stop refl)
      ]

  -- The matching always comes to an end, with the rounds that it is given: whatever the book, the
  -- pool and the answers of the chain.
  pub match_in_pool_ends :
      (gas_limit : ℕ) (book : Book D M T) (e : Engine C D)
      → (r : List (MatchItem D) × Engine C D) × (match_in_pool fl round_bank fuel tolerance
            perpetual gas_limit book e
          ≡ some r)
  unfolding match_in_pool
  match_in_pool_ends gas_limit book e =
      let bids : List D = get_bid_prices_desc book in
      let asks : List D = get_ask_prices_asc book in
      walk_prices_ends (max (length bids) (length asks)) book (max_match_group gas_limit e.pool)
        bids asks [] e (omega arith) (omega arith)
