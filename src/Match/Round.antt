-- ===== src/Match/Round.antt =====
-- match/match.go and match/order.go: a round of the matching, from the book to the messages.
pub mod Outcome
use mai3_broker.Base.{
  ℕ, String, List, [], ◌∷◌, length, Option, none, some, Bool, ◌&&◌, ◌==◌, if◌then◌else◌,
}
use mai3_broker.Decimal.{Decimal}
use mai3_broker.Orderbook.Containers.{OrderedMap, PriceTree}
use mai3_broker.Orderbook.Level.{MemoryOrder, PriceLevel}
use mai3_broker.Orderbook.Book.{Book}
use mai3_broker.Orderbook.Prices.{get_bid_prices_desc, get_ask_prices_asc}
use mai3_broker.Mai3.Math.{Floats}
use mai3_broker.Match.World.{World, Database}
use mai3_broker.Match.Chain.{Chain, Perpetual}
use mai3_broker.Match.Item.{MatchItem}
use mai3_broker.Match.Side.{Engine, match_in_pool}
use mai3_broker.Match.PoolSyncer.{PoolSyncer, get_pool_storage, write_storage}
use mai3_broker.Match.Execute.{execute_matches}

-- A match with its share of the cache; `trgr` counts the messages that wait for its loop.
pub record Matcher (C D M T S : Type 0) : Type 0 where
  pub world : World D M T S
  pub pool_syncer : PoolSyncer C D
  pub trgr : ℕ

module _ {F C D : Type 0} ⦃dec : Decimal D⦄ ⦃ch : Chain C D⦄ {M T : Type 0}
    ⦃om : OrderedMap M (MemoryOrder D)⦄ ⦃pt : PriceTree T D (PriceLevel D M)⦄ (fl : Floats F D)
    (round_bank : ℕ → D → D) (fuel : ℕ) (tolerance : F) (perpetual : Perpetual) where
  -- The storage of the pool is shared with the cache, so what the trials do to it stays there.
  unfoldable pub match_order_side_by_side :
      ℕ → ℕ → Book D M T → PoolSyncer C D → Option (List (MatchItem D) × PoolSyncer C D)
  match_order_side_by_side now gas_limit book p =
      let address = perpetual.liquidity_pool_address in
      let (found, p1) = get_pool_storage now address p in
      if length (get_bid_prices_desc book) == 0 && length (get_ask_prices_asc book) == 0
      then some ([], p)
      else elim found [
        | none ↦ some ([], p1)
        | some pool ↦
            elim (match_in_pool fl round_bank fuel tolerance perpetual gas_limit book
              (record { pool = pool; chain = p1.chain })) [
                | none ↦ none
                | some (items, e) ↦
                    some (items, write_storage address e.pool (record p1 { chain = e.chain }))
              ]
      ]

  module _ {S : Type 0} ⦃db : Database S D⦄ where
    -- The items of a round are executed if there are any, under the UUID that was drawn.
    unfoldable pub execute_round :
        ℕ
        → String
        → Option String
        → List (MatchItem D)
        → PoolSyncer C D
        → Matcher C D M T S
        → Matcher C D M T S
    execute_round now broker uuid [] p m = record m { pool_syncer = p }
    execute_round now broker none (i ∷ is) p m = record m { pool_syncer = p }
    execute_round now broker (some id) (i ∷ is) p m = record m {
      world = (execute_matches now perpetual broker id (i ∷ is) m.world).1;
      pool_syncer = p;
    }

    -- An error ends the round; it is logged, and the next round starts from what is left. `none`:
    -- out of fuel.
    unfoldable pub match_orders :
        ℕ → ℕ → String → Option String → Matcher C D M T S → Option (Matcher C D M T S)
    unfolding match_order_side_by_side execute_round
    match_orders now gas_limit broker uuid m = elim (db.query_pending_orders m.world.store) [
      | none ↦ some m
      | some orders ↦
          if length orders == 0
          then some m
          else elim (match_order_side_by_side now gas_limit m.world.orderbook m.pool_syncer) [
            | none ↦ none
            | some (items, p) ↦ some (execute_round now broker uuid items p m)
          ]
    ]
