-- ===== src/Match/Round/Outcome.antt =====
-- How a round of the matching ends.
use mai3_broker.Base.{ℕ, String, ◌≡◌, List, [], Option, none, some, ◌⊎◌, ◌≢◌}
use mai3_broker.Decimal.{Decimal}
use mai3_broker.Orderbook.Containers.{OrderedMap, PriceTree}
use mai3_broker.Orderbook.Level.{MemoryOrder, PriceLevel}
use mai3_broker.Orderbook.Book.{Book}
use mai3_broker.Mai3.Math.{Floats}
use mai3_broker.Match.World.{Database}
use mai3_broker.Match.Chain.{Chain, Perpetual}
use mai3_broker.Match.Item.{MatchItem}
use mai3_broker.Match.PoolSyncer.{PoolSyncer}
use mai3_broker.Match.Execute.{execute_matches}
use mai3_broker.Match.Round.{Matcher, match_order_side_by_side}

module _ {F C D : Type 0} ⦃dec : Decimal D⦄ ⦃ch : Chain C D⦄ {M T : Type 0}
    ⦃om : OrderedMap M (MemoryOrder D)⦄ ⦃pt : PriceTree T D (PriceLevel D M)⦄ (fl : Floats F D)
    (round_bank : ℕ → D → D) (fuel : ℕ) (tolerance : F) (perpetual : Perpetual) where
  module _ {S : Type 0} ⦃db : Database S D⦄ where
    -- Nothing waits, or that could not be read.
    abbrev pub NonePending : Matcher C D M T S → Type 0
    NonePending m =
        (db.query_pending_orders m.world.store ≡ none)
        ⊎ (db.query_pending_orders m.world.store ≡ some [])

    -- What becomes of the matched items: they are executed under the UUID that was drawn, unless
    -- there are none or no UUID could be drawn.
    abbrev pub IsExecuted :
        ℕ
        → String
        → Option String
        → List (MatchItem D)
        → Matcher C D M T S
        → Matcher C D M T S
        → Type 0
    IsExecuted now broker uuid is m m' =
        (((is ≡ []) ⊎ (uuid ≡ none)) × (m'.world ≡ m.world))
        ⊎ ((id : String) × (uuid ≡ some id)
            × (is ≢ [])
            × (m'.world ≡ (execute_matches now perpetual broker id is m.world).1))

    -- What a round leaves of an engine.
    abbrev pub RoundOutcome :
        ℕ → ℕ → String → Option String → Matcher C D M T S → Matcher C D M T S → Type 0
    RoundOutcome now gas_limit broker uuid m m' =
        (NonePending m × (m' ≡ m))
        ⊎ ((is : List (MatchItem D)) × (match_order_side_by_side fl round_bank fuel tolerance
                perpetual now gas_limit m.world.orderbook m.pool_syncer
              ≡ some (is, m'.pool_syncer))
            × IsExecuted now broker uuid is m m')
