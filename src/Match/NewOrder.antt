-- ===== src/Match/NewOrder.antt =====
-- match/new_order.go: the way of a new order into the database and the book.
pub mod Guards
pub mod Checked
pub mod Entry
use mai3_broker.Base.{
  ℕ, suc, String, List, [], ◌∷◌, ◌++◌, length, Option, none, some, Bool, true, false, not, ◌&&◌,
  ltb, leb, ◌==◌, str_eq, Result, ok, err, if◌then◌else◌,
}
use mai3_broker.Base.Int.{pos}
use mai3_broker.Base.Actions.{Action, ◌>>=◌, ◌>>◌, pure, fail_with}
use mai3_broker.Decimal.{Decimal, of_int, zero, mul, less_than, equal, min_dec}
use mai3_broker.Amount.{to_wad, to_gwei}
use mai3_broker.Order.{Order}
use mai3_broker.Orderbook.Containers.{OrderedMap, PriceTree}
use mai3_broker.Orderbook.Level.{MemoryOrder, PriceLevel}
use mai3_broker.Orderbook.Book
use mai3_broker.Mai3.Storage.{PerpetualStorage, LiquidityPoolStorage, AccountStorage, get_perpetual}
use mai3_broker.Match.World as World
use mai3_broker.Match.World.{
  World, Database, MatchError, transaction, create_order, on_book, notify,
}
use mai3_broker.Match.Memory.{get_memory_order}
use mai3_broker.Match.Settle.{notice_of}
use mai3_broker.Match.CloseOnly.{check_close_only}
use mai3_broker.Match.Chain.{Chain, ChainError, Perpetual, wallet_balance}
use mai3_broker.Match.Available.{compute_order_available}
use mai3_broker.Match.Side.{get_gas_fee_limit}
use mai3_broker.Match.PoolSyncer.{PoolSyncer, get_pool_storage}
use mai3_broker.Match.Execute.{set_expiration_timer}
use mai3_broker.Match.Round.{Matcher}
use mai3_broker.Match.OrderChecks.{
  NewOrderError, Conf, OrdersEachPerp, on_world, or_internal, trigger_match, check_order,
}

module _ {D M T S : Type 0} ⦃dec : Decimal D⦄ ⦃om : OrderedMap M (MemoryOrder D)⦄
    ⦃pt : PriceTree T D (PriceLevel D M)⦄ ⦃db : Database S D⦄ where
  unfoldable pub insert_body : ℕ → Order D → World.Action (World D M T S) (Order D)
  unfolding set_expiration_timer create_order
  insert_body now order = do
    created ← create_order now order
    on_book (λ b. Book.insert_order b (get_memory_order created))
    set_expiration_timer now created.order_hash created.expires_at
    pure created

module _ {C D M T S : Type 0} ⦃dec : Decimal D⦄ ⦃ch : Chain C D⦄ ⦃om : OrderedMap M (MemoryOrder D)⦄
    ⦃pt : PriceTree T D (PriceLevel D M)⦄ ⦃db : Database S D⦄ where
  unfoldable pub new_order :
      Conf
      → (List (OrdersEachPerp D) → List (OrdersEachPerp D))
      → ℕ
      → Perpetual
      → D
      → Order D
      → Action NewOrderError (Matcher C D M T S) (Unit {0})
  unfolding check_order insert_body trigger_match transaction
  new_order conf iterate now perpetual gas_price order m =
      (or_internal (db.query_trader_orders order.trader_address m.world.store) >>= λ active.
      check_order conf iterate now perpetual gas_price active order >>= λ order'.
      on_world (transaction (insert_body now order')) >>= λ created.
      on_world (notify (notice_of 0 "" created ∷ [])) >> trigger_match)
        m
