-- ===== src/Match/Memory.antt =====
-- How the engine writes the orders of the database to the in-memory book.
pub mod Sync
use mai3_broker.Base.{String, Option, none, some, if◌then◌else◌}
use mai3_broker.Decimal.{Decimal, is_negative, is_zero}
use mai3_broker.Order.{Order}
use mai3_broker.Orderbook.Containers.{OrderedMap, PriceTree}
use mai3_broker.Orderbook.Level.{MemoryOrder, PriceLevel}
use mai3_broker.Orderbook.Book
use mai3_broker.Orderbook.Book.{Book}
use mai3_broker.Match.World.{World, Action, on_book, get_book, fail_with, not_found_in_book, ◌>>=◌}

-- match/match.go
unfoldable pub get_memory_order : {D : Type 0} → Order D → MemoryOrder D
get_memory_order order = record {
  id = order.order_hash;
  liquidity_pool_address = order.liquidity_pool_address;
  perpetual_index = order.perpetual_index;
  price = order.price;
  trigger_price = order.trigger_price;
  amount = order.available_amount;
  min_trade_amount = order.min_trade_amount;
  type = order.type;
  trader = order.trader_address;
}

-- match/match_result.go
module _ {D M T S : Type 0} ⦃dec : Decimal D⦄ ⦃om : OrderedMap M (MemoryOrder D)⦄
    ⦃pt : PriceTree T D (PriceLevel D M)⦄ where
  unfoldable pub rollback_orderbook : D → D → Order D → Action (World D M T S) (Unit {0})
  rollback_orderbook old_amount delta order =
      if is_zero old_amount
      then on_book (λ b. Book.insert_order b (get_memory_order order))
      else (do
        b ← get_book
        elim (Book.get_order b order.order_hash (is_negative order.amount) order.price) [
          | none ↦ fail_with not_found_in_book
          | some book_order ↦ on_book (λ b. Book.change_order b book_order delta)
        ])
