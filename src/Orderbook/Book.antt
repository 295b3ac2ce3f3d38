-- ===== src/Orderbook/Book.antt =====
-- `Orderbook` and its methods. All of them hold the book's lock from the first line to the last, so
-- each is one step. An operation that fails leaves the book as it was: an insertion fails only at a
-- price level that holds an order already, so no level is created then.
pub mod Consistency
pub mod Lookup
use mai3_broker.Base.{
  String, Option, none, some, Bool, true, false, List, [], Dict, insert, erase, Result, ok, err,
  ◌>>=◌, or_fail, ◌==◌, if◌then◌else◌,
}
use mai3_broker.Decimal.{Decimal, is_negative, to_string}
use mai3_broker.Orderbook.Containers.{OrderedMap, PriceTree}
use mai3_broker.Orderbook.Level
use mai3_broker.Orderbook.Level.{MemoryOrder, PriceLevel, BookError, order_not_found}

-- The keys of a price map are the printed prices; their values are all nil. `D`, `M` and `T` are
-- the decimals, the ordered maps and the price trees in use.
pub record Book (D M T : Type 0) : Type 0 where
  pub bids_tree : T
  pub asks_tree : T
  pub bid_prices : Dict (Unit {0})
  pub ask_prices : Dict (Unit {0})

-- The variable `tree` of the methods, and the price map that goes with it.
module _ {D M T : Type 0} where
  abbrev pub tree_of : Bool → Book D M T → T
  tree_of true b = b.asks_tree
  tree_of false b = b.bids_tree

  abbrev pub prices_of : Bool → Book D M T → Dict (Unit {0})
  prices_of true b = b.ask_prices
  prices_of false b = b.bid_prices

  abbrev pub with_side : Bool → T → Dict (Unit {0}) → Book D M T → Book D M T
  with_side true t ps b = record b { asks_tree = t; ask_prices = ps }
  with_side false t ps b = record b { bids_tree = t; bid_prices = ps }

abbrev pub price_of_item : {D M : Type 0} → Option (D × PriceLevel D M) → Option D
price_of_item none = none
price_of_item (some (p, l)) = some l.price

module _ {D M T : Type 0} ⦃dec : Decimal D⦄ ⦃om : OrderedMap M (MemoryOrder D)⦄
    ⦃pt : PriceTree T D (PriceLevel D M)⦄ where
  unfoldable pub new_orderbook : Book D M T
  new_orderbook = record {
    bids_tree = pt.new;
    asks_tree = pt.new;
    bid_prices = [];
    ask_prices = [];
  }

  abbrev pub level_at : D → T → PriceLevel D M
  level_at price tree = elim (pt.get price tree) [ none ↦ Level.new_price_level price | some l ↦ l ]

  unfoldable pub insert_order : Book D M T → MemoryOrder D → Result BookError (Book D M T)
  insert_order book order = do
    let is_ask = is_negative order.amount
    let tree = tree_of is_ask book
    level ← Level.insert_order (level_at order.price tree) order
    ok (
        with_side is_ask (pt.put order.price level tree)
          (insert (to_string order.price) tt (prices_of is_ask book)) book)

  -- The level is written back, and a level with no order left is dropped with its price.
  unfoldable pub write_level : Bool → D → PriceLevel D M → Book D M T → Book D M T
  write_level is_ask price level book =
      if Level.len level == 0
      then with_side is_ask (pt.delete price tree) (erase (to_string price) prices) book
      else with_side is_ask tree prices book
    where
      tree : T
      tree = pt.put price level (tree_of is_ask book)

      prices : Dict (Unit {0})
      prices = prices_of is_ask book

  unfoldable pub remove_order : Book D M T → MemoryOrder D → Result BookError (Book D M T)
  remove_order book order = do
    let is_ask = is_negative order.amount
    level ← or_fail (pt.get order.price (tree_of is_ask book)) order_not_found
    (_, level') ← Level.remove_order level order.id
    ok (write_level is_ask order.price level' book)

  unfoldable pub change_order : Book D M T → MemoryOrder D → D → Result BookError (Book D M T)
  change_order book order change_amount = do
    let is_ask = is_negative order.amount
    level ← or_fail (pt.get order.price (tree_of is_ask book)) order_not_found
    level' ← Level.change_order level order.id change_amount
    ok (write_level is_ask order.price level' book)

  unfoldable pub get_order : Book D M T → String → Bool → D → Option (MemoryOrder D)
  get_order book id is_ask price = elim (pt.get price (tree_of is_ask book)) [
    | none ↦ none
    | some l ↦ Level.get_order l id
  ]

  unfoldable pub get_orders_by_price : Book D M T → Bool → D → List (MemoryOrder D)
  get_orders_by_price book is_ask price = elim (pt.get price (tree_of is_ask book)) [
    | none ↦ []
    | some l ↦ Level.get_orders l
  ]

  unfoldable pub get_ask_orders_by_price : Book D M T → D → List (MemoryOrder D)
  unfolding get_orders_by_price
  get_ask_orders_by_price book price = get_orders_by_price book true price

  unfoldable pub get_bid_orders_by_price : Book D M T → D → List (MemoryOrder D)
  unfolding get_orders_by_price
  get_bid_orders_by_price book price = get_orders_by_price book false price

  unfoldable pub max_bid : Book D M T → Option D
  max_bid book = price_of_item (pt.max_item book.bids_tree)

  unfoldable pub min_bid : Book D M T → Option D
  min_bid book = price_of_item (pt.min_item book.bids_tree)

  unfoldable pub max_ask : Book D M T → Option D
  max_ask book = price_of_item (pt.max_item book.asks_tree)

  unfoldable pub min_ask : Book D M T → Option D
  min_ask book = price_of_item (pt.min_item book.asks_tree)
