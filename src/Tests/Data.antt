-- ===== src/Tests/Data.antt =====
-- A database of orders in a list, and the orders, books and worlds of the tests.
use mai3_broker.Base.{String, Option, none, some, false, List, [], ◌∷◌, Dict, lookup, insert}
use mai3_broker.Base.Int.{ℤ, pos, negsuc}
use mai3_broker.Decimal.Integers.{integers}
use mai3_broker.Order.{Order, OrderParam, OrderStatus}
use mai3_broker.Orderbook.Level.{MemoryOrder, PriceLevel}
use mai3_broker.Orderbook.Book.{Book}
use mai3_broker.Match.World.{Database, World, MatchTransaction}
use mai3_broker.Tests.Containers.{ordered_list, price_list}

pub record Rows : Type 0 where
  pub orders : Dict (Order ℤ)
  pub matches : Dict (MatchTransaction ℤ)

abbrev pub find_orders : List String → Dict (Order ℤ) → Option (List (Order ℤ))
find_orders [] m = some []
find_orders (h ∷ hs) m = elim (lookup h m) [
  | none ↦ none
  | some o ↦ elim (find_orders hs m) [ none ↦ none | some os ↦ some (o ∷ os) ]
]

abbrev pub row_orders : Dict (Order ℤ) → List (Order ℤ)
row_orders [] = []
row_orders ((h, o) ∷ m) = o ∷ row_orders m

instance abbrev pub rows : Database Rows ℤ
rows = record {
  get_order = λ h s. lookup h s.orders;
  get_orders_by_hashes = λ hs s. find_orders hs s.orders;
  query_pending_orders = λ s. some (row_orders s.orders);
  query_trader_orders = λ trader s. some (row_orders s.orders);
  create_order = λ o s. some (record s { orders = insert o.order_hash o s.orders });
  save_order = λ o s. some (record s { orders = insert o.order_hash o s.orders });
  get_match = λ id s. lookup id s.matches;
  create_match = λ t s. some (record s { matches = insert t.id t s.matches });
  save_match = λ t s. some (record s { matches = insert t.id t s.matches });
  commit = λ before after. some after;
}

abbrev pub Levels : Type 0
Levels = Dict (MemoryOrder ℤ)

abbrev pub Prices : Type 0
Prices = List (ℤ × PriceLevel ℤ Levels)

abbrev pub TestBook : Type 0
TestBook = Book ℤ Levels Prices

abbrev pub TestWorld : Type 0
TestWorld = World ℤ Levels Prices Rows

abbrev pub param : ℤ → ℤ → OrderParam ℤ
param price amount = record {
  trader_address = "t";
  liquidity_pool_address = "p";
  perpetual_index = 0;
  relayer_address = "r";
  broker_address = "b";
  referrer_address = "";
  type = 1;
  price = price;
  amount = amount;
  min_trade_amount = pos 1;
  trigger_price = pos 0;
  broker_fee_limit = pos 0;
  expires_at = 100;
  salt = pos 0;
  is_close_only = false;
  chain_id = pos 1;
  signature = "";
}

-- An order to buy ten at 2: three are available, two pending, four confirmed and one canceled.
abbrev pub bid : Order ℤ
bid = record {
  param = param (pos 2) (pos 10);
  id = 1;
  order_hash = "x";
  old_status = OrderStatus.pending;
  status = OrderStatus.pending;
  collateral_address = "c";
  available_amount = pos 3;
  confirmed_amount = pos 4;
  canceled_amount = pos 1;
  pending_amount = pos 2;
  gas_fee_limit = pos 0;
  created_at = 0;
  updated_at = 0;
  check_amount = pos 0;
  cancel_reasons = [];
}

abbrev pub bid_in_book : MemoryOrder ℤ
bid_in_book = record {
  id = "x";
  liquidity_pool_address = "p";
  perpetual_index = 0;
  price = pos 2;
  trigger_price = pos 0;
  amount = pos 3;
  min_trade_amount = pos 1;
  type = 1;
  trader = "t";
}

abbrev pub ask_in_book : MemoryOrder ℤ
ask_in_book = record bid_in_book { id = "y"; price = pos 3; amount = negsuc 4 }

abbrev pub bid_level : PriceLevel ℤ Levels
bid_level = record { price = pos 2; total_amount = pos 3; order_map = ("x", bid_in_book) ∷ [] }

abbrev pub empty_book : TestBook
empty_book = record { bids_tree = []; asks_tree = []; bid_prices = []; ask_prices = [] }

abbrev pub bid_book : TestBook
bid_book = record empty_book { bids_tree = (pos 2, bid_level) ∷ []; bid_prices = ("+11", tt) ∷ [] }
