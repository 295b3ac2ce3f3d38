-- ===== src/Tests/Books.antt =====
-- Runs of the order book.
use mai3_broker.Base.{◌≡◌, refl, none, some, true, false, [], ◌∷◌, ok, is_some, ◌↔◌}
use mai3_broker.Base.Int.{ℤ, pos, negsuc, ◌+ℤ◌, ◌-ℤ◌}
use mai3_broker.Decimal.{greater_than, less_than}
use mai3_broker.Decimal.Integers.{integers, print, strokes}
use mai3_broker.Amount.{has_the_same_sign}
use mai3_broker.Orderbook.Level.{MemoryOrder, PriceLevel}
use mai3_broker.Orderbook.Level
use mai3_broker.Orderbook.Book
use mai3_broker.Orderbook.Book.Consistency.{
  IsBook, new_orderbook-IsBook, insert_order-IsBook, change_order-IsBook, remove_order-IsBook,
}
use mai3_broker.Orderbook.Book.Lookup.{get_order-insert_order_book, get_order-change_order_book}
use mai3_broker.Orderbook.Level.Lookup.{changed}
use mai3_broker.Orderbook.Prices.{get_bid_prices_desc, get_ask_prices_asc}
use mai3_broker.Orderbook.Prices.Sorted.{
  IsSorted, Occurs, get_bid_prices_desc_lem, get_ask_prices_asc_lem,
}
use mai3_broker.Tests.Containers.{ordered_list, price_list, find, put, drop}
use mai3_broker.Tests.Data.{TestBook, bid_in_book, bid_level, empty_book, bid_book}

new_empty : empty_book ≡ Book.new_orderbook
unfolding Book.new_orderbook
new_empty = refl

empty_book-IsBook : IsBook empty_book
empty_book-IsBook = new_orderbook-IsBook empty_book new_empty

insert_bid : Book.insert_order empty_book bid_in_book ≡ ok bid_book
unfolding Book.insert_order Level.insert_order Level.new_price_level find put print strokes ◌+ℤ◌
insert_bid = refl

pub bid_book-IsBook : IsBook bid_book
bid_book-IsBook = insert_order-IsBook empty_book bid_book bid_in_book empty_book-IsBook insert_bid

insert_order-IsBook_example : IsBook bid_book
insert_order-IsBook_example =
    insert_order-IsBook empty_book bid_book bid_in_book empty_book-IsBook insert_bid

abbrev smaller_book : TestBook
smaller_book = record bid_book {
  bids_tree =
      (
        pos 2,
        record bid_level {
          total_amount = pos 1;
          order_map = ("x", record bid_in_book { amount = pos 1 }) ∷ [];
        },
      )
      ∷ [];
}

change_bid : Book.change_order bid_book bid_in_book (negsuc 1) ≡ ok smaller_book
unfolding Book.change_order Level.change_order Book.write_level Level.len find put drop print
    strokes ◌+ℤ◌ ◌-ℤ◌ has_the_same_sign
change_bid = refl

change_order-IsBook_example : IsBook smaller_book
change_order-IsBook_example =
    change_order-IsBook bid_book smaller_book bid_in_book (negsuc 1) bid_book-IsBook change_bid

remove_bid : Book.remove_order bid_book bid_in_book ≡ ok empty_book
unfolding Book.remove_order Level.remove_order Book.write_level Level.len find put drop print
    strokes ◌+ℤ◌ ◌-ℤ◌
remove_bid = refl

remove_order-IsBook_example : IsBook empty_book
remove_order-IsBook_example =
    remove_order-IsBook bid_book empty_book bid_in_book bid_book-IsBook remove_bid

get_order-insert_order_book_example :
    (Book.get_order empty_book "x" false (pos 2) ≡ none)
    × (Book.get_order bid_book "x" false (pos 2) ≡ some bid_in_book)
get_order-insert_order_book_example =
    get_order-insert_order_book empty_book bid_book bid_in_book "x" false (pos 2) insert_bid

get_order-change_order_book_example :
    (old : MemoryOrder ℤ) × (Book.get_order bid_book "x" false (pos 2) ≡ some old)
    × (Book.get_order smaller_book "x" false (pos 2) ≡ changed old (negsuc 1))
get_order-change_order_book_example =
    get_order-change_order_book bid_book smaller_book bid_in_book (negsuc 1) "x" false (pos 2)
      bid_book-IsBook change_bid

get_bid_prices_desc_lem_example :
    IsSorted greater_than (get_bid_prices_desc bid_book)
    × ((x : ℤ)
        → Occurs x (get_bid_prices_desc bid_book) ↔ (is_some (find x bid_book.bids_tree) ≡ true))
get_bid_prices_desc_lem_example = get_bid_prices_desc_lem bid_book bid_book-IsBook

get_ask_prices_asc_lem_example :
    IsSorted less_than (get_ask_prices_asc bid_book)
    × ((x : ℤ)
        → Occurs x (get_ask_prices_asc bid_book) ↔ (is_some (find x bid_book.asks_tree) ≡ true))
get_ask_prices_asc_lem_example = get_ask_prices_asc_lem bid_book bid_book-IsBook
