-- ===== src/Orderbook/Prices.antt =====
-- The sorted prices that the matcher walks.
pub mod Sorted
use mai3_broker.Base.{
  List, Dict, String, [], ◌∷◌, Option, none, some, Bool, true, false, if◌then◌else◌,
}
use mai3_broker.Decimal.{Decimal, zero, less_than, greater_than, of_string}
use mai3_broker.Orderbook.Book.{Book}

module _ {D : Type 0} where
  -- `sort.Slice` by an order on the prices; a run with no two equal prices has one outcome.
  unfoldable pub insert_sorted : (D → D → Bool) → D → List D → List D
  insert_sorted less p [] = p ∷ []
  insert_sorted less p (q ∷ qs) = if less q p then q ∷ insert_sorted less p qs else p ∷ q ∷ qs

  unfoldable pub sort_slice : (D → D → Bool) → List D → List D
  unfolding insert_sorted
  sort_slice less [] = []
  sort_slice less (p ∷ ps) = insert_sorted less p (sort_slice less ps)

module _ {D : Type 0} ⦃dec : Decimal D⦄ where
  -- `decimal.NewFromString`, whose error is dropped.
  abbrev pub parse_price : String → D
  parse_price key = elim (of_string key) [ none ↦ zero | some d ↦ d ]

  abbrev pub parse_prices : Dict (Unit {0}) → List D
  parse_prices [] = []
  parse_prices ((key, _) ∷ m) = parse_price key ∷ parse_prices m

  unfoldable pub get_bid_prices_desc : {M T : Type 0} → Book D M T → List D
  get_bid_prices_desc book = sort_slice greater_than (parse_prices book.bid_prices)

  unfoldable pub get_ask_prices_asc : {M T : Type 0} → Book D M T → List D
  get_ask_prices_asc book = sort_slice less_than (parse_prices book.ask_prices)
