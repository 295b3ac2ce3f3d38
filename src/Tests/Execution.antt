-- ===== src/Tests/Execution.antt =====
-- Runs of the handlers that write what was matched, load a book, and take a new order.
use mai3_broker.Base.{
  ◌≡◌, refl, true, none, some, false, [], ◌∷◌, ok, err, All, inr, arith, lookup-insert,
}
use mai3_broker.Base.Int.{ℤ, pos, ◌+ℤ◌, ◌-ℤ◌}
use mai3_broker.Decimal.{abs}
use mai3_broker.Decimal.Integers.{integers, negate, print, strokes}
use mai3_broker.Amount.{has_the_same_sign}
use mai3_broker.Order.{Order, OrderStatus, status_by_amounts}
use mai3_broker.Orderbook.Level
use mai3_broker.Orderbook.Level.{MemoryOrder}
use mai3_broker.Orderbook.Book
use mai3_broker.Orderbook.Book.Consistency.{IsBook, new_orderbook-IsBook, insert_order-IsBook}
use mai3_broker.Match.World.{transaction, MatchTransaction, TransactionStatus, update_order}
use mai3_broker.Match.Memory.{get_memory_order}
use mai3_broker.Match.Memory.Sync.{IsSynced}
use mai3_broker.Match.Execute.{
  execute_body, execute_items, execute_item, save_matched, matched_order, item_reasons,
  change_items, sent_items, new_transaction, reload_active_orders, load_orders, load_order,
  set_expiration_timer,
}
use mai3_broker.Match.Execute.Balance.{IsMatched, execute_item_moves}
use mai3_broker.Match.Execute.Sync.{KeepsRows, InStep, execute_body_sync}
use mai3_broker.Match.Execute.Reload.{reload_active_orders_sync}
use mai3_broker.Match.OrderChecks.{Conf, max_order_num_reach, check_order}
use mai3_broker.Orderbook.Prices.{sort_slice}
use mai3_broker.Match.NewOrder.{new_order, insert_body}
use mai3_broker.Match.NewOrder.Guards.{new_order_refused}
use mai3_broker.Match.Cancel.{cancel_order_without_lock}
use mai3_broker.Match.Round.{Matcher}
use mai3_broker.Match.Invariant.{start, then, inserts, cancels}
use mai3_broker.Match.Invariant.Reachable.{engine-IsBook}
use mai3_broker.Tests.Containers.{ordered_list, price_list, find, put, drop}
use mai3_broker.Tests.Data.{TestWorld, TestBook, Rows, rows, Levels, Prices, empty_book}
use mai3_broker.Tests.Matching.{
  five, five_item, five_in_book, five_book, five_level, five_world, contract, steady, cache,
}

-- The five that were matched wait for their transaction.
abbrev sent_five : Order ℤ
sent_five = record five {
  available_amount = pos 0;
  pending_amount = pos 5;
  old_status = OrderStatus.pending;
}

abbrev sent_tx : MatchTransaction ℤ
sent_tx = record {
  id = "u";
  liquidity_pool_address = "p";
  perpetual_index = 0;
  broker_address = "b";
  status = TransactionStatus.init;
  block_confirmed = false;
  block_number = none;
  block_hash = none;
  transaction_hash = none;
  created_at = 9;
  executed_at = none;
  match_result = record {
    match_items = record { order_hash = "x"; amount = pos 5 } ∷ [];
    succ_items = [];
    failed_items = [];
  };
}

abbrev sent_world : TestWorld
sent_world = record five_world {
  store = record {
    orders = ("x", record sent_five { old_status = OrderStatus.pending; updated_at = 9 }) ∷ [];
    matches = ("u", sent_tx) ∷ [];
  };
  orderbook = empty_book;
}

send_five :
    execute_body 9 contract "b" "u" (five_item ∷ []) five_world ≡ (ok (sent_five ∷ []), sent_world)
unfolding execute_body execute_items execute_item save_matched matched_order item_reasons
    change_items sent_items new_transaction update_order sort_slice status_by_amounts
    Book.change_order Book.write_level Level.change_order Level.len find put drop print strokes
    negate abs has_the_same_sign ◌+ℤ◌ ◌-ℤ◌
send_five = refl

execute_five : execute_item 9 five_item five_world ≡ (
  ok sent_five,
  record five_world {
    store = record { orders = ("x", record sent_five { updated_at = 9 }) ∷ []; matches = [] };
  },
)
unfolding execute_item save_matched matched_order item_reasons update_order sort_slice
    status_by_amounts abs has_the_same_sign ◌+ℤ◌ ◌-ℤ◌
execute_five = refl

execute_item_moves_example :
    (o : Order ℤ) × (rows.get_order "x" five_world.store ≡ some o)
    × IsMatched 9 five_item o sent_five
    × (five_book ≡ five_book)
execute_item_moves_example =
    execute_item_moves 9 five_item sent_five five_world
      (record five_world {
        store = record { orders = ("x", record sent_five { updated_at = 9 }) ∷ []; matches = [] };
      })
      execute_five

rows-KeepsRows : KeepsRows Rows ℤ
rows-KeepsRows h o s s' saved other = ground (arith, lookup-insert o.order_hash h o s.orders)

empty_book-IsBook : IsBook empty_book
unfolding Book.new_orderbook
empty_book-IsBook = new_orderbook-IsBook empty_book refl

insert_five : Book.insert_order empty_book five_in_book ≡ ok five_book
unfolding Book.insert_order Level.insert_order Level.new_price_level find put print strokes ◌+ℤ◌
insert_five = refl

five_book-IsBook : IsBook five_book
five_book-IsBook =
    insert_order-IsBook empty_book five_book five_in_book empty_book-IsBook insert_five

five-InStep : InStep five_world five_item
unfolding Book.get_order Level.get_order find
five-InStep = record {
  order = five;
  row = refl;
  there = refl;
  is_entry = record { id = refl; price = refl; side = refl; amount = refl };
  available = refl;
  rest = inr refl;
}

execute_body_sync_example : IsBook empty_book × All (IsSynced empty_book) (sent_five ∷ [])
execute_body_sync_example =
    execute_body_sync 9 contract "b" "u" (five_item ∷ []) (sent_five ∷ []) five_world sent_world
      rows-KeepsRows five_book-IsBook (tt, tt) (five-InStep, tt) send_five

abbrev fresh_world : TestWorld
fresh_world = record five_world { orderbook = empty_book; timers = [] }

reload_five : reload_active_orders 9 fresh_world ≡ (ok tt, five_world)
unfolding reload_active_orders load_orders load_order set_expiration_timer get_memory_order
    Book.insert_order Level.insert_order Level.new_price_level find put print strokes ◌+ℤ◌
reload_five = refl

reload_active_orders_sync_example : IsBook five_book × All (IsSynced five_book) (five ∷ [])
unfolding Book.new_orderbook
reload_active_orders_sync_example =
    reload_active_orders_sync 9 (five ∷ []) fresh_world five_world refl refl (tt, tt)
      ((λ _. refl), tt) reload_five

abbrev conf : Conf
conf = record { max_order_num = 2; gas_enable = false; broker_address = "b" }

abbrev six : Order ℤ
six = record five { order_hash = "z" }

abbrev before : Matcher (Unit {0}) ℤ Levels Prices Rows
before = record { world = fresh_world; pool_syncer = cache; trgr = 3 }

full :
    new_order (record conf { max_order_num = 1 }) (λ vs. vs) 9 contract (pos 1) six before
    ≡ (err max_order_num_reach, before)
unfolding new_order check_order
full = refl

new_order_refused_example : fresh_world.store ≡ fresh_world.store
new_order_refused_example =
    new_order_refused (record conf { max_order_num = 1 }) (λ vs. vs) 9 contract (pos 1) six before
      before max_order_num_reach full

abbrev written_six : Order ℤ
written_six = record six { gas_fee_limit = pos 4_807_300 }

abbrev six_in_book : MemoryOrder ℤ
six_in_book = record five_in_book { id = "z" }

abbrev six_book : TestBook
six_book = record five_book {
  bids_tree = (pos 10, record five_level { order_map = ("z", six_in_book) ∷ [] }) ∷ [];
}

abbrev after_six : Matcher (Unit {0}) ℤ Levels Prices Rows
after_six = record before {
  world = record fresh_world {
    store = record {
      orders = ("x", five) ∷ ("z", record written_six { created_at = 9 }) ∷ [];
      matches = [];
    };
    orderbook = six_book;
    timers = ("z", 100) ∷ [];
    ws_chan = record { order = written_six; block_number = 0; transaction_hash = "" } ∷ [];
  };
  trgr = 4;
}

-- The engine is started, a second order comes in, and the first one is canceled.
abbrev run : TestWorld
run =
    (cancel_order_without_lock 9 "x" "user" true (pos 0)
      (transaction (insert_body 9 six) (reload_active_orders 9 fresh_world).1).1).1

engine-IsBook_example : IsBook run.orderbook
unfolding Book.new_orderbook
engine-IsBook_example =
    engine-IsBook 9 fresh_world run refl
      (then (then start (inserts 9 six)) (cancels 9 "x" "user" true (pos 0)))

abbrev waiting : Matcher (Unit {0}) ℤ Levels Prices Rows
waiting = record { world = five_world; pool_syncer = cache; trgr = 0 }
