-- ===== src/Tests/Handlers.antt =====
-- Runs of the handlers of the matching engine.
use mai3_broker.Base.{◌≡◌, refl, some, true, [], ◌∷◌, ok}
use mai3_broker.Base.Int.{ℤ, pos, ◌+ℤ◌, ◌-ℤ◌}
use mai3_broker.Decimal.{abs, add}
use mai3_broker.Decimal.Integers.{integers, print, strokes}
use mai3_broker.Amount.{has_the_same_sign}
use mai3_broker.Order
use mai3_broker.Order.{Order, OrderStatus, status_by_amounts}
use mai3_broker.Orderbook.Level.{MemoryOrder, PriceLevel}
use mai3_broker.Orderbook.Level
use mai3_broker.Orderbook.Book
use mai3_broker.Orderbook.Prices.{sort_slice, insert_sorted}
use mai3_broker.Match.World.{MatchTransaction, TransactionStatus, update_order}
use mai3_broker.Match.Memory.{rollback_orderbook}
use mai3_broker.Match.Memory.Sync.{IsSynced, rollback_orderbook_sync}
use mai3_broker.Match.Settle.{settle_orders, settle_order, settle_success}
use mai3_broker.Match.Settle.Balance.{SameTotals, settle_orders_total}
use mai3_broker.Match.Rollback.{Outcome, unmoved, rollback_orders, rollback_order, success_to_fail}
use mai3_broker.Match.Settle.{fail_reason}
use mai3_broker.Match.Rollback.Balance.{AllKeep, rollback_orders_keep}
use mai3_broker.Base.{err}
use mai3_broker.Match.World.{MatchError, transaction}
use mai3_broker.Match.Settle.{update_in_transaction, update_orders_status}
use mai3_broker.Tests.Containers.{ordered_list, price_list, find, put, drop}
use mai3_broker.Tests.Data.{TestWorld, rows, bid, bid_in_book, bid_level, bid_book}
use mai3_broker.Tests.Books.{bid_book-IsBook}

abbrev world : TestWorld
world = record {
  store = record { orders = ("x", bid) ∷ []; matches = [] };
  orderbook = bid_book;
  timers = ("x", 100) ∷ [];
  expired = [];
  ws_chan = [];
}

bid-IsSynced : IsSynced bid_book bid
unfolding Book.get_order Level.get_order find
bid-IsSynced = (bid_in_book, refl, record { id = refl; price = refl; side = refl; amount = refl })

abbrev canceled_bid : Order ℤ
canceled_bid = record bid {
  old_status = OrderStatus.pending;
  available_amount = pos 1;
  canceled_amount = pos 3;
  cancel_reasons =
      record { reason = "user"; amount = pos 2; canceled_at = 7; transaction_hash = "" } ∷ [];
}

abbrev canceled_world : TestWorld
canceled_world = record world {
  store = record { orders = ("x", record canceled_bid { updated_at = 7 }) ∷ []; matches = [] };
  orderbook = record bid_book {
    bids_tree =
        (
          pos 2,
          record bid_level {
            total_amount = pos 1;
            order_map = ("x", record bid_in_book { amount = pos 1 }) ∷ [];
          },
        )
        ∷ [];
  };
  timers = [];
}

abbrev reloaded_bid : Order ℤ
reloaded_bid = record bid { available_amount = pos 5; pending_amount = pos 0 }

abbrev reloaded_world : TestWorld
reloaded_world = record world {
  orderbook = record bid_book {
    bids_tree =
        (
          pos 2,
          record bid_level {
            total_amount = pos 5;
            order_map = ("x", record bid_in_book { amount = pos 5 }) ∷ [];
          },
        )
        ∷ [];
  };
}

reload : rollback_orderbook (pos 3) (pos 2) reloaded_bid world ≡ (ok tt, reloaded_world)
unfolding rollback_orderbook Book.get_order Book.change_order Book.write_level Level.get_order
    Level.change_order Level.len find put drop print strokes has_the_same_sign ◌+ℤ◌ ◌-ℤ◌
reload = refl

reloaded_amount : pos 5 ≡ add (pos 3) (pos 2)
unfolding ◌+ℤ◌
reloaded_amount = refl

rollback_orderbook_sync_example : IsSynced reloaded_world.orderbook reloaded_bid
rollback_orderbook_sync_example =
    rollback_orderbook_sync (pos 2) bid reloaded_bid world reloaded_world bid_book-IsBook
      bid-IsSynced refl refl refl reloaded_amount refl refl reload

abbrev tx : MatchTransaction ℤ
tx = record {
  id = "m";
  liquidity_pool_address = "p";
  perpetual_index = 0;
  broker_address = "b";
  status = TransactionStatus.success;
  block_confirmed = true;
  block_number = some 5;
  block_hash = some "h";
  transaction_hash = some "t";
  created_at = 1;
  executed_at = some 6;
  match_result = record {
    match_items = record { order_hash = "x"; amount = pos 2 } ∷ [];
    succ_items = record { order_hash = "x"; amount = pos 4 } ∷ [];
    failed_items = [];
  };
}

-- One of the two units that were sent is traded; the other goes back to the book.
abbrev settled_bid : Order ℤ
settled_bid = record bid {
  available_amount = pos 4;
  pending_amount = pos 0;
  confirmed_amount = pos 5;
}

abbrev settled_world : TestWorld
settled_world = record world {
  store = record { orders = ("x", record settled_bid { updated_at = 8 }) ∷ []; matches = [] };
  orderbook = record bid_book {
    bids_tree =
        (
          pos 2,
          record bid_level {
            total_amount = pos 4;
            order_map = ("x", record bid_in_book { amount = pos 4 }) ∷ [];
          },
        )
        ∷ [];
  };
}

settle_bid :
    settle_orders 8 tx (("x", pos 1) ∷ []) [] (("x", pos 2) ∷ []) (bid ∷ []) world
    ≡ (ok (settled_bid ∷ []), settled_world)
unfolding settle_orders settle_order settle_success rollback_orderbook update_order sort_slice
    insert_sorted status_by_amounts Book.get_order Book.change_order Book.write_level
    Level.get_order Level.change_order Level.len find put drop print strokes abs has_the_same_sign
    ◌+ℤ◌ ◌-ℤ◌
settle_bid = refl

settle_orders_total_example : SameTotals (bid ∷ []) (settled_bid ∷ [])
settle_orders_total_example =
    settle_orders_total 8 tx (("x", pos 1) ∷ []) [] (("x", pos 2) ∷ []) (bid ∷ [])
      (settled_bid ∷ []) world settled_world settle_bid

-- The chain has dropped the block: the four units that were traded have failed.
abbrev out : Outcome ℤ
out = record {
  succ_before = ("x", pos 4) ∷ [];
  fail_before = [];
  succ = [];
  fail = ("x", pos 4) ∷ [];
}

abbrev failed_bid : Order ℤ
failed_bid = record bid {
  confirmed_amount = pos 0;
  canceled_amount = pos 5;
  cancel_reasons =
      record {
        reason = "TRANSACTION_FAIL";
        amount = pos 4;
        canceled_at = 6;
        transaction_hash = "t";
      }
      ∷ [];
}

abbrev failed_world : TestWorld
failed_world = record world {
  store = record { orders = ("x", record failed_bid { updated_at = 9 }) ∷ []; matches = [] };
}

fail_bid : rollback_orders 9 tx out (bid ∷ []) world ≡ (
  ok (
      record (unmoved failed_bid) {
        failed_items = record { order_hash = "x"; amount = pos 4 } ∷ [];
      }
      ∷ []),
  failed_world,
)
unfolding rollback_orders rollback_order success_to_fail update_order sort_slice insert_sorted
    status_by_amounts fail_reason abs ◌+ℤ◌ ◌-ℤ◌
fail_bid = refl

rollback_orders_keep_example : AllKeep (bid ∷ []) (
    record (unmoved failed_bid) { failed_items = record { order_hash = "x"; amount = pos 4 } ∷ [] }
    ∷ [])
rollback_orders_keep_example =
    rollback_orders_keep 9 tx out (bid ∷ [])
      (record (unmoved failed_bid) {
        failed_items = record { order_hash = "x"; amount = pos 4 } ∷ [];
      }
        ∷ [])
      world failed_world fail_bid

no_such_transaction :
    update_orders_status 8 "q" TransactionStatus.success "t" "h" 5 6 [] [] world
    ≡ (err MatchError.database, world)
unfolding update_orders_status update_in_transaction transaction
no_such_transaction = refl
