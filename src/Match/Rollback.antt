-- ===== src/Match/Rollback.antt =====
-- match/match_result.go: a transaction that was settled turns out different, after a fork of the
-- chain, and its orders are moved to where the new events put them.
pub mod Balance
use mai3_broker.Base.{
  ℕ, String, List, [], ◌∷◌, ◌++◌, Dict, lookup, Option, none, some, Bool, true, false, not, str_eq,
  map, is_some, if◌then◌else◌,
}
use mai3_broker.Decimal.{Decimal, zero, add, sub, neg, abs, greater_than_or_equal}
use mai3_broker.Order.{Order, OrderCancelReason}
use mai3_broker.Orderbook.Containers.{OrderedMap, PriceTree}
use mai3_broker.Orderbook.Level.{MemoryOrder, PriceLevel}
use mai3_broker.Match.World.{
  World, Database, Action, MatchItem, MatchTransaction, TransactionStatus, Notice, read, write,
  transaction, update_order, notify, pure, ◌>>=◌, ◌>>◌,
}
use mai3_broker.Match.Memory.{rollback_orderbook}
use mai3_broker.Match.Settle.{
  TradeSuccessEvent, TradeFailedEvent, item_of_success, cancelling, amounts_of, hash_of,
  fail_reason, notice_of, text_or_empty, same_status,
}

-- What one order's turn adds: the order as it is left, the items it appends to the result of the
-- transaction, and whether it is announced.
pub record Moved (D : Type 0) : Type 0 where
  pub order : Order D
  pub succ_items : List (MatchItem D)
  pub failed_items : List (MatchItem D)
  pub announced : Bool

-- The items of the transaction, as maps by order hash, before and after.
pub record Outcome (D : Type 0) : Type 0 where
  pub succ_before : Dict D
  pub fail_before : Dict D
  pub succ : Dict D
  pub fail : Dict D

module _ {D : Type 0} where
  -- The reasons that this transaction has not given.
  pub drop_reasons : String → List (OrderCancelReason D) → List (OrderCancelReason D)
  drop_reasons transaction_hash [] = []
  drop_reasons transaction_hash (r ∷ rs) =
      if str_eq r.transaction_hash transaction_hash
      then drop_reasons transaction_hash rs
      else r ∷ drop_reasons transaction_hash rs

  abbrev pub item : Order D → D → List (MatchItem D)
  item order amount = record { order_hash = order.order_hash; amount = amount } ∷ []

  abbrev pub unmoved : Order D → Moved D
  unmoved order = record { order = order; succ_items = []; failed_items = []; announced = false }

  -- The orders to announce, and the items of the transaction's result.
  pub announced_orders : List (Moved D) → List (Order D)
  announced_orders [] = []
  announced_orders (m ∷ ms) =
      if m.announced then m.order ∷ announced_orders ms else announced_orders ms

  pub all_succ_items : List (Moved D) → List (MatchItem D)
  all_succ_items [] = []
  all_succ_items (m ∷ ms) = m.succ_items ++ all_succ_items ms

  pub all_failed_items : List (Moved D) → List (MatchItem D)
  all_failed_items [] = []
  all_failed_items (m ∷ ms) = m.failed_items ++ all_failed_items ms

module _ {D M T S : Type 0} ⦃dec : Decimal D⦄ ⦃om : OrderedMap M (MemoryOrder D)⦄
    ⦃pt : PriceTree T D (PriceLevel D M)⦄ ⦃db : Database S D⦄ where
  -- An order whose available amount changes is written to the database, then to the book.
  unfoldable pub save_and_reload : ℕ → D → D → Order D → Action (World D M T S) (Order D)
  save_and_reload now old_amount delta order = do
    order' ← update_order now order
    rollback_orderbook old_amount delta order'
    pure order'

  unfoldable pub success_to_fail :
      ℕ → MatchTransaction D → D → Order D → Action (World D M T S) (Moved D)
  unfolding fail_reason
  success_to_fail now tx amount order = do
    order' ← update_order now (record order {
      confirmed_amount = sub order.confirmed_amount amount;
      canceled_amount = add order.canceled_amount amount;
      cancel_reasons = order.cancel_reasons ++ fail_reason tx amount ∷ [];
    })
    pure (record (unmoved order') { failed_items = item order amount })

  unfoldable pub success_to_book : ℕ → D → Order D → Action (World D M T S) (Moved D)
  success_to_book now amount order = do
    order' ← save_and_reload now order.available_amount amount (record order {
      confirmed_amount = sub order.confirmed_amount amount;
      available_amount = add order.available_amount amount;
    })
    pure (record (unmoved order') { announced = true })

  unfoldable pub fail_to_success :
      ℕ → MatchTransaction D → D → Order D → Action (World D M T S) (Moved D)
  unfolding drop_reasons
  fail_to_success now tx amount order = do
    order' ← update_order now (record order {
      confirmed_amount = add order.confirmed_amount amount;
      canceled_amount = sub order.canceled_amount amount;
      cancel_reasons = drop_reasons (text_or_empty tx.transaction_hash) order.cancel_reasons;
    })
    pure (record (unmoved order') { succ_items = item order amount })

  unfoldable pub fail_to_book :
      ℕ → MatchTransaction D → D → Order D → Action (World D M T S) (Moved D)
  unfolding drop_reasons
  fail_to_book now tx amount order = do
    order' ← save_and_reload now order.available_amount amount (record order {
      canceled_amount = sub order.canceled_amount amount;
      available_amount = add order.available_amount amount;
      cancel_reasons = drop_reasons (text_or_empty tx.transaction_hash) order.cancel_reasons;
    })
    pure (record (unmoved order') { announced = true })

  unfoldable pub book_to_success : ℕ → D → Order D → Action (World D M T S) (Moved D)
  book_to_success now amount order =
      if greater_than_or_equal (abs order.available_amount) (abs amount)
      then (do
        order' ← save_and_reload now order.available_amount (neg amount) (record order {
          confirmed_amount = add order.confirmed_amount amount;
          available_amount = sub order.available_amount amount;
        })
        pure (record (unmoved order') { succ_items = item order amount; announced = true }))
      else pure (unmoved order)

  unfoldable pub book_to_fail :
      ℕ → MatchTransaction D → D → Order D → Action (World D M T S) (Moved D)
  unfolding fail_reason
  book_to_fail now tx amount order =
      if greater_than_or_equal (abs order.available_amount) (abs amount)
      then (do
        order' ← save_and_reload now order.available_amount (neg amount) (record order {
          canceled_amount = add order.canceled_amount amount;
          available_amount = sub order.available_amount amount;
          cancel_reasons = order.cancel_reasons ++ fail_reason tx amount ∷ [];
        })
        pure (record (unmoved order') { failed_items = item order amount; announced = true }))
      else pure (unmoved order)

  -- The body of the loop over the orders, by where the order was and where it is to be.
  unfoldable pub rollback_order :
      ℕ → MatchTransaction D → Outcome D → Order D → Action (World D M T S) (Moved D)
  rollback_order now tx out order = elim (lookup order.order_hash out.succ_before) [
    | some amount ↦
        if is_some (lookup order.order_hash out.succ)
        then pure (record (unmoved order) { succ_items = item order amount })
        else if is_some (lookup order.order_hash out.fail)
        then success_to_fail now tx amount order
        else success_to_book now amount order
    | none ↦ elim (lookup order.order_hash out.fail_before) [
      | some amount ↦
          if is_some (lookup order.order_hash out.succ)
          then fail_to_success now tx amount order
          else if is_some (lookup order.order_hash out.fail)
          then pure (record (unmoved order) { failed_items = item order amount })
          else fail_to_book now tx amount order
      | none ↦ elim (lookup order.order_hash out.succ) [
        | some amount ↦ book_to_success now amount order
        | none ↦ elim (lookup order.order_hash out.fail) [
          | some amount ↦ book_to_fail now tx amount order
          | none ↦ pure (unmoved order)
        ]
      ]
    ]
  ]

  unfoldable pub rollback_orders :
      ℕ → MatchTransaction D → Outcome D → List (Order D) → Action (World D M T S) (List (Moved D))
  rollback_orders now tx out [] = pure []
  rollback_orders now tx out (o ∷ os) =
      rollback_order now tx out o >>= λ m. rollback_orders now tx out os >>= λ ms. pure (m ∷ ms)

  unfoldable pub rollback_orders_by_trade_event :
      ℕ
      → MatchTransaction D
      → List (TradeSuccessEvent D)
      → List (TradeFailedEvent D)
      → Action (World D M T S) (List (Order D) × MatchTransaction D)
  unfolding rollback_orders announced_orders all_succ_items all_failed_items cancelling amounts_of
  rollback_orders_by_trade_event now tx succ failed =
      read (db.get_orders_by_hashes (map hash_of tx.match_result.match_items)) >>= λ orders.
      rollback_orders now tx out orders >>= λ ms. pure (announced_orders ms, with_items ms)
    where
      out : Outcome D
      out = record {
        succ_before = amounts_of tx.match_result.succ_items [];
        fail_before = amounts_of tx.match_result.failed_items [];
        succ = amounts_of (map item_of_success succ) [];
        fail = amounts_of (cancelling failed) [];
      }

      with_items : List (Moved D) → MatchTransaction D
      with_items ms = record tx {
        match_result = record {
          match_items = tx.match_result.match_items;
          succ_items = all_succ_items ms;
          failed_items = all_failed_items ms;
        };
      }

  -- `RollbackOrdersStatus` of match/match_result.go.
  unfoldable pub rollback_orders_status :
      ℕ
      → MatchTransaction D
      → TransactionStatus
      → String
      → String
      → ℕ
      → ℕ
      → List (TradeSuccessEvent D)
      → List (TradeFailedEvent D)
      → Action (World D M T S) (Unit {0})
  unfolding rollback_orders_by_trade_event transaction
  rollback_orders_status now tx status transaction_hash block_hash block_number block_time succ
        failed =
      transaction (do
        (orders, tx') ← rollback_orders_by_trade_event now stamped succ failed
        write (db.save_match tx')
        pure orders)
      >>= λ orders. notify (map (notice_of 0 "") orders)
    where
      stamped : MatchTransaction D
      stamped = if same_status tx.status status then tx else record tx {
        transaction_hash = some transaction_hash;
        block_hash = some block_hash;
        block_number = some block_number;
        executed_at = some block_time;
        status = status;
      }
