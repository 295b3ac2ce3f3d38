-- ===== src/Match/Invariant/Reachable.antt =====
-- The book of an engine over all its runs.
use mai3_broker.Base.{ℕ, ◌≡◌}
use mai3_broker.Decimal.{Decimal}
use mai3_broker.Orderbook.Containers.{OrderedMap, PriceTree}
use mai3_broker.Orderbook.Level.{MemoryOrder, PriceLevel}
use mai3_broker.Orderbook.Book
use mai3_broker.Orderbook.Book.Consistency.{IsBook, new_orderbook-IsBook}
use mai3_broker.Match.World.{World, Database}
use mai3_broker.Match.Execute.{reload_active_orders}
use mai3_broker.Match.NewOrder.{insert_body}
use mai3_broker.Match.Invariant.{
  Step, Reach, inserts, cancels, executes, settles, undoes, elsewhere, start, then,
}
use mai3_broker.Match.Invariant.Keeps.{transaction-KeepsBook}
use mai3_broker.Match.Invariant.Settling.{update_orders_status-KeepsBook}
use mai3_broker.Match.Invariant.Undoing.{rollback_orders_status-KeepsBook}
use mai3_broker.Match.Invariant.Handling.{
  cancel_order_without_lock-KeepsBook, execute_matches-KeepsBook, insert_body-KeepsBook,
  reload_active_orders-KeepsBook,
}

module _ {D M T S : Type 0} ⦃dec : Decimal D⦄ ⦃om : OrderedMap M (MemoryOrder D)⦄
    ⦃pt : PriceTree T D (PriceLevel D M)⦄ ⦃db : Database S D⦄ where
  Step-IsBook : {w v : World D M T S} → Step w v → IsBook w.orderbook → IsBook v.orderbook
  Step-IsBook (inserts now o {w}) b =
      transaction-KeepsBook (insert_body now o) (insert_body-KeepsBook now o) w b
  Step-IsBook (cancels now h reason all a {w}) b =
      cancel_order_without_lock-KeepsBook now h reason all a w b
  Step-IsBook (executes now perpetual broker id is {w}) b =
      execute_matches-KeepsBook now perpetual broker id is w b
  Step-IsBook (settles now tx_id status th bh bn bt succ failed {w}) b =
      update_orders_status-KeepsBook now tx_id status th bh bn bt succ failed w b
  Step-IsBook (undoes now tx status th bh bn bt succ failed {w}) b =
      rollback_orders_status-KeepsBook now tx status th bh bn bt succ failed w b
  Step-IsBook (elsewhere s {w}) b = b

  Reach-IsBook : {w v : World D M T S} → Reach w v → IsBook w.orderbook → IsBook v.orderbook
  Reach-IsBook start b = b
  Reach-IsBook (then r s) b = Step-IsBook s (Reach-IsBook r b)

  -- An engine starts with a fresh book into which the pending orders are loaded. Whatever calls of
  -- its handlers follow, in whichever order, whether they succeed or fail, and whatever else happens
  -- to the database, its book is well formed: each level is sound and not empty, and the map of
  -- prices holds just the prices of the levels.
  pub engine-IsBook :
      (now : ℕ) (w v : World D M T S)
      → w.orderbook ≡ Book.new_orderbook
      → Reach (reload_active_orders now w).1 v
      → IsBook v.orderbook
  engine-IsBook now w v fresh r =
      Reach-IsBook r (reload_active_orders-KeepsBook now w (new_orderbook-IsBook w.orderbook fresh))
