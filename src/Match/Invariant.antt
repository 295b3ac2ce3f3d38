-- ===== src/Match/Invariant.antt =====
-- The engine of a perpetual as a machine: its steps are the calls of its handlers, by other parts of
-- the program, by timers and by the matching loop, in any order; a call may fail.
pub mod Keeps
pub mod Settling
pub mod Undoing
pub mod Handling
pub mod Reachable
use mai3_broker.Base.{ℕ, String, List, Bool}
use mai3_broker.Decimal.{Decimal}
use mai3_broker.Order.{Order}
use mai3_broker.Orderbook.Containers.{OrderedMap, PriceTree}
use mai3_broker.Orderbook.Level.{MemoryOrder, PriceLevel}
use mai3_broker.Match.World.{World, Database, MatchTransaction, TransactionStatus, transaction}
use mai3_broker.Match.Settle.{TradeSuccessEvent, TradeFailedEvent, update_orders_status}
use mai3_broker.Match.Rollback.{rollback_orders_status}
use mai3_broker.Match.Cancel.{cancel_order_without_lock}
use mai3_broker.Match.Chain.{Perpetual}
use mai3_broker.Match.Item.{MatchItem}
use mai3_broker.Match.Execute.{execute_matches}
use mai3_broker.Match.NewOrder.{insert_body}

module _ {D M T S : Type 0} ⦃dec : Decimal D⦄ ⦃om : OrderedMap M (MemoryOrder D)⦄
    ⦃pt : PriceTree T D (PriceLevel D M)⦄ ⦃db : Database S D⦄ where
  -- What each handler makes of the world. `inserts` is the end of `new_order`, whose checks leave
  -- the world; `executes` is the end of a round of the matching, whose walk does.
  pub data Step : World D M T S → World D M T S → Type 0 where
    inserts :
        (now : ℕ) (o : Order D) {w : World D M T S} → Step w (transaction (insert_body now o) w).1
    cancels :
        (now : ℕ) (h reason : String) (all : Bool) (amount : D) {w : World D M T S}
        → Step w (cancel_order_without_lock now h reason all amount w).1
    executes :
        (now : ℕ) (perpetual : Perpetual) (broker id : String) (items : List (MatchItem D))
        {w : World D M T S}
        → Step w (execute_matches now perpetual broker id items w).1
    settles :
        (now : ℕ) (tx_id : String) (status : TransactionStatus)
        (transaction_hash block_hash : String) (block_number block_time : ℕ)
        (succ : List (TradeSuccessEvent D)) (failed : List (TradeFailedEvent D)) {w : World D M T S}
        → Step w
            (update_orders_status now tx_id status transaction_hash block_hash block_number
              block_time succ failed w).1
    undoes :
        (now : ℕ) (tx : MatchTransaction D) (status : TransactionStatus)
        (transaction_hash block_hash : String) (block_number block_time : ℕ)
        (succ : List (TradeSuccessEvent D)) (failed : List (TradeFailedEvent D)) {w : World D M T S}
        → Step w
            (rollback_orders_status now tx status transaction_hash block_hash block_number
              block_time succ failed w).1
    -- Another process writes to the database.
    elsewhere : (s : S) {w : World D M T S} → Step w (record w { store = s })

  -- Any number of steps.
  pub data Reach (w : World D M T S) : World D M T S → Type 0 where
    start : Reach w w
    then : {u v : World D M T S} → Reach w u → Step u v → Reach w v
