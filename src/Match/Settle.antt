-- ===== src/Match/Settle.antt =====
-- match/match_result.go: what becomes of the matched orders when their transaction is settled.
pub mod Balance
use mai3_broker.Base.{
  ℕ, String, List, [], ◌∷◌, ◌++◌, Dict, lookup, insert, Option, none, some, Bool, true, false, not,
  ◌||◌, ◌&&◌, ltb, ◌==◌, str_eq, map, if◌then◌else◌,
}
use mai3_broker.Decimal.{Decimal, zero, add, sub, equal}
use mai3_broker.Order.{Order, OrderCancelReason}
use mai3_broker.Order.CancelReason
use mai3_broker.Orderbook.Containers.{OrderedMap, PriceTree}
use mai3_broker.Orderbook.Level.{MemoryOrder, PriceLevel}
use mai3_broker.Match.World.{
  World, Database, Action, MatchItem, MatchResult, MatchTransaction, TransactionStatus, Notice,
  read, write, transaction, update_order, notify, pure, ◌>>=◌, ◌>>◌,
}
use mai3_broker.Match.Memory.{rollback_orderbook}

abbrev pub trigger_price_not_reach : String
trigger_price_not_reach = "trigger price is not reached"

abbrev pub price_exceeds_limit : String
price_exceeds_limit = "price exceeds limit"

-- common/model/chain.go, the fields that the engine reads.
pub record TradeSuccessEvent (D : Type 0) : Type 0 where
  pub order_hash : String
  pub amount : D

pub record TradeFailedEvent (D : Type 0) : Type 0 where
  pub order_hash : String
  pub amount : D
  pub reason : String

module _ {D : Type 0} where
  abbrev pub item_of_success : TradeSuccessEvent D → MatchItem D
  item_of_success e = record { order_hash = e.order_hash; amount = e.amount }

  -- The events that cancel: those that failed for another reason than the price.
  unfoldable pub cancelling : List (TradeFailedEvent D) → List (MatchItem D)
  cancelling [] = []
  cancelling (e ∷ es) =
      if str_eq e.reason trigger_price_not_reach || str_eq e.reason price_exceeds_limit
      then cancelling es
      else record { order_hash = e.order_hash; amount = e.amount } ∷ cancelling es

  -- `m[item.OrderHash] = item.Amount` for each item in turn.
  unfoldable pub amounts_of : List (MatchItem D) → Dict D → Dict D
  amounts_of [] m = m
  amounts_of (i ∷ is) m = amounts_of is (insert i.order_hash i.amount m)

  abbrev pub hash_of : MatchItem D → String
  hash_of i = i.order_hash

  -- A missing key reads as the zero value.
  abbrev pub amount_at : ⦃dec : Decimal D⦄ → String → Dict D → D
  amount_at h m = elim (lookup h m) [ none ↦ zero | some a ↦ a ]

  abbrev pub record_items :
      List (TradeSuccessEvent D)
      → List (TradeFailedEvent D)
      → MatchTransaction D
      → MatchTransaction D
  record_items succ failed tx = record tx {
    match_result = record result {
      succ_items = result.succ_items ++ map item_of_success succ;
      failed_items = result.failed_items ++ cancelling failed;
    };
  }
    where
      result : MatchResult D
      result = tx.match_result

  abbrev pub notice_of : ℕ → String → Order D → Notice D
  notice_of block_number transaction_hash o = record {
    order = o;
    block_number = block_number;
    transaction_hash = transaction_hash;
  }

abbrev pub is_success : TransactionStatus → Bool
is_success TransactionStatus.success = true
is_success _ = false

abbrev pub is_fail : TransactionStatus → Bool
is_fail TransactionStatus.fail = true
is_fail _ = false

abbrev pub status_code : TransactionStatus → ℕ
status_code TransactionStatus.init = 0
status_code TransactionStatus.pending = 1
status_code TransactionStatus.success = 2
status_code TransactionStatus.fail = 3
status_code TransactionStatus.abort = 4

abbrev pub same_status : TransactionStatus → TransactionStatus → Bool
same_status s t = status_code s == status_code t

abbrev pub text_or_empty : Option String → String
text_or_empty none = ""
text_or_empty (some s) = s

abbrev pub time_or_zero : Option ℕ → ℕ
time_or_zero none = 0
time_or_zero (some t) = t

-- The reason that both settling and rolling back write on an order that failed on the chain.
unfoldable pub fail_reason : {D : Type 0} → MatchTransaction D → D → OrderCancelReason D
fail_reason tx amount = record {
  reason = CancelReason.transaction_fail;
  amount = amount;
  canceled_at = time_or_zero tx.executed_at;
  transaction_hash = text_or_empty tx.transaction_hash;
}

module _ {D M T S : Type 0} ⦃dec : Decimal D⦄ ⦃om : OrderedMap M (MemoryOrder D)⦄
    ⦃pt : PriceTree T D (PriceLevel D M)⦄ ⦃db : Database S D⦄ where
  -- An order that traded `amount` of the `match_amount` that was sent. The rest goes back.
  unfoldable pub settle_success : ℕ → D → D → Order D → Action (World D M T S) (Order D)
  settle_success now match_amount amount order = do
    order' ←
        (if equal amount match_amount
          then pure order
          else (rollback_orderbook order.available_amount rest back >> pure back))
    update_order now (record order' {
      pending_amount = sub order'.pending_amount match_amount;
      confirmed_amount = add order'.confirmed_amount amount;
    })
    where
      rest : D
      rest = sub match_amount amount

      back : Order D
      back = record order { available_amount = add order.available_amount rest }

  -- An order that failed on the chain is canceled.
  unfoldable pub settle_failed :
      ℕ → MatchTransaction D → D → Order D → Action (World D M T S) (Order D)
  unfolding fail_reason
  settle_failed now tx amount order = update_order now (record order {
    pending_amount = sub order.pending_amount amount;
    canceled_amount = add order.canceled_amount amount;
    cancel_reasons = order.cancel_reasons ++ fail_reason tx amount ∷ [];
  })

  -- An order that was not executed goes back to the book.
  unfoldable pub settle_reload : ℕ → D → Order D → Action (World D M T S) (Order D)
  settle_reload now match_amount order = do
    order' ← update_order now (record order {
      pending_amount = sub order.pending_amount match_amount;
      available_amount = add order.available_amount match_amount;
    })
    rollback_orderbook order.available_amount match_amount order'
    pure order'

  unfoldable pub settle_order :
      ℕ → MatchTransaction D → Dict D → Dict D → Dict D → Order D → Action (World D M T S) (Order D)
  settle_order now tx succ failed matched order = elim (lookup order.order_hash succ) [
    | some amount ↦ settle_success now (amount_at order.order_hash matched) amount order
    | none ↦ elim (lookup order.order_hash failed) [
      | some amount ↦ settle_failed now tx amount order
      | none ↦ settle_reload now (amount_at order.order_hash matched) order
    ]
  ]

  unfoldable pub settle_orders :
      ℕ
      → MatchTransaction D
      → Dict D
      → Dict D
      → Dict D
      → List (Order D)
      → Action (World D M T S) (List (Order D))
  settle_orders now tx succ failed matched [] = pure []
  settle_orders now tx succ failed matched (o ∷ os) =
      settle_order now tx succ failed matched o >>= λ o'.
      settle_orders now tx succ failed matched os >>= λ os'. pure (o' ∷ os')

  unfoldable pub update_orders_by_trade_event :
      ℕ
      → MatchTransaction D
      → List (TradeSuccessEvent D)
      → List (TradeFailedEvent D)
      → Action (World D M T S) (List (Order D) × MatchTransaction D)
  unfolding settle_orders amounts_of cancelling
  update_orders_by_trade_event now tx succ failed =
      read (db.get_orders_by_hashes (map hash_of tx.match_result.match_items)) >>= λ orders.
      settle_orders now tx' succ_map fail_map match_map orders >>= λ orders'. pure (orders', tx')
    where
      ran : Bool
      ran = is_success tx.status

      tx' : MatchTransaction D
      tx' = if ran then record_items succ failed tx else tx

      succ_map : Dict D
      succ_map = if ran then amounts_of (map item_of_success succ) [] else []

      fail_map : Dict D
      fail_map = if ran then amounts_of (cancelling failed) [] else []

      match_map : Dict D
      match_map = amounts_of tx.match_result.match_items []

  -- What `UpdateOrdersStatus` of match/match_result.go does in its transaction.
  unfoldable pub update_in_transaction :
      ℕ
      → String
      → TransactionStatus
      → String
      → String
      → ℕ
      → ℕ
      → List (TradeSuccessEvent D)
      → List (TradeFailedEvent D)
      → Action (World D M T S) (List (Order D))
  unfolding update_orders_by_trade_event
  update_in_transaction now tx_id status transaction_hash block_hash block_number block_time succ
        failed =
      do
        tx ← read (db.get_match tx_id)
        (orders, tx') ← update_orders_by_trade_event now (stamp tx) succ failed
        write (db.save_match tx')
        pure orders
    where
      stamp : MatchTransaction D → MatchTransaction D
      stamp tx =
          if (is_fail status || is_success status) && ltb 0 block_number
          then record tx {
            block_confirmed = true;
            status = status;
            transaction_hash = some transaction_hash;
            block_hash = some block_hash;
            block_number = some block_number;
            executed_at = some block_time;
          }
          else record tx { block_confirmed = true; status = status }

  unfoldable pub update_orders_status :
      ℕ
      → String
      → TransactionStatus
      → String
      → String
      → ℕ
      → ℕ
      → List (TradeSuccessEvent D)
      → List (TradeFailedEvent D)
      → Action (World D M T S) (Unit {0})
  unfolding update_in_transaction transaction
  update_orders_status now tx_id status transaction_hash block_hash block_number block_time succ
        failed =
      transaction (
        update_in_transaction now tx_id status transaction_hash block_hash block_number block_time
          succ failed)
      >>= λ orders. notify (map (notice_of block_number transaction_hash) orders)
