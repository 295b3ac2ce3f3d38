-- ===== src/Match/Invariant/Settling.antt =====
-- The book under settling.
use mai3_broker.Base.{
  ℕ, String, List, [], ◌∷◌, ◌++◌, map, Dict, lookup, Option, none, some, Bool, true, false, ltb,
  ◌&&◌, ◌||◌, if◌then◌else◌,
}
use mai3_broker.Decimal.{Decimal, add, sub, equal}
use mai3_broker.Order.{Order}
use mai3_broker.Orderbook.Containers.{OrderedMap, PriceTree}
use mai3_broker.Orderbook.Level.{MemoryOrder, PriceLevel}
use mai3_broker.Orderbook.Book.Consistency.{IsBook}
use mai3_broker.Match.World.{
  World, Database, Action, MatchTransaction, TransactionStatus, read, write, notify, transaction,
  update_order, pure, ◌>>=◌, ◌>>◌,
}
use mai3_broker.Match.Memory.{rollback_orderbook}
use mai3_broker.Match.Settle.{
  TradeSuccessEvent, TradeFailedEvent, settle_success, settle_failed, settle_reload, settle_order,
  settle_orders, amount_at, fail_reason, hash_of, amounts_of, cancelling, item_of_success,
  record_items, is_success, is_fail, notice_of, update_orders_by_trade_event, update_in_transaction,
  update_orders_status,
}
use mai3_broker.Match.Invariant.Keeps.{
  KeepsBook, >>=-KeepsBook, pure-KeepsBook, read-KeepsBook, write-KeepsBook, notify-KeepsBook,
  rollback_orderbook-KeepsBook, update_order-KeepsBook, transaction-KeepsBook,
}

module _ {D M T S : Type 0} ⦃dec : Decimal D⦄ ⦃om : OrderedMap M (MemoryOrder D)⦄
    ⦃pt : PriceTree T D (PriceLevel D M)⦄ ⦃db : Database S D⦄ where
  settle_success-KeepsBook :
      (now : ℕ) (m t : D) (o : Order D)
      → KeepsBook {M = M} {T = T} {S = S} (settle_success now m t o)
  unfolding settle_success
  settle_success-KeepsBook now m t o =
      >>=-KeepsBook (first (equal t m)) saved (first-KeepsBook (equal t m))
        (λ o'. update_order-KeepsBook now (settled o'))
    where
      back : Order D
      back = record o { available_amount = add o.available_amount (sub m t) }

      first : Bool → Action (World D M T S) (Order D)
      first b =
          if b then pure o else (rollback_orderbook o.available_amount (sub m t) back >> pure back)

      settled : Order D → Order D
      settled o' = record o' {
        pending_amount = sub o'.pending_amount m;
        confirmed_amount = add o'.confirmed_amount t;
      }

      saved : Order D → Action (World D M T S) (Order D)
      saved o' = update_order now (settled o')

      first-KeepsBook : (b : Bool) → KeepsBook (first b)
      first-KeepsBook true w v = v
      first-KeepsBook false w v =
          >>=-KeepsBook (rollback_orderbook o.available_amount (sub m t) back) (λ _. pure back)
            (rollback_orderbook-KeepsBook o.available_amount (sub m t) back)
            (λ _. pure-KeepsBook back) w v

  settle_failed-KeepsBook :
      (now : ℕ) (tx : MatchTransaction D) (t : D) (o : Order D)
      → KeepsBook {M = M} {T = T} {S = S} (settle_failed now tx t o)
  unfolding settle_failed
  settle_failed-KeepsBook now tx t o = update_order-KeepsBook now (record o {
    pending_amount = sub o.pending_amount t;
    canceled_amount = add o.canceled_amount t;
    cancel_reasons = o.cancel_reasons ++ fail_reason tx t ∷ [];
  })

  settle_reload-KeepsBook :
      (now : ℕ) (m : D) (o : Order D) → KeepsBook {M = M} {T = T} {S = S} (settle_reload now m o)
  unfolding settle_reload
  settle_reload-KeepsBook now m o =
      let x : Order D = record o {
        pending_amount = sub o.pending_amount m;
        available_amount = add o.available_amount m;
      } in
      >>=-KeepsBook (update_order now x)
        (λ o'. rollback_orderbook o.available_amount m o' >> pure o') (update_order-KeepsBook now x)
        (λ o'.
          >>=-KeepsBook (rollback_orderbook o.available_amount m o') (λ _. pure o')
            (rollback_orderbook-KeepsBook o.available_amount m o') (λ _. pure-KeepsBook o'))

  settle_order-KeepsBook :
      (now : ℕ) (tx : MatchTransaction D) (succ failed matched : Dict D) (o : Order D)
      → KeepsBook {M = M} {T = T} {S = S} (settle_order now tx succ failed matched o)
  unfolding settle_order
  settle_order-KeepsBook now tx succ failed matched o w v =
      done (lookup o.order_hash succ) (lookup o.order_hash failed)
    where
      x : D
      x = amount_at o.order_hash matched

      step : Option D → Option D → Action (World D M T S) (Order D)
      step s f = elim s [
        | some amount ↦ settle_success now x amount o
        | none ↦ elim f [
          | some amount ↦ settle_failed now tx amount o
          | none ↦ settle_reload now x o
        ]
      ]

      done : (s f : Option D) → IsBook (step s f w).1.orderbook
      done (some t) f = settle_success-KeepsBook now x t o w v
      done none (some t) = settle_failed-KeepsBook now tx t o w v
      done none none = settle_reload-KeepsBook now x o w v

  settle_orders-KeepsBook :
      (now : ℕ) (tx : MatchTransaction D) (succ failed matched : Dict D) (os : List (Order D))
      → KeepsBook {M = M} {T = T} {S = S} (settle_orders now tx succ failed matched os)
  unfolding settle_orders
  settle_orders-KeepsBook now tx succ failed matched [] w v = v
  settle_orders-KeepsBook now tx succ failed matched (o ∷ os) w v =
      >>=-KeepsBook (settle_order now tx succ failed matched o)
        (λ o'. settle_orders now tx succ failed matched os >>= λ os'. pure (o' ∷ os'))
        (settle_order-KeepsBook now tx succ failed matched o)
        (λ o'.
          >>=-KeepsBook (settle_orders now tx succ failed matched os) (λ os'. pure (o' ∷ os'))
            (settle_orders-KeepsBook now tx succ failed matched os)
            (λ os'. pure-KeepsBook (o' ∷ os')))
        w v

  update_orders_by_trade_event-KeepsBook :
      (now : ℕ) (tx : MatchTransaction D) (succ : List (TradeSuccessEvent D))
      (failed : List (TradeFailedEvent D))
      → KeepsBook {M = M} {T = T} {S = S} (update_orders_by_trade_event now tx succ failed)
  unfolding update_orders_by_trade_event
  update_orders_by_trade_event-KeepsBook now tx succ failed =
      >>=-KeepsBook (read rows) (λ os. settling os >>= λ os'. pure (os', tx')) (read-KeepsBook rows)
        (λ os.
          >>=-KeepsBook (settling os) (λ os'. pure (os', tx'))
            (settle_orders-KeepsBook now tx' succ_map fail_map match_map os)
            (λ os'. pure-KeepsBook {A = List (Order D) × MatchTransaction D} (os', tx')))
    where
      rows : S → Option (List (Order D))
      rows = db.get_orders_by_hashes (map hash_of tx.match_result.match_items)

      ran : Bool
      ran = is_success tx.status

      tx' : MatchTransaction D
      tx' = if ran then record_items succ failed tx else tx

      succ_map : Dict D
      succ_map = if ran then amounts_of (map item_of_success succ) [] else []

      fail_map : Dict D
      fail_map = if ran then amounts_of (cancelling failed) [] else []

      match_map : Dict D
      match_map = amounts_of tx.match_result.match_items []

      settling : List (Order D) → Action (World D M T S) (List (Order D))
      settling os = settle_orders now tx' succ_map fail_map match_map os

  update_in_transaction-KeepsBook :
      (now : ℕ) (tx_id : String) (status : TransactionStatus) (transaction_hash block_hash : String)
      (block_number block_time : ℕ) (succ : List (TradeSuccessEvent D))
      (failed : List (TradeFailedEvent D))
      → KeepsBook {M = M} {T = T} {S = S} (
          update_in_transaction now tx_id status transaction_hash block_hash block_number block_time
            succ failed)
  unfolding update_in_transaction
  update_in_transaction-KeepsBook now tx_id status transaction_hash block_hash block_number
        block_time succ failed =
      >>=-KeepsBook (read (db.get_match tx_id)) (λ tx. updating (stamp tx) >>= saving)
        (read-KeepsBook (db.get_match tx_id))
        (λ tx.
          >>=-KeepsBook (updating (stamp tx)) saving
            (update_orders_by_trade_event-KeepsBook now (stamp tx) succ failed)
            (λ r.
              >>=-KeepsBook (write (db.save_match r.1)) (λ _. pure r.0)
                (write-KeepsBook (db.save_match r.1)) (λ _. pure-KeepsBook r.0)))
    where
      stamp : MatchTransaction D → MatchTransaction D
      stamp tx =
          if (is_fail status || is_success status) && ltb 0 block_number
          then record tx {
            block_confirmed = true;
            status = status;
            transaction_hash = some transaction_hash;
            block_hash = some block_hash;
            block_number = some block_number;
            executed_at = some block_time;
          }
          else record tx { block_confirmed = true; status = status }

      updating : MatchTransaction D → Action (World D M T S) (List (Order D) × MatchTransaction D)
      updating tx = update_orders_by_trade_event now tx succ failed

      saving : List (Order D) × MatchTransaction D → Action (World D M T S) (List (Order D))
      saving r = write (db.save_match r.1) >> pure r.0

  pub update_orders_status-KeepsBook :
      (now : ℕ) (tx_id : String) (status : TransactionStatus) (transaction_hash block_hash : String)
      (block_number block_time : ℕ) (succ : List (TradeSuccessEvent D))
      (failed : List (TradeFailedEvent D))
      → KeepsBook {M = M} {T = T} {S = S} (
          update_orders_status now tx_id status transaction_hash block_hash block_number block_time
            succ failed)
  unfolding update_orders_status
  update_orders_status-KeepsBook now tx_id status transaction_hash block_hash block_number
        block_time succ failed =
      let body =
        update_in_transaction now tx_id status transaction_hash block_hash block_number block_time
          succ failed in
      >>=-KeepsBook (transaction body)
        (λ orders. notify (map (notice_of block_number transaction_hash) orders))
        (transaction-KeepsBook body (
          update_in_transaction-KeepsBook now tx_id status transaction_hash block_hash block_number
            block_time succ failed))
        (λ orders. notify-KeepsBook (map (notice_of block_number transaction_hash) orders))
