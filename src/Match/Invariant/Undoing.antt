-- ===== src/Match/Invariant/Undoing.antt =====
-- The book under the rollback after a fork.
use mai3_broker.Base.{
  ℕ, String, List, [], ◌∷◌, ◌++◌, map, lookup, Option, none, some, is_some, Bool, true, false,
  if◌then◌else◌,
}
use mai3_broker.Decimal.{Decimal, add, sub, neg, abs, greater_than_or_equal}
use mai3_broker.Order.{Order}
use mai3_broker.Orderbook.Containers.{OrderedMap, PriceTree}
use mai3_broker.Orderbook.Level.{MemoryOrder, PriceLevel}
use mai3_broker.Orderbook.Book.Consistency.{IsBook}
use mai3_broker.Match.World.{
  World, Database, Action, MatchTransaction, TransactionStatus, read, write, notify, transaction,
  update_order, pure, ◌>>=◌, ◌>>◌,
}
use mai3_broker.Match.Memory.{rollback_orderbook}
use mai3_broker.Match.Settle.{
  TradeSuccessEvent, TradeFailedEvent, fail_reason, hash_of, amounts_of, cancelling,
  item_of_success, notice_of, text_or_empty, same_status,
}
use mai3_broker.Match.Rollback.{
  Outcome, Moved, unmoved, item, drop_reasons, announced_orders, all_succ_items, all_failed_items,
  save_and_reload, success_to_fail, success_to_book, fail_to_success, fail_to_book, book_to_success,
  book_to_fail, rollback_order, rollback_orders, rollback_orders_by_trade_event,
  rollback_orders_status,
}
use mai3_broker.Match.Invariant.Keeps.{
  KeepsBook, >>=-KeepsBook, pure-KeepsBook, read-KeepsBook, write-KeepsBook, notify-KeepsBook,
  rollback_orderbook-KeepsBook, update_order-KeepsBook, transaction-KeepsBook,
}

module _ {D M T S : Type 0} ⦃dec : Decimal D⦄ ⦃om : OrderedMap M (MemoryOrder D)⦄
    ⦃pt : PriceTree T D (PriceLevel D M)⦄ ⦃db : Database S D⦄ where
  save_and_reload-KeepsBook :
      (now : ℕ) (old delta : D) (o : Order D)
      → KeepsBook {M = M} {T = T} {S = S} (save_and_reload now old delta o)
  unfolding save_and_reload
  save_and_reload-KeepsBook now old delta o =
      >>=-KeepsBook (update_order now o) (λ o'. rollback_orderbook old delta o' >> pure o')
        (update_order-KeepsBook now o)
        (λ o'.
          >>=-KeepsBook (rollback_orderbook old delta o') (λ _. pure o')
            (rollback_orderbook-KeepsBook old delta o') (λ _. pure-KeepsBook o'))

  -- A move that writes the order, and one that changes the book as well.
  saved-KeepsBook :
      (now : ℕ) (o : Order D) (f : Order D → Moved D)
      → KeepsBook {M = M} {T = T} {S = S} (update_order now o >>= λ o'. pure (f o'))
  saved-KeepsBook now o f =
      >>=-KeepsBook (update_order now o) (λ o'. pure (f o')) (update_order-KeepsBook now o)
        (λ o'. pure-KeepsBook (f o'))

  reloaded-KeepsBook :
      (now : ℕ) (old delta : D) (o : Order D) (f : Order D → Moved D)
      → KeepsBook {M = M} {T = T} {S = S} (save_and_reload now old delta o >>= λ o'. pure (f o'))
  reloaded-KeepsBook now old delta o f =
      >>=-KeepsBook (save_and_reload now old delta o) (λ o'. pure (f o'))
        (save_and_reload-KeepsBook now old delta o) (λ o'. pure-KeepsBook (f o'))

  -- Where the book has too little left, nothing is moved.
  guarded-KeepsBook :
      (b : Bool) (f : Action (World D M T S) (Moved D)) (m : Moved D)
      → KeepsBook f
      → KeepsBook (if b then f else pure m)
  guarded-KeepsBook true f m k = k
  guarded-KeepsBook false f m k = pure-KeepsBook m

  rollback_order-KeepsBook :
      (now : ℕ) (tx : MatchTransaction D) (out : Outcome D) (o : Order D)
      → KeepsBook {M = M} {T = T} {S = S} (rollback_order now tx out o)
  unfolding rollback_order success_to_fail success_to_book fail_to_success fail_to_book
      book_to_success book_to_fail
  rollback_order-KeepsBook now tx out o w v =
      done (lookup o.order_hash out.succ_before) (lookup o.order_hash out.fail_before)
        (lookup o.order_hash out.succ) (lookup o.order_hash out.fail)
    where
      step : Option D → Option D → Option D → Option D → Action (World D M T S) (Moved D)
      step sb fb s f = elim sb [
        | some amount ↦
            if is_some s
            then pure (record (unmoved o) { succ_items = item o amount })
            else if is_some f
            then success_to_fail now tx amount o
            else success_to_book now amount o
        | none ↦ elim fb [
          | some amount ↦
              if is_some s
              then fail_to_success now tx amount o
              else if is_some f
              then pure (record (unmoved o) { failed_items = item o amount })
              else fail_to_book now tx amount o
          | none ↦ elim s [
            | some amount ↦ book_to_success now amount o
            | none ↦ elim f [ some amount ↦ book_to_fail now tx amount o | none ↦ pure (unmoved o) ]
          ]
        ]
      ]

      to_fail : D → Order D
      to_fail a = record o {
        confirmed_amount = sub o.confirmed_amount a;
        canceled_amount = add o.canceled_amount a;
        cancel_reasons = o.cancel_reasons ++ fail_reason tx a ∷ [];
      }

      to_book : D → Order D
      to_book a = record o {
        confirmed_amount = sub o.confirmed_amount a;
        available_amount = add o.available_amount a;
      }

      to_success : D → Order D
      to_success a = record o {
        confirmed_amount = add o.confirmed_amount a;
        canceled_amount = sub o.canceled_amount a;
        cancel_reasons = drop_reasons (text_or_empty tx.transaction_hash) o.cancel_reasons;
      }

      from_fail : D → Order D
      from_fail a = record o {
        canceled_amount = sub o.canceled_amount a;
        available_amount = add o.available_amount a;
        cancel_reasons = drop_reasons (text_or_empty tx.transaction_hash) o.cancel_reasons;
      }

      sold : D → Order D
      sold a = record o {
        confirmed_amount = add o.confirmed_amount a;
        available_amount = sub o.available_amount a;
      }

      lost : D → Order D
      lost a = record o {
        canceled_amount = add o.canceled_amount a;
        available_amount = sub o.available_amount a;
        cancel_reasons = o.cancel_reasons ++ fail_reason tx a ∷ [];
      }

      done : (sb fb s f : Option D) → IsBook (step sb fb s f w).1.orderbook
      done (some a) fb (some t) f = v
      done (some a) fb none (some t) =
          saved-KeepsBook now (to_fail a) (λ o'. record (unmoved o') { failed_items = item o a }) w
            v
      done (some a) fb none none =
          reloaded-KeepsBook now o.available_amount a (to_book a)
            (λ o'. record (unmoved o') { announced = true }) w v
      done none (some a) (some t) f =
          saved-KeepsBook now (to_success a) (λ o'. record (unmoved o') { succ_items = item o a }) w
            v
      done none (some a) none (some t) = v
      done none (some a) none none =
          reloaded-KeepsBook now o.available_amount a (from_fail a)
            (λ o'. record (unmoved o') { announced = true }) w v
      done none none (some a) f =
          guarded-KeepsBook (greater_than_or_equal (abs o.available_amount) (abs a))
            (save_and_reload now o.available_amount (neg a) (sold a) >>= λ o'.
              pure (record (unmoved o') { succ_items = item o a; announced = true }))
            (unmoved o)
            (reloaded-KeepsBook now o.available_amount (neg a) (sold a)
              (λ o'. record (unmoved o') { succ_items = item o a; announced = true }))
            w v
      done none none none (some a) =
          guarded-KeepsBook (greater_than_or_equal (abs o.available_amount) (abs a))
            (save_and_reload now o.available_amount (neg a) (lost a) >>= λ o'.
              pure (record (unmoved o') { failed_items = item o a; announced = true }))
            (unmoved o)
            (reloaded-KeepsBook now o.available_amount (neg a) (lost a)
              (λ o'. record (unmoved o') { failed_items = item o a; announced = true }))
            w v
      done none none none none = v

  rollback_orders-KeepsBook :
      (now : ℕ) (tx : MatchTransaction D) (out : Outcome D) (os : List (Order D))
      → KeepsBook {M = M} {T = T} {S = S} (rollback_orders now tx out os)
  unfolding rollback_orders
  rollback_orders-KeepsBook now tx out [] w v = v
  rollback_orders-KeepsBook now tx out (o ∷ os) w v =
      >>=-KeepsBook (rollback_order now tx out o)
        (λ m. rollback_orders now tx out os >>= λ ms. pure (m ∷ ms))
        (rollback_order-KeepsBook now tx out o)
        (λ m.
          >>=-KeepsBook (rollback_orders now tx out os) (λ ms. pure (m ∷ ms))
            (rollback_orders-KeepsBook now tx out os) (λ ms. pure-KeepsBook (m ∷ ms)))
        w v

  rollback_orders_by_trade_event-KeepsBook :
      (now : ℕ) (tx : MatchTransaction D) (succ : List (TradeSuccessEvent D))
      (failed : List (TradeFailedEvent D))
      → KeepsBook {M = M} {T = T} {S = S} (rollback_orders_by_trade_event now tx succ failed)
  unfolding rollback_orders_by_trade_event
  rollback_orders_by_trade_event-KeepsBook now tx succ failed =
      >>=-KeepsBook (read rows) (λ os. rollback_orders now tx out os >>= λ ms. pure (given ms))
        (read-KeepsBook rows)
        (λ os.
          >>=-KeepsBook (rollback_orders now tx out os) (λ ms. pure (given ms))
            (rollback_orders-KeepsBook now tx out os) (λ ms. pure-KeepsBook (given ms)))
    where
      rows : S → Option (List (Order D))
      rows = db.get_orders_by_hashes (map hash_of tx.match_result.match_items)

      out : Outcome D
      out = record {
        succ_before = amounts_of tx.match_result.succ_items [];
        fail_before = amounts_of tx.match_result.failed_items [];
        succ = amounts_of (map item_of_success succ) [];
        fail = amounts_of (cancelling failed) [];
      }

      given : List (Moved D) → List (Order D) × MatchTransaction D
      given ms = (
        announced_orders ms,
        record tx {
          match_result = record {
            match_items = tx.match_result.match_items;
            succ_items = all_succ_items ms;
            failed_items = all_failed_items ms;
          };
        },
      )

  pub rollback_orders_status-KeepsBook :
      (now : ℕ) (tx : MatchTransaction D) (status : TransactionStatus)
      (transaction_hash block_hash : String) (block_number block_time : ℕ)
      (succ : List (TradeSuccessEvent D)) (failed : List (TradeFailedEvent D))
      → KeepsBook {M = M} {T = T} {S = S} (
          rollback_orders_status now tx status transaction_hash block_hash block_number block_time
            succ failed)
  unfolding rollback_orders_status
  rollback_orders_status-KeepsBook now tx status transaction_hash block_hash block_number block_time
        succ failed =
      >>=-KeepsBook (transaction (undoing >>= saving))
        (λ orders. notify (map (notice_of 0 "") orders))
        (transaction-KeepsBook (undoing >>= saving) (
          >>=-KeepsBook undoing saving
            (rollback_orders_by_trade_event-KeepsBook now stamped succ failed)
            (λ r.
              >>=-KeepsBook (write (db.save_match r.1)) (λ _. pure r.0)
                (write-KeepsBook (db.save_match r.1)) (λ _. pure-KeepsBook r.0))))
        (λ orders. notify-KeepsBook (map (notice_of 0 "") orders))
    where
      stamped : MatchTransaction D
      stamped = if same_status tx.status status then tx else record tx {
        transaction_hash = some transaction_hash;
        block_hash = some block_hash;
        block_number = some block_number;
        executed_at = some block_time;
        status = status;
      }

      undoing : Action (World D M T S) (List (Order D) × MatchTransaction D)
      undoing = rollback_orders_by_trade_event now stamped succ failed

      saving : List (Order D) × MatchTransaction D → Action (World D M T S) (List (Order D))
      saving r = write (db.save_match r.1) >> pure r.0
