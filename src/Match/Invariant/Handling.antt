-- ===== src/Match/Invariant/Handling.antt =====
-- The book under cancelling, executing, inserting and loading.
use mai3_broker.Base.{
  ℕ, String, List, [], ◌∷◌, ◌++◌, insert, not, map, Option, none, some, Bool, true, false, ltb,
  Result, ok, err, if◌then◌else◌,
}
use mai3_broker.Decimal.{Decimal, add, sub, neg, is_zero, is_negative}
use mai3_broker.Amount.{has_the_same_sign}
use mai3_broker.Order
use mai3_broker.Order.{Order}
use mai3_broker.Orderbook.Containers.{OrderedMap, PriceTree}
use mai3_broker.Orderbook.Level.{MemoryOrder, PriceLevel}
use mai3_broker.Orderbook.Book
use mai3_broker.Orderbook.Book.{Book}
use mai3_broker.Orderbook.Book.Consistency.{IsBook}
use mai3_broker.Match.World.{
  World, Database, MatchError, Action, read, write, on_book, get_book, notify, transaction,
  update_order, create_order, fail_with, negative_available, pure, ◌>>=◌, ◌>>◌,
}
use mai3_broker.Match.Memory.{get_memory_order}
use mai3_broker.Match.Settle.{notice_of}
use mai3_broker.Match.Cancel.{
  Amounts, cancel_amounts, cancel_in_book, cancel_in_db, save_canceled, cancel_both, cancel_body,
  cancel_order_without_lock, delete_order_timer,
}
use mai3_broker.Match.Chain.{Perpetual}
use mai3_broker.Match.Item.{MatchItem}
use mai3_broker.Match.Execute.{
  save_matched, matched_order, execute_item, execute_items, change_items, sent_items,
  new_transaction, execute_body, execute_matches, set_expiration_timer, load_order, load_orders,
  reload_active_orders,
}
use mai3_broker.Match.NewOrder.{insert_body}
use mai3_broker.Match.Invariant.Keeps.{
  KeepsBook, >>=-KeepsBook, pure-KeepsBook, read-KeepsBook, write-KeepsBook, notify-KeepsBook,
  insert-KeepsBook, change-KeepsBook, update_order-KeepsBook, create_order-KeepsBook,
  transaction-KeepsBook,
}

module _ {D M T S : Type 0} ⦃dec : Decimal D⦄ ⦃om : OrderedMap M (MemoryOrder D)⦄
    ⦃pt : PriceTree T D (PriceLevel D M)⦄ ⦃db : Database S D⦄ where
  -- An action under a condition.
  either-KeepsBook :
      {A : Type 0} (b : Bool) (f g : Action (World D M T S) A)
      → KeepsBook f
      → KeepsBook g
      → KeepsBook (if b then f else g)
  either-KeepsBook true f g k l = k
  either-KeepsBook false f g k l = l

  cancel_in_book-KeepsBook :
      (m : Option (MemoryOrder D)) (a : D) → KeepsBook {M = M} {T = T} {S = S} (cancel_in_book m a)
  unfolding cancel_in_book
  cancel_in_book-KeepsBook none a w v = v
  cancel_in_book-KeepsBook (some m) a w v =
      either-KeepsBook (is_zero a) (pure tt) (on_book (λ b. Book.change_order b m (neg a)))
        (pure-KeepsBook tt) (change-KeepsBook m (neg a)) w v

  save_canceled-KeepsBook :
      (now : ℕ) (r : Result Order.CancelError (Order D))
      → KeepsBook {M = M} {T = T} {S = S} (save_canceled now r)
  unfolding save_canceled
  save_canceled-KeepsBook now (ok o) = update_order-KeepsBook now o
  save_canceled-KeepsBook now (err e) = λ w v. v

  cancel_in_db-KeepsBook :
      (now : ℕ) (o : Order D) (reason : String) (a : D)
      → KeepsBook {M = M} {T = T} {S = S} (cancel_in_db now o reason a)
  unfolding cancel_in_db
  cancel_in_db-KeepsBook now o reason a =
      either-KeepsBook (is_zero a) (pure o) (save_canceled now (Order.cancel_order now o reason a))
        (pure-KeepsBook o) (save_canceled-KeepsBook now (Order.cancel_order now o reason a))

  timer-KeepsBook : (h : String) → KeepsBook {D = D} {M = M} {T = T} {S = S} (delete_order_timer h)
  unfolding delete_order_timer
  timer-KeepsBook h w v = v

  cancel_both-KeepsBook :
      (now : ℕ) (h reason : String) (o : Order D) (found : Option (MemoryOrder D))
      (a : Option (Amounts D))
      → KeepsBook {M = M} {T = T} {S = S} (cancel_both now h reason o found a)
  unfolding cancel_both
  cancel_both-KeepsBook now h reason o found none w v = v
  cancel_both-KeepsBook now h reason o found (some a) w v =
      >>=-KeepsBook (cancel_in_book found a.book) (λ _. cancel_in_db now o reason a.db >>= ended)
        (cancel_in_book-KeepsBook found a.book)
        (λ _.
          >>=-KeepsBook (cancel_in_db now o reason a.db) ended
            (cancel_in_db-KeepsBook now o reason a.db)
            (λ o'.
              >>=-KeepsBook (delete_order_timer h) (λ _. pure (result o')) (timer-KeepsBook h)
                (λ _. pure-KeepsBook (result o'))))
        w v
    where
      result : Order D → Option (Order D)
      result o' = if is_zero a.db then none else some o'

      ended : Order D → Action (World D M T S) (Option (Order D))
      ended o' = delete_order_timer h >> pure (result o')

  cancel_body-KeepsBook :
      (now : ℕ) (h reason : String) (all : Bool) (a : D)
      → KeepsBook {M = M} {T = T} {S = S} (cancel_body now h reason all a)
  unfolding cancel_body
  cancel_body-KeepsBook now h reason all a =
      >>=-KeepsBook (read (db.get_order h)) (λ o. get_book >>= with_book o)
        (read-KeepsBook (db.get_order h))
        (λ o.
          >>=-KeepsBook get_book (with_book o) (λ w v. v)
            (λ b.
              cancel_both-KeepsBook now h reason o (found o b)
                (cancel_amounts o (found o b) all a)))
    where
      found : Order D → Book D M T → Option (MemoryOrder D)
      found o b = Book.get_order b h (is_negative o.amount) o.price

      with_book : Order D → Book D M T → Action (World D M T S) (Option (Order D))
      with_book o b = cancel_both now h reason o (found o b) (cancel_amounts o (found o b) all a)

  pub cancel_order_without_lock-KeepsBook :
      (now : ℕ) (h reason : String) (all : Bool) (a : D)
      → KeepsBook {M = M} {T = T} {S = S} (cancel_order_without_lock now h reason all a)
  unfolding cancel_order_without_lock
  cancel_order_without_lock-KeepsBook now h reason all a =
      >>=-KeepsBook (transaction (cancel_body now h reason all a)) announce
        (transaction-KeepsBook (cancel_body now h reason all a)
          (cancel_body-KeepsBook now h reason all a))
        announce-KeepsBook
    where
      announce : Option (Order D) → Action (World D M T S) (Unit {0})
      announce x = elim x [ none ↦ pure tt | some o ↦ notify (notice_of 0 "" o ∷ []) ]

      announce-KeepsBook : (x : Option (Order D)) → KeepsBook (announce x)
      announce-KeepsBook none w v = v
      announce-KeepsBook (some o) w v = v

  save_matched-KeepsBook :
      (now : ℕ) (i : MatchItem D) (o : Order D)
      → KeepsBook {M = M} {T = T} {S = S} (save_matched now i o)
  unfolding save_matched
  save_matched-KeepsBook now i o =
      either-KeepsBook
        (not (has_the_same_sign (sub o.available_amount i.matched_amount) o.available_amount))
        (fail_with negative_available) (update_order now (matched_order now i o)) (λ w v. v)
        (update_order-KeepsBook now (matched_order now i o))

  execute_items-KeepsBook :
      (now : ℕ) (is : List (MatchItem D)) → KeepsBook {M = M} {T = T} {S = S} (execute_items now is)
  unfolding execute_items execute_item
  execute_items-KeepsBook now [] w v = v
  execute_items-KeepsBook now (i ∷ is) w v =
      >>=-KeepsBook (read (db.get_order i.order.id) >>= save_matched now i)
        (λ o. execute_items now is >>= λ os. pure (o ∷ os))
        (>>=-KeepsBook (read (db.get_order i.order.id)) (save_matched now i)
          (read-KeepsBook (db.get_order i.order.id)) (save_matched-KeepsBook now i))
        (λ o.
          >>=-KeepsBook (execute_items now is) (λ os. pure (o ∷ os))
            (execute_items-KeepsBook now is) (λ os. pure-KeepsBook (o ∷ os)))
        w v

  change_items-KeepsBook :
      (is : List (MatchItem D)) → KeepsBook {M = M} {T = T} {S = S} (change_items is)
  unfolding change_items
  change_items-KeepsBook [] w v = v
  change_items-KeepsBook (i ∷ is) w v =
      let delta = neg (add i.matched_amount i.order_total_cancel) in
      >>=-KeepsBook (on_book (λ b. Book.change_order b i.order delta)) (λ _. change_items is)
        (change-KeepsBook i.order delta) (λ _. change_items-KeepsBook is) w v

  pub execute_matches-KeepsBook :
      (now : ℕ) (perpetual : Perpetual) (broker id : String) (is : List (MatchItem D))
      → KeepsBook {M = M} {T = T} {S = S} (execute_matches now perpetual broker id is)
  unfolding execute_matches execute_body
  execute_matches-KeepsBook now perpetual broker id is =
      >>=-KeepsBook (transaction (execute_items now is >>= after))
        (λ orders. notify (map (notice_of 0 "") orders))
        (transaction-KeepsBook (execute_items now is >>= after) (
          >>=-KeepsBook (execute_items now is) after (execute_items-KeepsBook now is) (λ orders.
            >>=-KeepsBook (write (creating orders)) (λ _. change_items is >> pure orders)
              (write-KeepsBook (creating orders))
              (λ _.
                >>=-KeepsBook (change_items is) (λ _. pure orders) (change_items-KeepsBook is)
                  (λ _. pure-KeepsBook orders)))))
        (λ orders. notify-KeepsBook (map (notice_of 0 "") orders))
    where
      creating : List (Order D) → S → Option S
      creating orders =
          db.create_match (new_transaction now perpetual broker id (sent_items is orders))

      after : List (Order D) → Action (World D M T S) (List (Order D))
      after orders = write (creating orders) >> (change_items is >> pure orders)

  set_expiration_timer-KeepsBook :
      (now : ℕ) (h : String) (at : ℕ)
      → KeepsBook {D = D} {M = M} {T = T} {S = S} (set_expiration_timer now h at)
  unfolding set_expiration_timer
  set_expiration_timer-KeepsBook now h at w v = timed (ltb now at)
    where
      step : Bool → Result MatchError (Unit {0}) × World D M T S
      step b =
          if b
          then (ok tt, record w { timers = insert h at w.timers })
          else (ok tt, record w { expired = w.expired ++ h ∷ [] })

      timed : (b : Bool) → IsBook (step b).1.orderbook
      timed true = v
      timed false = v

  pub insert_body-KeepsBook :
      (now : ℕ) (o : Order D) → KeepsBook {M = M} {T = T} {S = S} (insert_body now o)
  unfolding insert_body
  insert_body-KeepsBook now o =
      >>=-KeepsBook (create_order now o) (λ c. into c >> (timed c >> pure c))
        (create_order-KeepsBook now o)
        (λ c.
          >>=-KeepsBook (into c) (λ _. timed c >> pure c) (insert-KeepsBook (get_memory_order c))
            (λ _.
              >>=-KeepsBook (timed c) (λ _. pure c)
                (set_expiration_timer-KeepsBook now c.order_hash c.expires_at)
                (λ _. pure-KeepsBook c)))
    where
      into : Order D → Action (World D M T S) (Unit {0})
      into c = on_book (λ b. Book.insert_order b (get_memory_order c))

      timed : Order D → Action (World D M T S) (Unit {0})
      timed c = set_expiration_timer now c.order_hash c.expires_at

  load_orders-KeepsBook :
      (now : ℕ) (os : List (Order D)) → KeepsBook {M = M} {T = T} {S = S} (load_orders now os)
  unfolding load_orders load_order
  load_orders-KeepsBook now [] w v = v
  load_orders-KeepsBook now (o ∷ os) w v =
      >>=-KeepsBook loading (λ _. load_orders now os)
        (either-KeepsBook (is_zero o.available_amount) (pure tt) (into >> timed) (pure-KeepsBook tt)
          (>>=-KeepsBook into (λ _. timed) (insert-KeepsBook (get_memory_order o))
            (λ _. set_expiration_timer-KeepsBook now o.order_hash o.expires_at)))
        (λ _. load_orders-KeepsBook now os) w v
    where
      into : Action (World D M T S) (Unit {0})
      into = on_book (λ b. Book.insert_order b (get_memory_order o))

      timed : Action (World D M T S) (Unit {0})
      timed = set_expiration_timer now o.order_hash o.expires_at

      loading : Action (World D M T S) (Unit {0})
      loading = if is_zero o.available_amount then pure tt else (into >> timed)

  pub reload_active_orders-KeepsBook :
      (now : ℕ) → KeepsBook {D = D} {M = M} {T = T} {S = S} (reload_active_orders now)
  unfolding reload_active_orders
  reload_active_orders-KeepsBook now =
      >>=-KeepsBook (read db.query_pending_orders) (load_orders now)
        (read-KeepsBook db.query_pending_orders) (load_orders-KeepsBook now)
