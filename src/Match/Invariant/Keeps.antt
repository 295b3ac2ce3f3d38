-- ===== src/Match/Invariant/Keeps.antt =====
-- Actions that keep the book well formed, whether they succeed or fail.
use mai3_broker.Base.{
  ℕ, ◌≡◌, refl, List, Option, none, some, Bool, Result, ok, err, true, false, if◌then◌else◌,
}
use mai3_broker.Decimal.{Decimal, is_zero, is_negative}
use mai3_broker.Order.{Order, status_by_amounts}
use mai3_broker.Orderbook.Containers.{OrderedMap, PriceTree}
use mai3_broker.Orderbook.Level.{MemoryOrder, PriceLevel, BookError}
use mai3_broker.Orderbook.Book
use mai3_broker.Orderbook.Book.{Book}
use mai3_broker.Orderbook.Book.Consistency.{IsBook, insert_order-IsBook, change_order-IsBook}
use mai3_broker.Match.World.{
  marshal_cancel_reason, World, Database, MatchError, Action, Notice, read, write, on_book, notify,
  transaction, update_order, create_order, fail_with, not_found_in_book, pure, ◌>>=◌,
}
use mai3_broker.Match.Memory.{get_memory_order, rollback_orderbook}

module _ {D M T S : Type 0} ⦃dec : Decimal D⦄ ⦃om : OrderedMap M (MemoryOrder D)⦄
    ⦃pt : PriceTree T D (PriceLevel D M)⦄ where
  abbrev pub KeepsBook : {A : Type 0} → Action (World D M T S) A → Type 0
  KeepsBook f = (w : World D M T S) → IsBook w.orderbook → IsBook (f w).1.orderbook

  pub >>=-KeepsBook :
      {A B : Type 0} (f : Action (World D M T S) A) (g : A → Action (World D M T S) B)
      → KeepsBook f
      → ((a : A) → KeepsBook (g a))
      → KeepsBook (f >>= g)
  >>=-KeepsBook {A} {B} f g k l w v = go (f w) (k w v)
    where
      go :
          (r : Result MatchError A × World D M T S)
          → IsBook r.1.orderbook
          → IsBook (◌>>=◌ {B = B} (λ _. r) g w).1.orderbook
      go (ok a, u) h = l a u h
      go (err e, u) h = h

  pub pure-KeepsBook : {A : Type 0} (a : A) → KeepsBook (pure {E = MatchError} a)
  pure-KeepsBook a w v = v

  pub read-KeepsBook : {A : Type 0} (f : S → Option A) → KeepsBook (read f)
  read-KeepsBook {A} f w v = go (f w.store)
    where
      go : (o : Option A) → IsBook (read {D = D} {M = M} {T = T} {S = S} (λ _. o) w).1.orderbook
      go none = v
      go (some a) = v

  pub write-KeepsBook : (f : S → Option S) → KeepsBook (write f)
  write-KeepsBook f w v = go (f w.store)
    where
      go : (o : Option S) → IsBook (write {D = D} {M = M} {T = T} (λ _. o) w).1.orderbook
      go none = v
      go (some s) = v

  pub notify-KeepsBook : (ns : List (Notice D)) → KeepsBook (notify ns)
  notify-KeepsBook ns w v = v

  on_book-KeepsBook :
      (f : Book D M T → Result BookError (Book D M T))
      → ((b b' : Book D M T) → IsBook b → f b ≡ ok b' → IsBook b')
      → KeepsBook (on_book f)
  on_book-KeepsBook f k w v = go (f w.orderbook) (λ b' e. k w.orderbook b' v e)
    where
      go :
          (r : Result BookError (Book D M T))
          → ((b' : Book D M T) → r ≡ ok b' → IsBook b')
          → IsBook (on_book {S = S} (λ _. r) w).1.orderbook
      go (ok b) h = h b refl
      go (err e) h = v

  pub insert-KeepsBook : (o : MemoryOrder D) → KeepsBook (on_book (λ b. Book.insert_order b o))
  insert-KeepsBook o =
      on_book-KeepsBook (λ b. Book.insert_order b o) (λ b b' v e. insert_order-IsBook b b' o v e)

  pub change-KeepsBook :
      (o : MemoryOrder D) (delta : D) → KeepsBook (on_book (λ b. Book.change_order b o delta))
  change-KeepsBook o delta =
      on_book-KeepsBook (λ b. Book.change_order b o delta)
        (λ b b' v e. change_order-IsBook b b' o delta v e)

  pub rollback_orderbook-KeepsBook :
      (old delta : D) (o : Order D) → KeepsBook (rollback_orderbook old delta o)
  unfolding rollback_orderbook
  rollback_orderbook-KeepsBook old delta o w v = whole (is_zero old)
    where
      found : Option (MemoryOrder D) → Action (World D M T S) (Unit {0})
      found x = elim x [
        | none ↦ fail_with not_found_in_book
        | some book_order ↦ on_book (λ b. Book.change_order b book_order delta)
      ]

      found-KeepsBook : (x : Option (MemoryOrder D)) → IsBook (found x w).1.orderbook
      found-KeepsBook none = v
      found-KeepsBook (some m) = change-KeepsBook m delta w v

      step : Bool → Action (World D M T S) (Unit {0})
      step b = if b then on_book (λ b. Book.insert_order b (get_memory_order o)) else (λ w.
          found (Book.get_order w.orderbook o.order_hash (is_negative o.amount) o.price) w)

      whole : (b : Bool) → IsBook (step b w).1.orderbook
      whole true = insert-KeepsBook (get_memory_order o) w v
      whole false =
          found-KeepsBook (Book.get_order w.orderbook o.order_hash (is_negative o.amount) o.price)

  module _ ⦃db : Database S D⦄ where
    pub update_order-KeepsBook : (now : ℕ) (o : Order D) → KeepsBook (update_order now o)
    unfolding update_order
    update_order-KeepsBook now o =
        let status = status_by_amounts o in
        let sorted = marshal_cancel_reason o in
        >>=-KeepsBook (write (db.save_order (record sorted { status = status; updated_at = now })))
          (λ _. pure (record sorted { old_status = o.status; status = status }))
          (write-KeepsBook (db.save_order (record sorted { status = status; updated_at = now })))
          (λ _. pure-KeepsBook (record sorted { old_status = o.status; status = status }))

    pub create_order-KeepsBook : (now : ℕ) (o : Order D) → KeepsBook (create_order now o)
    unfolding create_order
    create_order-KeepsBook now o =
        let status = status_by_amounts o in
        let sorted = marshal_cancel_reason o in
        >>=-KeepsBook
          (write (db.create_order (record sorted { status = status; created_at = now })))
          (λ _. pure (record sorted { old_status = o.status; status = status }))
          (write-KeepsBook (db.create_order (record sorted { status = status; created_at = now })))
          (λ _. pure-KeepsBook (record sorted { old_status = o.status; status = status }))

    pub transaction-KeepsBook :
        {A : Type 0} (body : Action (World D M T S) A)
        → KeepsBook body
        → KeepsBook (transaction body)
    unfolding transaction
    transaction-KeepsBook {A} body k w v = go (body w) (k w v)
      where
        go :
            (r : Result MatchError A × World D M T S)
            → IsBook r.1.orderbook
            → IsBook (transaction (λ _. r) w).1.orderbook
        go (err e, u) h = h
        go (ok a, u) h = committed (db.commit w.store u.store)
          where
            committed :
                (s : Option S)
                → IsBook
                    (elim s as (λ _. Result MatchError A × World D M T S) [
                      | none ↦ (err MatchError.database, record u { store = w.store })
                      | some s ↦ (ok a, record u { store = s })
                    ]).1.orderbook
            committed none = h
            committed (some s) = h
