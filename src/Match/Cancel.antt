-- ===== src/Match/Cancel.antt =====
-- match/cancel_order.go: how an order, or a part of it, is canceled.
pub mod Sync
use mai3_broker.Base.{
  ℕ, String, Option, none, some, Bool, true, false, not, ◌&&◌, ◌||◌, erase, Result, ok, err, List,
  [], ◌∷◌, if◌then◌else◌,
}
use mai3_broker.Decimal.{Decimal, zero, neg, abs, equal, is_zero, is_negative, less_than}
use mai3_broker.Order
use mai3_broker.Order.{Order}
use mai3_broker.Orderbook.Containers.{OrderedMap, PriceTree}
use mai3_broker.Orderbook.Level.{MemoryOrder, PriceLevel}
use mai3_broker.Orderbook.Book
use mai3_broker.Match.World.{
  World, Database, MatchError, Action, read, on_book, get_book, transaction, update_order, notify,
  pure, fail_with, ◌>>=◌, ◌>>◌,
}
use mai3_broker.Match.Settle.{notice_of}

-- The variables `cancelDBAmount` and `cancelBookAmount`.
pub record Amounts (D : Type 0) : Type 0 where
  pub db : D
  pub book : D

module _ {D : Type 0} ⦃dec : Decimal D⦄ where
  -- `none`: the order is closed already.
  unfoldable pub cancel_amounts : Order D → Option (MemoryOrder D) → Bool → D → Option (Amounts D)
  cancel_amounts order none cancel_all cancel_amount =
      if is_zero order.available_amount
      then none
      else some (record { db = order.available_amount; book = zero })
  cancel_amounts order (some book_order) cancel_all cancel_amount =
      let all = cancel_all || not (equal order.available_amount book_order.amount) in
      some (record {
        db =
            if less_than (abs order.available_amount) (abs cancel_amount) || all
            then order.available_amount
            else cancel_amount;
        book =
            if less_than (abs book_order.amount) (abs cancel_amount)
            then order.available_amount
            else if all
            then book_order.amount
            else cancel_amount;
      })

module _ {D M T S : Type 0} ⦃dec : Decimal D⦄ ⦃om : OrderedMap M (MemoryOrder D)⦄
    ⦃pt : PriceTree T D (PriceLevel D M)⦄ ⦃db : Database S D⦄ where
  unfoldable pub delete_order_timer : String → Action (World D M T S) (Unit {0})
  delete_order_timer order_hash w = (ok tt, record w { timers = erase order_hash w.timers })

  -- An order of the book is changed only if it was found there.
  unfoldable pub cancel_in_book : Option (MemoryOrder D) → D → Action (World D M T S) (Unit {0})
  cancel_in_book none amount = pure tt
  cancel_in_book (some book_order) amount =
      if is_zero amount then pure tt else on_book (λ b. Book.change_order b book_order (neg amount))

  unfoldable pub save_canceled :
      ℕ → Result Order.CancelError (Order D) → Action (World D M T S) (Order D)
  save_canceled now (err e) = fail_with (MatchError.cancel e)
  save_canceled now (ok order) = update_order now order

  unfoldable pub cancel_in_db : ℕ → Order D → String → D → Action (World D M T S) (Order D)
  unfolding save_canceled
  cancel_in_db now order reason amount =
      if is_zero amount
      then pure order
      else save_canceled now (Order.cancel_order now order reason amount)

  -- The order, if one was canceled.
  unfoldable pub cancel_both :
      ℕ
      → String
      → String
      → Order D
      → Option (MemoryOrder D)
      → Option (Amounts D)
      → Action (World D M T S) (Option (Order D))
  unfolding cancel_in_book cancel_in_db delete_order_timer
  cancel_both now order_hash reason order found none = pure none
  cancel_both now order_hash reason order found (some amounts) = do
    cancel_in_book found amounts.book
    order' ← cancel_in_db now order reason amounts.db
    delete_order_timer order_hash
    pure (if is_zero amounts.db then none else some order')

  unfoldable pub cancel_body :
      ℕ → String → String → Bool → D → Action (World D M T S) (Option (Order D))
  unfolding cancel_amounts cancel_both
  cancel_body now order_hash reason cancel_all cancel_amount = do
    order ← read (db.get_order order_hash)
    b ← get_book
    let found = Book.get_order b order_hash (is_negative order.amount) order.price
    cancel_both now order_hash reason order found
        (cancel_amounts order found cancel_all cancel_amount)

  unfoldable pub cancel_order_without_lock :
      ℕ → String → String → Bool → D → Action (World D M T S) (Unit {0})
  unfolding cancel_body transaction
  cancel_order_without_lock now order_hash reason cancel_all cancel_amount =
      transaction (cancel_body now order_hash reason cancel_all cancel_amount) >>= λ canceled.
      elim canceled [ none ↦ pure tt | some order ↦ notify (notice_of 0 "" order ∷ []) ]
