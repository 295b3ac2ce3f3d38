-- ===== src/Match/Execute.antt =====
-- match/match.go: what becomes of the items that were matched, and how a book is loaded.
pub mod Balance
pub mod Ready
pub mod Changes
pub mod Sync
pub mod Reload
use mai3_broker.Base.{
  ℕ, String, List, [], ◌∷◌, ◌++◌, map, insert, Option, none, some, Bool, false, not, ok, ltb,
  if◌then◌else◌,
}
use mai3_broker.Decimal.{Decimal, add, sub, neg, is_zero}
use mai3_broker.Amount.{has_the_same_sign}
use mai3_broker.Order.{Order, OrderCancelReason}
use mai3_broker.Orderbook.Containers.{OrderedMap, PriceTree}
use mai3_broker.Orderbook.Level.{MemoryOrder, PriceLevel}
use mai3_broker.Orderbook.Book
use mai3_broker.Match.World.{
  World, Database, Action, MatchTransaction, TransactionStatus, negative_available, read, write,
  on_book, transaction, update_order, notify, pure, fail_with, ◌>>=◌, ◌>>◌,
}
use mai3_broker.Match.World as World
use mai3_broker.Match.Memory.{get_memory_order}
use mai3_broker.Match.Settle.{notice_of}
use mai3_broker.Match.Chain.{Perpetual}
use mai3_broker.Match.Item.{MatchItem}

module _ {D : Type 0} ⦃dec : Decimal D⦄ where
  unfoldable pub item_reasons : ℕ → List String → List D → List (OrderCancelReason D)
  item_reasons now [] amounts = []
  item_reasons now (r ∷ rs) [] = []
  item_reasons now (r ∷ rs) (a ∷ rest) =
      record { reason = r; amount = a; canceled_at = now; transaction_hash = "" }
      ∷ item_reasons now rs rest

  -- The matched amount is pending, and the rest that is too small is canceled.
  unfoldable pub matched_order : ℕ → MatchItem D → Order D → Order D
  unfolding item_reasons
  matched_order now item order =
      let pending = record order {
        available_amount = sub order.available_amount item.matched_amount;
        pending_amount = add order.pending_amount item.matched_amount;
      } in
      if is_zero item.order_total_cancel then pending else record pending {
        canceled_amount = add order.canceled_amount item.order_total_cancel;
        available_amount =
            sub (sub order.available_amount item.matched_amount) item.order_total_cancel;
        cancel_reasons =
            order.cancel_reasons
            ++ item_reasons now item.order_cancel_reasons item.order_cancel_amounts;
      }

  unfoldable pub sent_items : List (MatchItem D) → List (Order D) → List (World.MatchItem D)
  sent_items [] os = []
  sent_items (i ∷ is) [] = []
  sent_items (i ∷ is) (o ∷ os) =
      record { order_hash = o.order_hash; amount = i.matched_amount } ∷ sent_items is os

  unfoldable pub new_transaction :
      ℕ → Perpetual → String → String → List (World.MatchItem D) → MatchTransaction D
  new_transaction now perpetual broker id items = record {
    id = id;
    liquidity_pool_address = perpetual.liquidity_pool_address;
    perpetual_index = perpetual.perpetual_index;
    broker_address = broker;
    status = TransactionStatus.init;
    block_confirmed = false;
    block_number = none;
    block_hash = none;
    transaction_hash = none;
    created_at = now;
    executed_at = none;
    match_result = record { match_items = items; succ_items = []; failed_items = [] };
  }

module _ {D M T S : Type 0} ⦃dec : Decimal D⦄ ⦃om : OrderedMap M (MemoryOrder D)⦄
    ⦃pt : PriceTree T D (PriceLevel D M)⦄ ⦃db : Database S D⦄ where
  unfoldable pub save_matched : ℕ → MatchItem D → Order D → Action (World D M T S) (Order D)
  unfolding matched_order update_order
  save_matched now item order =
      if not
        (has_the_same_sign (sub order.available_amount item.matched_amount) order.available_amount)
      then fail_with negative_available
      else update_order now (matched_order now item order)

  unfoldable pub execute_item : ℕ → MatchItem D → Action (World D M T S) (Order D)
  unfolding save_matched
  execute_item now item = read (db.get_order item.order.id) >>= save_matched now item

  unfoldable pub execute_items : ℕ → List (MatchItem D) → Action (World D M T S) (List (Order D))
  unfolding execute_item
  execute_items now [] = pure []
  execute_items now (i ∷ is) =
      execute_item now i >>= λ o. execute_items now is >>= λ os. pure (o ∷ os)

  -- The memory orders follow once all writes of the database have succeeded.
  unfoldable pub change_items : List (MatchItem D) → Action (World D M T S) (Unit {0})
  change_items [] = pure tt
  change_items (i ∷ is) =
      on_book (λ b. Book.change_order b i.order (neg (add i.matched_amount i.order_total_cancel)))
      >> change_items is

  unfoldable pub execute_body :
      ℕ → Perpetual → String → String → List (MatchItem D) → Action (World D M T S) (List (Order D))
  unfolding execute_items change_items sent_items new_transaction
  execute_body now perpetual broker id items = do
    orders ← execute_items now items
    write (db.create_match (new_transaction now perpetual broker id (sent_items items orders)))
    change_items items
    pure orders

  -- The end of `matchOrders`.
  unfoldable pub execute_matches :
      ℕ → Perpetual → String → String → List (MatchItem D) → Action (World D M T S) (Unit {0})
  unfolding execute_body transaction
  execute_matches now perpetual broker id items =
      transaction (execute_body now perpetual broker id items) >>= λ orders.
      notify (map (notice_of 0 "") orders)

  -- An order that has expired is canceled by a goroutine of its own, once the lock is free.
  unfoldable pub set_expiration_timer : ℕ → String → ℕ → Action (World D M T S) (Unit {0})
  set_expiration_timer now order_hash expires_at w =
      if ltb now expires_at
      then (ok tt, record w { timers = insert order_hash expires_at w.timers })
      else (ok tt, record w { expired = w.expired ++ order_hash ∷ [] })

  unfoldable pub load_order : ℕ → Order D → Action (World D M T S) (Unit {0})
  unfolding set_expiration_timer
  load_order now order =
      if is_zero order.available_amount
      then pure tt
      else (on_book (λ b. Book.insert_order b (get_memory_order order))
          >> set_expiration_timer now order.order_hash order.expires_at)

  unfoldable pub load_orders : ℕ → List (Order D) → Action (World D M T S) (Unit {0})
  unfolding load_order
  load_orders now [] = pure tt
  load_orders now (o ∷ os) = load_order now o >> load_orders now os

  unfoldable pub reload_active_orders : ℕ → Action (World D M T S) (Unit {0})
  unfolding load_orders
  reload_active_orders now = read db.query_pending_orders >>= load_orders now
