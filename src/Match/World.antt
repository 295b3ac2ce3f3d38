-- ===== src/Match/World.antt =====
-- What a handler of the match package reads and writes: the database, the order book, the
-- expiration timers and the messages to the websocket server. Handlers hold the mutex of their
-- `match`, so each is one step. A failed call leaves what it has written; only `transaction` puts
-- the database back.
pub mod Atomic
use mai3_broker.Base.{ℕ, String, List, ◌++◌, Dict, Option, none, some, Bool, Result, ok, err, ltb}
use mai3_broker.Base.Actions
pub use mai3_broker.Base.Actions.{◌>>=◌, ◌>>◌, pure, fail_with, >>=-eq-ok, pure-eq-ok}
use mai3_broker.Decimal.{Decimal}
use mai3_broker.Order.{Order, OrderStatus, CancelError, status_by_amounts}
use mai3_broker.Orderbook.Level.{BookError}
use mai3_broker.Orderbook.Book.{Book}
use mai3_broker.Orderbook.Prices.{sort_slice}

-- common/model/match_transaction.go
pub data TransactionStatus : Type 0 where
  init : TransactionStatus
  pending : TransactionStatus
  success : TransactionStatus
  fail : TransactionStatus
  abort : TransactionStatus

pub record MatchItem (D : Type 0) : Type 0 where
  pub order_hash : String
  pub amount : D

pub record MatchResult (D : Type 0) : Type 0 where
  pub match_items : List (MatchItem D)
  pub succ_items : List (MatchItem D)
  pub failed_items : List (MatchItem D)

pub record MatchTransaction (D : Type 0) : Type 0 where
  pub id : String
  pub liquidity_pool_address : String
  pub perpetual_index : ℕ
  pub broker_address : String
  pub status : TransactionStatus
  pub block_confirmed : Bool
  pub block_number : Option ℕ
  pub block_hash : Option String
  pub transaction_hash : Option String
  pub created_at : ℕ
  pub executed_at : Option ℕ
  pub match_result : MatchResult D

-- The database behind the package dao: a parameter. The pending orders are those of
-- the perpetual, or of a trader. `none` is an error: a missing row, or reasons that have no JSON. `commit before after`
-- ends a transaction.
pub record Database (S D : Type 0) : Type 0 where
  pub get_order : String → S → Option (Order D)
  pub get_orders_by_hashes : List String → S → Option (List (Order D))
  pub query_pending_orders : S → Option (List (Order D))
  pub query_trader_orders : String → S → Option (List (Order D))
  pub create_order : Order D → S → Option S
  pub save_order : Order D → S → Option S
  pub get_match : String → S → Option (MatchTransaction D)
  pub create_match : MatchTransaction D → S → Option S
  pub save_match : MatchTransaction D → S → Option S
  pub commit : S → S → Option S

pub data MatchError : Type 0 where
  database : MatchError
  book : BookError → MatchError
  cancel : CancelError → MatchError
  not_found_in_book : MatchError
  negative_available : MatchError

-- A message to the websocket server: the order that changed, with the block it was settled in.
pub record Notice (D : Type 0) : Type 0 where
  pub order : Order D
  pub block_number : ℕ
  pub transaction_hash : String

-- `expired` lists the orders for which a goroutine was started at once, since they had expired.
pub record World (D M T S : Type 0) : Type 0 where
  pub store : S
  pub orderbook : Book D M T
  pub timers : Dict ℕ
  pub expired : List String
  pub ws_chan : List (Notice D)

abbrev pub Action : Type 0 → Type 0 → Type 0
Action W A = Actions.Action MatchError W A

-- The reasons are sorted where they are, so the caller's order has them sorted too.
abbrev pub marshal_cancel_reason : {D : Type 0} → Order D → Order D
marshal_cancel_reason order = record order {
  cancel_reasons = sort_slice (λ r s. ltb r.canceled_at s.canceled_at) order.cancel_reasons;
}

module _ {D M T S : Type 0} where
  -- A read of the database, and a write to it.
  abbrev pub read : {A : Type 0} → (S → Option A) → Action (World D M T S) A
  read f w = elim (f w.store) [ none ↦ (err database, w) | some a ↦ (ok a, w) ]

  abbrev pub write : (S → Option S) → Action (World D M T S) (Unit {0})
  write f w = elim (f w.store) [
    | none ↦ (err database, w)
    | some s ↦ (ok tt, record w { store = s })
  ]

  -- An operation on the order book.
  abbrev pub on_book :
      (Book D M T → Result BookError (Book D M T)) → Action (World D M T S) (Unit {0})
  on_book f w = elim (f w.orderbook) [
    | ok b ↦ (ok tt, record w { orderbook = b })
    | err e ↦ (err (book e), w)
  ]

  abbrev pub get_book : Action (World D M T S) (Book D M T)
  get_book w = (ok w.orderbook, w)

  abbrev pub notify : List (Notice D) → Action (World D M T S) (Unit {0})
  notify ns w = (ok tt, record w { ws_chan = w.ws_chan ++ ns })

  module _ ⦃dec : Decimal D⦄ ⦃db : Database S D⦄ where
    -- On an error of the body or of the commit the database is rolled back, and nothing else.
    unfoldable pub transaction : {A : Type 0} → Action (World D M T S) A → Action (World D M T S) A
    transaction body w =
        let (r, w') = body w in
        elim r [
          | err e ↦ (err e, record w' { store = w.store })
          | ok a ↦ elim (db.commit w.store w'.store) [
            | none ↦ (err database, record w' { store = w.store })
            | some s ↦ (ok a, record w' { store = s })
          ]
        ]

    -- `UpdateOrder` of dao/order.go. The row is saved with the status that its amounts give; the
    -- caller's order gets that status too, and remembers the one it had.
    unfoldable pub update_order : ℕ → Order D → Action (World D M T S) (Order D)
    update_order now order =
        write (
          db.save_order
            (record (marshal_cancel_reason order) { status = status; updated_at = now }))
        >> pure
            (record (marshal_cancel_reason order) { old_status = order.status; status = status })
      where
        status : OrderStatus
        status = status_by_amounts order

    -- `CreateOrder` of dao/order.go.
    unfoldable pub create_order : ℕ → Order D → Action (World D M T S) (Order D)
    create_order now order =
        write (
          db.create_order
            (record (marshal_cancel_reason order) { status = status; created_at = now }))
        >> pure
            (record (marshal_cancel_reason order) { old_status = order.status; status = status })
      where
        status : OrderStatus
        status = status_by_amounts order
