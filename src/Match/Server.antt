-- ===== src/Match/Server.antt =====
-- match/server.go: the engines of all perpetuals, which share the database, the cache of the pools and
-- the channel to the websocket server. A key of the map of engines is the address of the pool and the
-- index of the perpetual; the source prints both as one text.
pub mod Engines
use mai3_broker.Base.{
  ℕ, String, List, [], ◌∷◌, Dict, Option, none, some, Bool, true, Result, ok, err, if◌then◌else◌,
}
use mai3_broker.Base.Actions.{Action}
use mai3_broker.Decimal.{Decimal, zero}
use mai3_broker.Order.CancelReason
use mai3_broker.Orderbook.Containers.{OrderedMap, PriceTree}
use mai3_broker.Orderbook.Level.{MemoryOrder, PriceLevel}
use mai3_broker.Orderbook.Book.{Book}
use mai3_broker.Orderbook.Book
use mai3_broker.Match.World.{
  World, Database, MatchError, MatchTransaction, TransactionStatus, Notice, database,
}
use mai3_broker.Match.World
use mai3_broker.Match.Settle.{TradeSuccessEvent, TradeFailedEvent, update_orders_status}
use mai3_broker.Match.Rollback.{rollback_orders_status}
use mai3_broker.Match.Execute.{reload_active_orders}
use mai3_broker.Match.Cancel.{cancel_order_without_lock}
use mai3_broker.Match.Chain.{Chain}
use mai3_broker.Match.PoolSyncer.{PoolSyncer, add_pool, set_pool_storage_dirty}
use mai3_broker.Match.OrderChecks.{same_perpetual}

pub data ServerError : Type 0 where
  not_open : ServerError
  already_there : ServerError
  failed : MatchError → ServerError

pub record PerpetualKey : Type 0 where
  pub address : String
  pub index : ℕ

abbrev pub same_key : PerpetualKey → PerpetualKey → Bool
same_key k l = same_perpetual k.address k.index l.address l.index

-- What a `match` has for itself.
pub record Handler (D M T : Type 0) : Type 0 where
  pub orderbook : Book D M T
  pub timers : Dict ℕ
  pub expired : List String

pub record Server (C D M T S : Type 0) : Type 0 where
  pub match_handler_map : List (PerpetualKey × Handler D M T)
  pub pool_syncer : PoolSyncer C D
  pub store : S
  pub ws_chan : List (Notice D)

abbrev pub outcome : {A : Type 0} → Result MatchError A → Result ServerError A
outcome (ok a) = ok a
outcome (err e) = err (failed e)

abbrev pub key_of : {D : Type 0} → MatchTransaction D → PerpetualKey
key_of tx = record { address = tx.liquidity_pool_address; index = tx.perpetual_index }

module _ {H : Type 0} where
  unfoldable pub find_handler : PerpetualKey → List (PerpetualKey × H) → Option H
  find_handler k [] = none
  find_handler k ((l, h) ∷ hs) = if same_key l k then some h else find_handler k hs

  unfoldable pub put_handler : PerpetualKey → H → List (PerpetualKey × H) → List (PerpetualKey × H)
  put_handler k h [] = (k, h) ∷ []
  put_handler k h ((l, g) ∷ hs) = if same_key l k then (l, h) ∷ hs else (l, g) ∷ put_handler k h hs

  unfoldable pub drop_handler : PerpetualKey → List (PerpetualKey × H) → List (PerpetualKey × H)
  drop_handler k [] = []
  drop_handler k ((l, g) ∷ hs) = if same_key l k then hs else (l, g) ∷ drop_handler k hs

module _ {D M T S : Type 0} where
  abbrev pub handler_of : World D M T S → Handler D M T
  handler_of w = record { orderbook = w.orderbook; timers = w.timers; expired = w.expired }

module _ {C D M T S : Type 0} where
  abbrev pub get_match_handler : PerpetualKey → Server C D M T S → Option (Handler D M T)
  get_match_handler k s = find_handler k s.match_handler_map

  unfoldable pub set_match_handler :
      PerpetualKey → Handler D M T → Action ServerError (Server C D M T S) (Unit {0})
  set_match_handler k h s = elim (get_match_handler k s) [
    | some g ↦ (err already_there, s)
    | none ↦ (ok tt, record s { match_handler_map = put_handler k h s.match_handler_map })
  ]

  unfoldable pub delete_match_handler :
      PerpetualKey → Action ServerError (Server C D M T S) (Unit {0})
  delete_match_handler k s = elim (get_match_handler k s) [
    | none ↦ (err not_open, s)
    | some g ↦ (ok tt, record s { match_handler_map = drop_handler k s.match_handler_map })
  ]

  -- The world of one engine, and the server after one of its handlers.
  abbrev pub world_of : Handler D M T → Server C D M T S → World D M T S
  world_of h s = record {
    store = s.store;
    orderbook = h.orderbook;
    timers = h.timers;
    expired = h.expired;
    ws_chan = s.ws_chan;
  }

  abbrev pub server_after : PerpetualKey → World D M T S → Server C D M T S → Server C D M T S
  server_after k w s = record s {
    match_handler_map = put_handler k (handler_of w) s.match_handler_map;
    store = w.store;
    ws_chan = w.ws_chan;
  }

  -- A call of a handler of the engine of a perpetual. The source's map holds pointers, so what the
  -- handler changes is seen through the map: here the changed handler takes the place of the old one.
  unfoldable pub on_handler :
      {A : Type 0}
      → PerpetualKey
      → World.Action (World D M T S) A
      → Action ServerError (Server C D M T S) A
  unfolding find_handler put_handler
  on_handler k f s = elim (get_match_handler k s) [
    | none ↦ (err not_open, s)
    | some h ↦ let (r, w) = f (world_of h s) in (outcome r, server_after k w s)
  ]

  module _ ⦃dec : Decimal D⦄ ⦃om : OrderedMap M (MemoryOrder D)⦄
      ⦃pt : PriceTree T D (PriceLevel D M)⦄ ⦃db : Database S D⦄ where
    -- `mine` is the database as the new engine asks it for the pending orders of its perpetual. An
    -- engine that does not load is given up.
    unfoldable pub new_match :
        ⦃ch : Chain C D⦄
        → Database S D
        → ℕ
        → PerpetualKey
        → Action ServerError (Server C D M T S) (Unit {0})
    unfolding set_match_handler
    new_match mine now k s =
        let s' = record s { pool_syncer = add_pool now k.address s.pool_syncer } in
        let (r, w) =
          reload_active_orders ⦃db = mine⦄ now
            (world_of (record { orderbook = Book.new_orderbook; timers = []; expired = [] }) s') in
        elim r [ err e ↦ (err (failed e), s') | ok a ↦ set_match_handler k (handler_of w) s' ]

    unfoldable pub cancel_perpetual_order :
        ℕ → PerpetualKey → String → Action ServerError (Server C D M T S) (Unit {0})
    unfolding on_handler
    cancel_perpetual_order now k order_hash =
        on_handler k (cancel_order_without_lock now order_hash CancelReason.user_cancel true zero)

    unfoldable pub update_status :
        ℕ
        → String
        → TransactionStatus
        → String
        → String
        → ℕ
        → ℕ
        → List (TradeSuccessEvent D)
        → List (TradeFailedEvent D)
        → Action ServerError (Server C D M T S) (Unit {0})
    unfolding on_handler
    update_status now tx_id status transaction_hash block_hash block_number block_time succ lost s =
        elim (db.get_match tx_id s.store) [
          | none ↦ (err (failed database), s)
          | some tx ↦
              on_handler (key_of tx)
                (update_orders_status now tx_id status transaction_hash block_hash block_number
                  block_time succ lost)
                s
        ]

    unfoldable pub rollback_status :
        ℕ
        → String
        → TransactionStatus
        → String
        → String
        → ℕ
        → ℕ
        → List (TradeSuccessEvent D)
        → List (TradeFailedEvent D)
        → Action ServerError (Server C D M T S) (Unit {0})
    unfolding on_handler
    rollback_status now tx_id status transaction_hash block_hash block_number block_time succ lost
          s =
        elim (db.get_match tx_id s.store) [
          | none ↦ (err (failed database), s)
          | some tx ↦
              on_handler (key_of tx)
                (rollback_orders_status now tx status transaction_hash block_hash block_number
                  block_time succ lost)
                s
        ]

    -- An error is only logged.
    unfoldable pub set_dirty : ⦃ch : Chain C D⦄ → String → Server C D M T S → Server C D M T S
    set_dirty tx_id s = elim (db.get_match tx_id s.store) [
      | none ↦ s
      | some tx ↦ record s {
        pool_syncer = set_pool_storage_dirty tx.liquidity_pool_address s.pool_syncer;
      }
    ]
