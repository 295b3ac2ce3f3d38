-- ===== src/Match/NewOrder/Entry.antt =====
-- The way of an accepted order into the database and the book.
use mai3_broker.Base.{ℕ, ◌≡◌, List, some}
use mai3_broker.Decimal.{Decimal}
use mai3_broker.Order.{Order}
use mai3_broker.Orderbook.Containers.{OrderedMap, PriceTree}
use mai3_broker.Orderbook.Level.{MemoryOrder, PriceLevel}
use mai3_broker.Orderbook.Book
use mai3_broker.Orderbook.Book.{Book}
use mai3_broker.Orderbook.Book.Consistency.{IsBook}
use mai3_broker.Match.World.{World, Database, create_order}
use mai3_broker.Match.World as World
use mai3_broker.Match.Memory.Sync.{IsSynced}
use mai3_broker.Match.Chain.{Chain, Perpetual}
use mai3_broker.Match.Round.{Matcher}
use mai3_broker.Match.OrderChecks.{Conf}
use mai3_broker.Match.Cancel.Sync.{IsSaved, HasRow}
use mai3_broker.Match.NewOrder.Checked.{IsChecked}

-- The order as it was written: what the trader signed, its hash, what is available of it, and the gas
-- limit that it was given.
pub record IsSameOrder {D : Type 0} (o' o : Order D) : Type 0 where
  pub hash : o'.order_hash ≡ o.order_hash
  pub param : o'.param ≡ o.param
  pub available : o'.available_amount ≡ o.available_amount
  pub gas_fee_limit : o'.gas_fee_limit ≡ o.gas_fee_limit

module _ {D S : Type 0} ⦃dec : Decimal D⦄ ⦃db : Database S D⦄ where
  -- A row of these amounts was created last.
  abbrev WasCreated : Order D → S → Type 0
  WasCreated o' s' = (row : Order D) × (s : S) × (db.create_order row s ≡ some s') × IsSaved row o'

-- A row that is created is read back after the commit.
abbrev pub ReadsCreated : (S D : Type 0) → ⦃db : Database S D⦄ → Type 0
ReadsCreated S D ⦃db⦄ =
    (o : Order D) (before s s' committed : S)
    → db.create_order o s ≡ some s'
    → db.commit before s' ≡ some committed
    → db.get_order o.order_hash committed ≡ some o

module _ {C D M T S : Type 0} ⦃dec : Decimal D⦄ ⦃ch : Chain C D⦄ ⦃om : OrderedMap M (MemoryOrder D)⦄
    ⦃pt : PriceTree T D (PriceLevel D M)⦄ ⦃db : Database S D⦄ where
  -- An accepted order.
  pub record IsAccepted (conf : Conf) (now : ℕ) (perpetual : Perpetual) (o : Order D)
      (m m' : Matcher C D M T S) : Type 0 where
    pub active : List (Order D)
    pub rows : db.query_trader_orders o.trader_address m.world.store ≡ some active
    pub checked : Order D
    pub is_checked : IsChecked conf now perpetual m.pool_syncer active o checked
    pub written : Order D
    pub same : IsSameOrder written checked
    pub book : IsBook m'.world.orderbook
    pub synced : IsSynced m'.world.orderbook written
    pub stored : HasRow written.order_hash written m'.world.store
