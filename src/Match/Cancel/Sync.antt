-- ===== src/Match/Cancel/Sync.antt =====
-- The book and the database after a cancellation.
use mai3_broker.Base.{◌≡◌, String, Bool, ◌||◌, some, if◌then◌else◌}
use mai3_broker.Decimal.{Decimal, abs, less_than}
use mai3_broker.Order
use mai3_broker.Order.{Order}
use mai3_broker.Orderbook.Book
use mai3_broker.Match.World.{World, Database}

module _ {D : Type 0} ⦃dec : Decimal D⦄ where
  abbrev canceled_of : Order D → Bool → D → D
  canceled_of o all x =
      if less_than (abs o.available_amount) (abs x) || all then o.available_amount else x

  -- The same order but for what a write makes new: the status, the times, the order of the reasons.
  pub record IsSaved (o' o1 : Order D) : Type 0 where
    pub available : o'.available_amount ≡ o1.available_amount
    pub pending : o'.pending_amount ≡ o1.pending_amount
    pub confirmed : o'.confirmed_amount ≡ o1.confirmed_amount
    pub canceled : o'.canceled_amount ≡ o1.canceled_amount
    pub param : o'.param ≡ o1.param
    pub hash : o'.order_hash ≡ o1.order_hash

-- A row that is saved is read back.
abbrev pub ReadsBack : (S D : Type 0) → ⦃db : Database S D⦄ → Type 0
ReadsBack S D ⦃db⦄ =
    (o : Order D) (s s' : S) → db.save_order o s ≡ some s' → db.get_order o.order_hash s' ≡ some o

module _ {D S : Type 0} ⦃dec : Decimal D⦄ ⦃db : Database S D⦄ where
  -- A row of these amounts was saved last.
  abbrev WasSaved : Order D → S → Type 0
  WasSaved o' s' = (row : Order D) × (s : S) × (db.save_order row s ≡ some s') × IsSaved row o'

  -- The database has the order, with these amounts.
  abbrev pub HasRow : String → Order D → S → Type 0
  HasRow h o' s = (row : Order D) × (db.get_order h s ≡ some row) × IsSaved row o'
