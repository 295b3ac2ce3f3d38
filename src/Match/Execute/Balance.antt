-- ===== src/Match/Execute/Balance.antt =====
-- The amounts of an order when a match of it is written.
use mai3_broker.Base.{
  ap, ℕ, ◌+◌, ◌≡◌, ◌∙◌, some, ok, true, arith, inl, inr, Bool-cases, Option-cases, String,
}
use mai3_broker.Decimal.{Decimal, add, sub, digits, exact, eq_of_units}
use mai3_broker.Amount.{has_the_same_sign}
use mai3_broker.Order.{Order}
use mai3_broker.Order.Balance.{total}
use mai3_broker.Orderbook.Containers.{OrderedMap, PriceTree}
use mai3_broker.Orderbook.Level.{MemoryOrder, PriceLevel}
use mai3_broker.Match.World.{World, Database, read, update_order, >>=-eq-ok}
use mai3_broker.Match.Item.{MatchItem}
use mai3_broker.Match.Execute.{matched_order, save_matched, execute_item}

module _ {D : Type 0} ⦃dec : Decimal D⦄ where
  available_to_pending :
      (a p c x m : D) → add (add (sub a m) (add p m)) (add c x) ≡ add (add a p) (add c x)
  available_to_pending a p c x m =
      let k = digits a + digits p + digits c + digits x + digits m in
      eq_of_units k _ _ (omega exact) (omega exact) (omega exact)

  available_to_both :
      (a p c x m t : D)
      → add (add (sub (sub a m) t) (add p m)) (add c (add x t)) ≡ add (add a p) (add c x)
  available_to_both a p c x m t =
      let k = digits a + digits p + digits c + digits x + digits m + digits t in
      eq_of_units k _ _ (omega exact) (omega exact) (omega exact)

  pub matched_order_total :
      (now : ℕ) (item : MatchItem D) (o : Order D) → total (matched_order now item o) ≡ total o
  unfolding matched_order
  matched_order_total now item o = ground (
    arith,
    available_to_pending o.available_amount o.pending_amount o.confirmed_amount o.canceled_amount
        item.matched_amount,
    available_to_both o.available_amount o.pending_amount o.confirmed_amount o.canceled_amount
        item.matched_amount item.order_total_cancel,
  )

  -- What the match has made of the row of an order.
  pub record IsMatched (now : ℕ) (item : MatchItem D) (o o' : Order D) : Type 0 where
    pub kept : total o' ≡ total o
    pub param : o'.param ≡ o.param
    pub hash : o'.order_hash ≡ o.order_hash
    pub pending : o'.pending_amount ≡ add o.pending_amount item.matched_amount
    pub available : o'.available_amount ≡ (matched_order now item o).available_amount
    pub sign :
        has_the_same_sign (sub o.available_amount item.matched_amount) o.available_amount ≡ true

module _ {D M T S : Type 0} ⦃dec : Decimal D⦄ ⦃om : OrderedMap M (MemoryOrder D)⦄
    ⦃pt : PriceTree T D (PriceLevel D M)⦄ ⦃db : Database S D⦄ where
  update_order-IsMatched :
      (now : ℕ) (item : MatchItem D) (o o' : Order D) (w w' : World D M T S)
      → has_the_same_sign (sub o.available_amount item.matched_amount) o.available_amount ≡ true
      → update_order now (matched_order now item o) w ≡ (ok o', w')
      → IsMatched now item o o' × (w'.orderbook ≡ w.orderbook)
  unfolding update_order matched_order
  update_order-IsMatched now item o o' w w' s e = (
    record {
      kept = ground (arith, matched_order_total now item o);
      param = ground arith;
      hash = ground arith;
      pending = ground arith;
      available = ground arith;
      sign = s;
    },
    ground arith,
  )

  save_matched-IsMatched :
      (now : ℕ) (item : MatchItem D) (o o' : Order D) (w w' : World D M T S)
      → save_matched now item o w ≡ (ok o', w')
      → IsMatched now item o o' × (w'.orderbook ≡ w.orderbook)
  unfolding save_matched
  save_matched-IsMatched now item o o' w w' e =
      elim (Bool-cases
        (has_the_same_sign (sub o.available_amount item.matched_amount) o.available_amount)) [
          | inl s ↦ update_order-IsMatched now item o o' w w' s (rw s at e)
          | inr s ↦ absurd (ground arith)
        ]

  pub read_row :
      (h : String) (o : Order D) (w v : World D M T S)
      → read (db.get_order h) w ≡ (ok o, v)
      → (db.get_order h w.store ≡ some o) × (v ≡ w)
  read_row h o w v e = elim (Option-cases (db.get_order h w.store)) [
    | inl none_there ↦ absurd (ground arith)
    | inr (x, there) ↦ (ground arith, ground arith)
  ]

  -- If a matched item is written to its order, then the order is one that the database has under the
  -- item's ID; the four amounts of the order add up to what they did; the matched amount is pending;
  -- and the order book is not touched.
  pub execute_item_moves :
      (now : ℕ) (item : MatchItem D) (o' : Order D) (w w' : World D M T S)
      → execute_item now item w ≡ (ok o', w')
      → (o : Order D) × (db.get_order item.order.id w.store ≡ some o)
        × IsMatched now item o o'
        × (w'.orderbook ≡ w.orderbook)
  unfolding execute_item
  execute_item_moves now item o' w w' e =
      let (o, v, first, rest) =
        >>=-eq-ok (read (db.get_order item.order.id)) (save_matched now item) w e in
      let (m, book) = save_matched-IsMatched now item o o' v w' rest in
      let (row, same) = read_row item.order.id o w v first in
      (o, row, m, book ∙ ap (λ x. World.orderbook x) same)
