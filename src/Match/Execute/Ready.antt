-- ===== src/Match/Execute/Ready.antt =====
-- One matched order: the row that was written, and the change of the book's entry.
use mai3_broker.Base.{
  ℕ, ◌+◌, ◌≡◌, sym, ap, subst, ◌∙◌, ◌⊎◌, true, false, none, some, ok, arith, str_eq, if◌then◌else◌,
}
use mai3_broker.Decimal.{
  Decimal, zero, add, sub, neg, digits, exact, eq_of_units, equal→eq, equal_refl, is_zero,
  is_negative,
}
use mai3_broker.Amount.{has_the_same_sign}
use mai3_broker.Order.{Order, OrderParam}
use mai3_broker.Orderbook.Containers.{OrderedMap, PriceTree}
use mai3_broker.Orderbook.Level.{MemoryOrder, PriceLevel}
use mai3_broker.Orderbook.Book
use mai3_broker.Orderbook.Book.{Book}
use mai3_broker.Orderbook.Book.Consistency.{IsBook}
use mai3_broker.Orderbook.Book.Lookup.{get_order-change_order_book}
use mai3_broker.Match.Memory.Sync.{IsEntry, IsSynced, entry, change_sync}
use mai3_broker.Match.Item.{MatchItem}
use mai3_broker.Match.Item.Amounts.{CancelsRest}
use mai3_broker.Match.Execute.{matched_order}
use mai3_broker.Match.Execute.Balance.{IsMatched}

module _ {D : Type 0} ⦃dec : Decimal D⦄ where
  same_sign-side :
      (x y : D)
      → has_the_same_sign x y ≡ true
      → is_zero x ≡ false
      → is_zero y ≡ false
      → is_negative x ≡ is_negative y
  unfolding has_the_same_sign
  same_sign-side x y s h h' = ground arith

  left_in_book : (a m t : D) → sub (sub a m) t ≡ add a (neg (add m t))
  left_in_book a m t =
      let k = digits a + digits m + digits t in
      eq_of_units k _ _ (omega exact) (omega exact) (omega exact)

  left_in_book_zero : (a m : D) → sub a m ≡ add a (neg (add m zero))
  left_in_book_zero a m =
      let k = digits a + digits m in eq_of_units k _ _ (omega exact) (omega exact) (omega exact)

  sub_self_zero : (a : D) → is_zero (sub a a) ≡ true
  sub_self_zero a = ap is_zero same ∙ equal_refl (zero {D = D})
    where
      same : sub a a ≡ zero
      same = let k = digits a in eq_of_units k _ _ (omega exact) (omega exact) (omega exact)

  matched_order-available :
      (now : ℕ) (item : MatchItem D) (o : Order D)
      → (matched_order now item o).available_amount
        ≡ add o.available_amount (neg (add item.matched_amount item.order_total_cancel))
  unfolding matched_order
  matched_order-available now item o = ground (
    arith,
    left_in_book o.available_amount item.matched_amount item.order_total_cancel,
    left_in_book_zero o.available_amount item.matched_amount,
    equal→eq item.order_total_cancel zero,
  )

  left_side :
      (a x t : D)
      → (t ≡ sub a x) ⊎ (t ≡ zero)
      → has_the_same_sign (sub a x) a ≡ true
      → is_zero a ≡ false
      → let left = if is_zero t then sub a x else sub (sub a x) t in
        is_zero left ≡ false → is_negative left ≡ is_negative a
  left_side a x t c s nz =
      ground
        (arith, sub_self_zero (sub a x), same_sign-side (sub a x) a s, equal_refl (zero {D = D}))

  -- What is left is of the order's side: a remainder that is canceled leaves nothing.
  matched_order-side :
      (now : ℕ) (item : MatchItem D) (o : Order D)
      → CancelsRest item
      → item.order.amount ≡ o.available_amount
      → is_zero o.available_amount ≡ false
      → has_the_same_sign (sub o.available_amount item.matched_amount) o.available_amount ≡ true
      → is_zero (matched_order now item o).available_amount ≡ false
      → is_negative (matched_order now item o).available_amount ≡ is_negative o.available_amount
  unfolding matched_order
  matched_order-side now item o c same nz s left =
      let rest =
        subst
          (λ a.
            (item.order_total_cancel ≡ sub a item.matched_amount)
            ⊎ (item.order_total_cancel ≡ zero))
          same c in
      ground
        (arith, left_side o.available_amount item.matched_amount item.order_total_cancel rest s nz)

  abbrev pub change_of : MatchItem D → D
  change_of item = neg (add item.matched_amount item.order_total_cancel)

module _ {D M T : Type 0} ⦃dec : Decimal D⦄ ⦃om : OrderedMap M (MemoryOrder D)⦄
    ⦃pt : PriceTree T D (PriceLevel D M)⦄ where
  -- The book still has the order of an item as the match found it, and the row is written.
  pub record IsReady (now : ℕ) (b : Book D M T) (item : MatchItem D) (o' : Order D) : Type 0 where
    pub before : Order D
    pub there : entry b before ≡ some item.order
    pub is_entry : IsEntry item.order before
    pub available : is_zero before.available_amount ≡ false
    pub rest : CancelsRest item
    pub matched : IsMatched now item before o'

  pub change_item_sync :
      (now : ℕ) (b b' : Book D M T) (item : MatchItem D) (o' : Order D)
      → IsBook b
      → IsReady now b item o'
      → Book.change_order b item.order (change_of item) ≡ ok b'
      → IsSynced b' o'
  change_item_sync now b b' item o' v r e =
      let o = r.before in
      let m = item.order in
      let i = r.is_entry in
      let hash = r.matched.hash in
      let price : o'.price ≡ o.price = ap (λ p. OrderParam.price p) r.matched.param in
      let amount : o'.amount ≡ o.amount = ap (λ p. OrderParam.amount p) r.matched.param in
      let entry' : entry b o' ≡ some m =
        (λ j. Book.get_order b (hash j) (is_negative (amount j)) (price j)) ∙ r.there in
      let left : o'.available_amount ≡ add m.amount (change_of item) =
        r.matched.available
        ∙ matched_order-available now item o
        ∙ ap (λ a. add a (change_of item)) (sym i.amount) in
      let side : is_zero o'.available_amount ≡ false
          → is_negative o'.available_amount ≡ is_negative o'.amount =
        λ nz.
          ap is_negative r.matched.available
          ∙ matched_order-side now item o r.rest i.amount r.available r.matched.sign
              (ap is_zero (sym r.matched.available) ∙ nz)
          ∙ ap is_negative (sym i.amount)
          ∙ i.side
          ∙ ap is_negative (sym amount) in
      change_sync b b' o' m (change_of item) v entry' (i.id ∙ sym hash) (i.price ∙ sym price)
        (i.side ∙ ap is_negative (sym amount)) left side e

  -- A change of one order leaves what the book finds for another.
  pub change_order-entry :
      (b b' : Book D M T) (m : MemoryOrder D) (delta : D) (o : Order D)
      → IsBook b
      → str_eq m.id o.order_hash ≡ false
      → Book.change_order b m delta ≡ ok b'
      → entry b' o ≡ entry b o
  change_order-entry b b' m delta o v other e =
      let (old, had, found) =
        get_order-change_order_book b b' m delta o.order_hash (is_negative o.amount) o.price v e in
      ground arith

  pub IsSynced-entry :
      (b b' : Book D M T) (o : Order D) → entry b' o ≡ entry b o → IsSynced b o → IsSynced b' o
  IsSynced-entry b b' o e s =
      subst
        (λ x.
          if is_zero o.available_amount
          then x ≡ none
          else ((m : MemoryOrder D) × (x ≡ some m) × IsEntry m o))
        (sym e) s

  pub IsReady-entry :
      (now : ℕ) (b b' : Book D M T) (m : MemoryOrder D) (delta : D) (item : MatchItem D)
      (o' : Order D)
      → IsBook b
      → str_eq m.id item.order.id ≡ false
      → Book.change_order b m delta ≡ ok b'
      → IsReady now b item o'
      → IsReady now b' item o'
  IsReady-entry now b b' m delta item o' v other e r = record {
    before = r.before;
    there =
        change_order-entry b b' m delta r.before v (ap (str_eq m.id) (sym r.is_entry.id) ∙ other) e
        ∙ r.there;
    is_entry = r.is_entry;
    available = r.available;
    rest = r.rest;
    matched = r.matched;
  }
