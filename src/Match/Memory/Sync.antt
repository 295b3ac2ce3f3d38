-- ===== src/Match/Memory/Sync.antt =====
-- What it means that the book agrees with an order of the database.
use mai3_broker.Base.{
  Result, ok, err, ◌≡◌, refl, sym, ap, subst, ◌∙◌, true, false, Option, none, some, inl, inr, ok,
  arith, Bool-cases, eq_refl, if◌then◌else◌,
}
use mai3_broker.Decimal.{Decimal, add, is_negative, is_zero, equal_refl}
use mai3_broker.Order.{Order}
use mai3_broker.Orderbook.Containers.{OrderedMap, PriceTree}
use mai3_broker.Orderbook.Level.{MemoryOrder, PriceLevel}
use mai3_broker.Orderbook.Level.Lookup.{changed}
use mai3_broker.Orderbook.Book
use mai3_broker.Orderbook.Book.{Book}
use mai3_broker.Orderbook.Book.Consistency.{IsBook}
use mai3_broker.Orderbook.Book.Lookup.{
  is_at, same_side_refl, get_order-insert_order_book, get_order-change_order_book,
}
use mai3_broker.Match.World.{World, MatchError, Action, on_book, fail_with, not_found_in_book}
use mai3_broker.Orderbook.Level.{BookError}
use mai3_broker.Match.Memory.{get_memory_order, rollback_orderbook}

module _ {D : Type 0} ⦃dec : Decimal D⦄ where
  pub record IsEntry (m : MemoryOrder D) (o : Order D) : Type 0 where
    pub id : m.id ≡ o.order_hash
    pub price : m.price ≡ o.price
    pub side : is_negative m.amount ≡ is_negative o.amount
    pub amount : m.amount ≡ o.available_amount

  -- An order is looked up where its entry says it is.
  is_at-entry :
      (m : MemoryOrder D) (o : Order D)
      → m.id ≡ o.order_hash
      → m.price ≡ o.price
      → is_negative m.amount ≡ is_negative o.amount
      → is_at m o.order_hash (is_negative o.amount) o.price ≡ true
  is_at-entry m o i p s =
      rw (i, p, s, same_side_refl (is_negative o.amount), equal_refl o.price, eq_refl o.order_hash)

pub some-injective : {A : Type 0} {a b : A} → some a ≡ some b → a ≡ b
some-injective {A} {a} e = ap (λ x. elim x [ none ↦ a | some y ↦ y ]) e

module _ {D M T : Type 0} ⦃dec : Decimal D⦄ ⦃om : OrderedMap M (MemoryOrder D)⦄
    ⦃pt : PriceTree T D (PriceLevel D M)⦄ where
  -- What the book finds for an order of the database.
  abbrev pub entry : Book D M T → Order D → Option (MemoryOrder D)
  entry b o = Book.get_order b o.order_hash (is_negative o.amount) o.price

  abbrev pub IsSynced : Book D M T → Order D → Type 0
  IsSynced b o =
      if is_zero o.available_amount
      then entry b o ≡ none
      else ((m : MemoryOrder D) × (entry b o ≡ some m) × IsEntry m o)

  pub entry-zero :
      (b : Book D M T) (o : Order D)
      → IsSynced b o
      → is_zero o.available_amount ≡ true
      → entry b o ≡ none
  entry-zero b o s z = ground arith

  pub entry-some :
      (b : Book D M T) (o : Order D)
      → IsSynced b o
      → is_zero o.available_amount ≡ false
      → (m : MemoryOrder D) × (entry b o ≡ some m) × IsEntry m o
  entry-some b o s z = rw z at s

  pub IsSynced-zero :
      (b : Book D M T) (o : Order D)
      → is_zero o.available_amount ≡ true
      → entry b o ≡ none
      → IsSynced b o
  IsSynced-zero b o z e = rw z e

  IsSynced-some :
      (b : Book D M T) (o : Order D) (m : MemoryOrder D)
      → is_zero o.available_amount ≡ false
      → entry b o ≡ some m
      → IsEntry m o
      → IsSynced b o
  IsSynced-some b o m z e i = rw z (m, e, i)

  pub insert_sync :
      (b b' : Book D M T) (o : Order D)
      → is_zero o.available_amount ≡ false
      → is_negative o.available_amount ≡ is_negative o.amount
      → Book.insert_order b (get_memory_order o) ≡ ok b'
      → IsSynced b' o
  unfolding get_memory_order
  insert_sync b b' o z s e =
      let m : MemoryOrder D = get_memory_order o in
      let found =
        get_order-insert_order_book b b' m o.order_hash (is_negative o.amount) o.price e in
      let here = is_at-entry m o refl refl s in
      IsSynced-some b' o m z (found.1 ∙ ap (λ t. if t then some m else entry b o) here)
        (record { id = refl; price = refl; side = s; amount = refl })

  pub change_sync :
      (b b' : Book D M T) (o : Order D) (m : MemoryOrder D) (delta : D)
      → IsBook b
      → entry b o ≡ some m
      → m.id ≡ o.order_hash
      → m.price ≡ o.price
      → is_negative m.amount ≡ is_negative o.amount
      → o.available_amount ≡ add m.amount delta
      → (is_zero o.available_amount ≡ false → is_negative o.available_amount ≡ is_negative o.amount)
      → Book.change_order b m delta ≡ ok b'
      → IsSynced b' o
  change_sync b b' o m delta v there i p s a side e =
      let (old, had, found) =
        get_order-change_order_book b b' m delta o.order_hash (is_negative o.amount) o.price v e in
      let here = is_at-entry m o i p s in
      let same : old ≡ m = some-injective (sym had ∙ at_entry ∙ there) in
      let left : entry b' o ≡ changed m delta =
        found
        ∙ ap (λ t. if t then changed old delta else entry b o) here
        ∙ ap (λ x. changed x delta) same in
      elim (Bool-cases (is_zero o.available_amount)) [
        | inl z ↦ IsSynced-zero b' o z (left ∙ gone z)
        | inr z ↦
            IsSynced-some b' o (record m { amount = add m.amount delta }) z (left ∙ stays z)
              (record { id = i; price = p; side = ap is_negative (sym a) ∙ side z; amount = sym a })
      ]
    where
      at_entry : Book.get_order b m.id (is_negative m.amount) m.price ≡ entry b o
      at_entry = λ j. Book.get_order b (i j) (s j) (p j)

      gone : is_zero o.available_amount ≡ true → changed m delta ≡ none
      gone z = rw (sym (ap is_zero a) ∙ z, changed) refl

      stays :
          is_zero o.available_amount ≡ false
          → changed m delta ≡ some (record m { amount = add m.amount delta })
      stays z = rw (sym (ap is_zero a) ∙ z, changed) refl

module _ {D M T S : Type 0} ⦃dec : Decimal D⦄ ⦃om : OrderedMap M (MemoryOrder D)⦄
    ⦃pt : PriceTree T D (PriceLevel D M)⦄ where
  pub on_book-eq-ok :
      (f : Book D M T → Result BookError (Book D M T)) (w w' : World D M T S)
      → on_book f w ≡ (ok tt, w')
      → f w.orderbook ≡ ok w'.orderbook
  on_book-eq-ok f w w' e = go (f w.orderbook) refl e
    where
      go :
          (r : Result BookError (Book D M T))
          → f w.orderbook ≡ r
          → ◌≡◌ {A = Result MatchError (Unit {0}) × World D M T S}
              (elim r [
                | ok b ↦ (ok tt, record w { orderbook = b })
                | err x ↦ (err (MatchError.book x), w)
              ])
              (ok tt, w')
          → f w.orderbook ≡ ok w'.orderbook
      go (ok b) h e = h ∙ ap (λ q. ok (World.orderbook q.1)) e
      go (err x) h e = absurd (cc)

  -- If a book that is well formed agrees with an order, and `delta` is then added to what is available
  -- of it, leaving some of the order's sign, then a rollback of `delta` that succeeds makes the book
  -- agree with the order again.
  pub rollback_orderbook_sync :
      (delta : D) (before after : Order D) (w w' : World D M T S)
      → IsBook w.orderbook
      → IsSynced w.orderbook before
      → after.order_hash ≡ before.order_hash
      → after.price ≡ before.price
      → after.amount ≡ before.amount
      → after.available_amount ≡ add before.available_amount delta
      → is_zero after.available_amount ≡ false
      → is_negative after.available_amount ≡ is_negative after.amount
      → rollback_orderbook before.available_amount delta after w ≡ (ok tt, w')
      → IsSynced w'.orderbook after
  unfolding rollback_orderbook
  rollback_orderbook_sync delta before after w w' v s h p a av nz side e =
      elim (Bool-cases (is_zero before.available_amount)) [
        | inl z ↦ fresh z (subst (λ t. (if t then inserting else changing) w ≡ (ok tt, w')) z e)
        | inr z ↦
            known z (entry-some w.orderbook before s z)
              (subst (λ t. (if t then inserting else changing) w ≡ (ok tt, w')) z e)
      ]
    where
      inserting : Action (World D M T S) (Unit {0})
      inserting = on_book (λ b. Book.insert_order b (get_memory_order after))

      found : Option (MemoryOrder D) → Action (World D M T S) (Unit {0})
      found o = elim o [
        | none ↦ fail_with not_found_in_book
        | some book_order ↦ on_book (λ b. Book.change_order b book_order delta)
      ]

      changing : Action (World D M T S) (Unit {0})
      changing w = found (entry w.orderbook after) w

      fresh :
          is_zero before.available_amount ≡ true
          → inserting w ≡ (ok tt, w')
          → IsSynced w'.orderbook after
      fresh z e =
          insert_sync w.orderbook w'.orderbook after nz side
            (on_book-eq-ok (λ b. Book.insert_order b (get_memory_order after)) w w' e)

      same_entry : entry w.orderbook after ≡ entry w.orderbook before
      same_entry = λ j. Book.get_order w.orderbook (h j) (is_negative (a j)) (p j)

      known :
          is_zero before.available_amount ≡ false
          → (m : MemoryOrder D) × (entry w.orderbook before ≡ some m) × IsEntry m before
          → changing w ≡ (ok tt, w')
          → IsSynced w'.orderbook after
      known z (m, there, i) e =
          let there' = same_entry ∙ there in
          change_sync w.orderbook w'.orderbook after m delta v there' (i.id ∙ sym h)
            (i.price ∙ sym p) (i.side ∙ ap is_negative (sym a))
            (av ∙ ap (λ x. add x delta) (sym i.amount)) (λ _. side)
            (on_book-eq-ok (λ b. Book.change_order b m delta) w w'
              (subst (λ o. found o w ≡ (ok tt, w')) there' e))
