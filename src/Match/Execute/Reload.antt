-- ===== src/Match/Execute/Reload.antt =====
-- The book that the pending orders are loaded into.
use mai3_broker.Base.{
  ℕ, ◌≡◌, refl, sym, ap, subst, ◌∙◌, String, Bool, true, false, List, [], ◌∷◌, All, none, some, ok,
  inl, inr, arith, eq_iff, Bool-cases, str_eq,
}
use mai3_broker.Decimal.{Decimal, is_zero, is_negative}
use mai3_broker.Order.{Order}
use mai3_broker.Orderbook.Containers.{OrderedMap, PriceTree}
use mai3_broker.Orderbook.Level.{MemoryOrder, PriceLevel}
use mai3_broker.Orderbook.Book
use mai3_broker.Orderbook.Book.{Book}
use mai3_broker.Orderbook.Book.Consistency.{IsBook, insert_order-IsBook, new_orderbook-IsBook}
use mai3_broker.Orderbook.Book.Lookup.{get_order-insert_order_book}
use mai3_broker.Match.World.{World, Database, read, on_book, >>=-eq-ok, pure-eq-ok}
use mai3_broker.Match.Memory.{get_memory_order}
use mai3_broker.Match.Memory.Sync.{IsSynced, IsSynced-zero, entry, on_book-eq-ok, insert_sync}
use mai3_broker.Match.Execute.{load_order, load_orders, reload_active_orders, set_expiration_timer}
use mai3_broker.Match.Execute.Ready.{IsSynced-entry}

module _ {D : Type 0} ⦃dec : Decimal D⦄ where
  abbrev Others : String → List (Order D) → Type 0
  Others h os = All (λ (o : Order D). str_eq h o.order_hash ≡ false) os

  -- No two orders have one hash.
  abbrev pub AreDistinct : List (Order D) → Type 0
  AreDistinct [] = Unit
  AreDistinct (o ∷ os) = Others o.order_hash os × AreDistinct os

  -- What is available of an order is on the order's side.
  abbrev pub HasSide : Order D → Type 0
  HasSide o =
      is_zero o.available_amount ≡ false → is_negative o.available_amount ≡ is_negative o.amount

module _ {D M T : Type 0} ⦃dec : Decimal D⦄ ⦃om : OrderedMap M (MemoryOrder D)⦄
    ⦃pt : PriceTree T D (PriceLevel D M)⦄ where
  insert_order-entry :
      (b b' : Book D M T) (x o : Order D)
      → str_eq x.order_hash o.order_hash ≡ false
      → Book.insert_order b (get_memory_order x) ≡ ok b'
      → entry b' o ≡ entry b o
  unfolding get_memory_order
  insert_order-entry b b' x o other e =
      let found =
        get_order-insert_order_book b b' (get_memory_order x) o.order_hash (is_negative o.amount)
          o.price e in
      ground arith

  -- What loading one order does to the book.
  record IsLoaded (b b' : Book D M T) (x : Order D) : Type 0 where
    book : IsBook b → IsBook b'
    here : HasSide x → entry b x ≡ none → IsSynced b' x
    other : (o : Order D) → str_eq x.order_hash o.order_hash ≡ false → entry b' o ≡ entry b o

  abbrev NotIn : Book D M T → List (Order D) → Type 0
  NotIn b os = All (λ (o : Order D). entry b o ≡ none) os

  NotIn-next :
      (b b' : Book D M T) (x : Order D) (os : List (Order D))
      → IsLoaded b b' x
      → Others x.order_hash os
      → NotIn b os
      → NotIn b' os
  NotIn-next b b' x [] l d n = tt
  NotIn-next b b' x (o ∷ os) l d n = (l.other o d.0 ∙ n.0, NotIn-next b b' x os l d.1 n.1)

  empty_book-NotIn : (b : Book D M T) (os : List (Order D)) → b ≡ Book.new_orderbook → NotIn b os
  unfolding Book.new_orderbook Book.get_order
  empty_book-NotIn b [] e = tt
  empty_book-NotIn b (o ∷ os) e =
      (ap (λ x. entry x o) e ∙ empty_side o (is_negative o.amount), empty_book-NotIn b os e)
    where
      empty_side :
          (o : Order D) (side : Bool)
          → Book.get_order {D = D} {M = M} {T = T} Book.new_orderbook o.order_hash side o.price
            ≡ none
      empty_side o true = ground (arith, pt.get-new o.price)
      empty_side o false = ground (arith, pt.get-new o.price)

module _ {D M T S : Type 0} ⦃dec : Decimal D⦄ ⦃om : OrderedMap M (MemoryOrder D)⦄
    ⦃pt : PriceTree T D (PriceLevel D M)⦄ ⦃db : Database S D⦄ where
  pub timer-book :
      (now : ℕ) (h : String) (at : ℕ) (v w' : World D M T S)
      → set_expiration_timer now h at v ≡ (ok tt, w')
      → v.orderbook ≡ w'.orderbook
  unfolding set_expiration_timer
  timer-book now h at v w' e = ground arith

  load_order-IsLoaded :
      (now : ℕ) (x : Order D) (w w' : World D M T S)
      → load_order now x w ≡ (ok tt, w')
      → IsLoaded w.orderbook w'.orderbook x
  unfolding load_order
  load_order-IsLoaded now x w w' e = elim (Bool-cases (is_zero x.available_amount)) [
    | inl z ↦
        let same : w.orderbook ≡ w'.orderbook = ground arith in
        subst (λ b. IsLoaded w.orderbook b x) same
          (record {
            book = λ v. v;
            here = λ s n. IsSynced-zero w.orderbook x z n;
            other = λ o d. refl;
          })
    | inr z ↦
        let insert_it = λ (b : Book D M T). Book.insert_order b (get_memory_order x) in
        let (_, v, first, rest) =
          >>=-eq-ok (on_book insert_it) (λ _. set_expiration_timer now x.order_hash x.expires_at) w
            (rw z at e) in
        let inserted = on_book-eq-ok insert_it w v first in
        let same = timer-book now x.order_hash x.expires_at v w' rest in
        subst (λ b. IsLoaded w.orderbook b x) same
          (record {
            book = λ b. insert_order-IsBook w.orderbook v.orderbook (get_memory_order x) b inserted;
            here = λ s n. insert_sync w.orderbook v.orderbook x z (s z) inserted;
            other = λ o d. insert_order-entry w.orderbook v.orderbook x o d inserted;
          })
  ]

  load_orders-next :
      (now : ℕ) (x : Order D) (os : List (Order D)) (w w' : World D M T S)
      → load_orders now (x ∷ os) w ≡ (ok tt, w')
      → (v : World D M T S) × IsLoaded w.orderbook v.orderbook x
        × (load_orders now os v ≡ (ok tt, w'))
  unfolding load_orders
  load_orders-next now x os w w' e =
      let (_, v, first, rest) = >>=-eq-ok (load_order now x) (λ _. load_orders now os) w e in
      (v, load_order-IsLoaded now x w v first, rest)

  load_orders-entry :
      (now : ℕ) (os : List (Order D)) (o : Order D) (w w' : World D M T S)
      → Others o.order_hash os
      → load_orders now os w ≡ (ok tt, w')
      → entry w'.orderbook o ≡ entry w.orderbook o
  unfolding load_orders
  load_orders-entry now [] o w w' d e =
      ap (λ x. entry (World.orderbook x) o) (sym (pure-eq-ok tt tt w w' e).1)
  load_orders-entry now (x ∷ os) o w w' d e =
      let (v, loaded, rest) = load_orders-next now x os w w' e in
      load_orders-entry now os o v w' d.1 rest
      ∙ loaded.other o
          (ground (arith, eq_iff x.order_hash o.order_hash, eq_iff o.order_hash x.order_hash))

  load_orders_sync :
      (now : ℕ) (os : List (Order D)) (w w' : World D M T S)
      → IsBook w.orderbook
      → AreDistinct os
      → All HasSide os
      → NotIn w.orderbook os
      → load_orders now os w ≡ (ok tt, w')
      → IsBook w'.orderbook × All (IsSynced w'.orderbook) os
  unfolding load_orders
  load_orders_sync now [] w w' v d h n e =
      (subst (λ (x : World D M T S). IsBook x.orderbook) (pure-eq-ok tt tt w w' e).1 v, tt)
  load_orders_sync now (x ∷ os) w w' v d h n e =
      let (u, l, rest) = load_orders-next now x os w w' e in
      let (book, others) =
        load_orders_sync now os u w' (l.book v) d.1 h.1
          (NotIn-next w.orderbook u.orderbook x os l d.0 n.1) rest in
      (
        book,
        (
          IsSynced-entry u.orderbook w'.orderbook x (load_orders-entry now os x u w' d.0 rest)
              (l.here h.0 n.0),
          others,
        ),
      )

  -- Take a fresh book, and pending orders of different hashes, each with what is available on the
  -- order's side. If reloading succeeds, the book is well formed and agrees with every one of them.
  pub reload_active_orders_sync :
      (now : ℕ) (os : List (Order D)) (w w' : World D M T S)
      → w.orderbook ≡ Book.new_orderbook
      → db.query_pending_orders w.store ≡ some os
      → AreDistinct os
      → All HasSide os
      → reload_active_orders now w ≡ (ok tt, w')
      → IsBook w'.orderbook × All (IsSynced w'.orderbook) os
  unfolding reload_active_orders
  reload_active_orders_sync now os w w' fresh pending d h e =
      let (os2, v, first, rest) = >>=-eq-ok (read db.query_pending_orders) (load_orders now) w e in
      let (same, there) = read_pending os os2 w v pending first in
      load_orders_sync now os w w' (new_orderbook-IsBook w.orderbook fresh) d h
        (empty_book-NotIn w.orderbook os fresh)
        (subst (λ (x : World D M T S). load_orders now os x ≡ (ok tt, w')) there
          (subst (λ l. load_orders now l v ≡ (ok tt, w')) same rest))
    where
      read_pending :
          (os os2 : List (Order D)) (w v : World D M T S)
          → db.query_pending_orders w.store ≡ some os
          → read db.query_pending_orders w ≡ (ok os2, v)
          → (os2 ≡ os) × (v ≡ w)
      read_pending os os2 w v row e = ground arith
