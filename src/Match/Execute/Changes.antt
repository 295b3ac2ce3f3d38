-- ===== src/Match/Execute/Changes.antt =====
-- The changes of the book, one for each matched order.
use mai3_broker.Base.{
  ℕ, ◌≡◌, sym, ap, subst, ◌∙◌, String, false, List, [], ◌∷◌, All, ok, arith, eq_iff, str_eq,
}
use mai3_broker.Decimal.{Decimal}
use mai3_broker.Order.{Order}
use mai3_broker.Orderbook.Containers.{OrderedMap, PriceTree}
use mai3_broker.Orderbook.Level.{MemoryOrder, PriceLevel}
use mai3_broker.Orderbook.Book
use mai3_broker.Orderbook.Book.{Book}
use mai3_broker.Orderbook.Book.Consistency.{IsBook, change_order-IsBook}
use mai3_broker.Match.World.{World, Database, on_book, >>=-eq-ok, pure-eq-ok}
use mai3_broker.Match.Memory.Sync.{IsSynced, entry, on_book-eq-ok}
use mai3_broker.Match.Item.{MatchItem}
use mai3_broker.Match.Execute.{change_items}
use mai3_broker.Match.Execute.Ready.{
  IsReady, change_of, change_item_sync, change_order-entry, IsSynced-entry, IsReady-entry,
}

-- No two items are of one order.
module _ {D : Type 0} where
  abbrev pub OthersThan : String → List (MatchItem D) → Type 0
  OthersThan h is = All (λ (i : MatchItem D). str_eq i.order.id h ≡ false) is

  abbrev Apart : String → List (MatchItem D) → Type 0
  Apart h is = All (λ (i : MatchItem D). str_eq h i.order.id ≡ false) is

  OthersThan-Apart : (h : String) (is : List (MatchItem D)) → OthersThan h is → Apart h is
  OthersThan-Apart h [] a = tt
  OthersThan-Apart h (i ∷ is) a =
      (ground (arith, eq_iff h i.order.id, eq_iff i.order.id h), OthersThan-Apart h is a.1)

  abbrev pub IsDistinct : List (MatchItem D) → Type 0
  IsDistinct [] = Unit
  IsDistinct (i ∷ is) = OthersThan i.order.id is × IsDistinct is

module _ {D M T : Type 0} ⦃dec : Decimal D⦄ ⦃om : OrderedMap M (MemoryOrder D)⦄
    ⦃pt : PriceTree T D (PriceLevel D M)⦄ where
  abbrev pub AllReady : ℕ → Book D M T → List (MatchItem D) → List (Order D) → Type 0
  AllReady now b [] [] = Unit
  AllReady now b [] (o ∷ os) = ⊥
  AllReady now b (i ∷ is) [] = ⊥
  AllReady now b (i ∷ is) (o ∷ os) = IsReady now b i o × AllReady now b is os

  AllReady-entry :
      (now : ℕ) (b b' : Book D M T) (m : MemoryOrder D) (delta : D) (is : List (MatchItem D))
      (os : List (Order D))
      → IsBook b
      → Apart m.id is
      → Book.change_order b m delta ≡ ok b'
      → AllReady now b is os
      → AllReady now b' is os
  AllReady-entry now b b' m delta [] [] v a e r = tt
  AllReady-entry now b b' m delta [] (o ∷ os) v a e r = r
  AllReady-entry now b b' m delta (i ∷ is) [] v a e r = r
  AllReady-entry now b b' m delta (i ∷ is) (o ∷ os) v a e r = (
    IsReady-entry now b b' m delta i o v a.0 e r.0,
    AllReady-entry now b b' m delta is os v a.1 e r.1,
  )

module _ {D M T S : Type 0} ⦃dec : Decimal D⦄ ⦃om : OrderedMap M (MemoryOrder D)⦄
    ⦃pt : PriceTree T D (PriceLevel D M)⦄ ⦃db : Database S D⦄ where
  change_items-next :
      (i : MatchItem D) (is : List (MatchItem D)) (w w' : World D M T S)
      → change_items (i ∷ is) w ≡ (ok tt, w')
      → (v : World D M T S) × (Book.change_order w.orderbook i.order (change_of i) ≡ ok v.orderbook)
        × (change_items is v ≡ (ok tt, w'))
  unfolding change_items
  change_items-next i is w w' e =
      let f = λ (b : Book D M T). Book.change_order b i.order (change_of i) in
      let (_, v, first, rest) = >>=-eq-ok (on_book f) (λ _. change_items is) w e in
      (v, on_book-eq-ok f w v first, rest)

  -- The other orders are not touched.
  change_items-others :
      (is : List (MatchItem D)) (o : Order D) (w w' : World D M T S)
      → IsBook w.orderbook
      → OthersThan o.order_hash is
      → change_items is w ≡ (ok tt, w')
      → entry w'.orderbook o ≡ entry w.orderbook o
  unfolding change_items
  change_items-others [] o w w' v a e =
      ap (λ x. entry (World.orderbook x) o) (sym (pure-eq-ok tt tt w w' e).1)
  change_items-others (i ∷ is) o w w' v a e =
      let (u, first, rest) = change_items-next i is w w' e in
      change_items-others is o u w'
        (change_order-IsBook w.orderbook u.orderbook i.order (change_of i) v first) a.1 rest
      ∙ change_order-entry w.orderbook u.orderbook i.order (change_of i) o v a.0 first

  pub change_items_sync :
      (now : ℕ) (is : List (MatchItem D)) (os : List (Order D)) (w w' : World D M T S)
      → IsBook w.orderbook
      → IsDistinct is
      → AllReady now w.orderbook is os
      → change_items is w ≡ (ok tt, w')
      → IsBook w'.orderbook × All (IsSynced w'.orderbook) os
  unfolding change_items
  change_items_sync now [] [] w w' v d r e =
      (subst (λ (x : World D M T S). IsBook x.orderbook) (pure-eq-ok tt tt w w' e).1 v, tt)
  change_items_sync now [] (o ∷ os) w w' v d r e = absurd r
  change_items_sync now (i ∷ is) [] w w' v d r e = absurd r
  change_items_sync now (i ∷ is) (o ∷ os) w w' v d r e =
      let (u, first, rest) = change_items-next i is w w' e in
      let v' = change_order-IsBook w.orderbook u.orderbook i.order (change_of i) v first in
      let (book, others) =
        change_items_sync now is os u w' v' d.1
          (AllReady-entry now w.orderbook u.orderbook i.order (change_of i) is os v
            (OthersThan-Apart i.order.id is d.0) first r.1)
          rest in
      let here = change_item_sync now w.orderbook u.orderbook i o v r.0 first in
      let same : o.order_hash ≡ i.order.id = r.0.matched.hash ∙ sym r.0.is_entry.id in
      (
        book,
        (
          IsSynced-entry u.orderbook w'.orderbook o
              (change_items-others is o u w' v' (subst (λ h. OthersThan h is) (sym same) d.0) rest)
              here,
          others,
        ),
      )
