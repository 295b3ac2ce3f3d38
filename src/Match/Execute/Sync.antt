-- ===== src/Match/Execute/Sync.antt =====
-- The book and the database after the execution of a round.
use mai3_broker.Base.{
  ℕ, ◌≡◌, sym, ap, subst, ◌∙◌, String, false, List, [], ◌∷◌, All, some, ok, arith, eq_iff, str_eq,
}
use mai3_broker.Decimal.{Decimal, is_zero}
use mai3_broker.Order.{Order, status_by_amounts}
use mai3_broker.Orderbook.Containers.{OrderedMap, PriceTree}
use mai3_broker.Orderbook.Level.{MemoryOrder, PriceLevel}
use mai3_broker.Orderbook.Book.Consistency.{IsBook}
use mai3_broker.Match.World.{
  marshal_cancel_reason, World, Database, Action, write, read, pure, ◌>>=◌, ◌>>◌, >>=-eq-ok,
  pure-eq-ok,
}
use mai3_broker.Match.Chain.{Perpetual}
use mai3_broker.Match.Memory.Sync.{IsEntry, IsSynced, entry, some-injective}
use mai3_broker.Match.Item.{MatchItem}
use mai3_broker.Match.Item.Amounts.{CancelsRest}
use mai3_broker.Match.Execute.{
  matched_order, save_matched, execute_item, execute_items, change_items, execute_body,
  new_transaction, sent_items,
}
use mai3_broker.Match.Execute.Balance.{IsMatched, execute_item_moves, read_row}
use mai3_broker.Match.Execute.Changes.{OthersThan, IsDistinct, AllReady, change_items_sync}
use mai3_broker.Match.Execute.Ready.{IsReady}

-- A write of one row leaves the others.
abbrev pub KeepsRows : (S D : Type 0) → ⦃db : Database S D⦄ → Type 0
KeepsRows S D ⦃db⦄ =
    (h : String) (o : Order D) (s s' : S)
    → db.save_order o s ≡ some s'
    → str_eq o.order_hash h ≡ false
    → db.get_order h s' ≡ db.get_order h s

module _ {D M T S : Type 0} ⦃dec : Decimal D⦄ ⦃om : OrderedMap M (MemoryOrder D)⦄
    ⦃pt : PriceTree T D (PriceLevel D M)⦄ ⦃db : Database S D⦄ where
  -- The item is of an order that the database has, and that the book holds as it was matched.
  pub record InStep (w : World D M T S) (item : MatchItem D) : Type 0 where
    pub order : Order D
    pub row : db.get_order item.order.id w.store ≡ some order
    pub there : entry w.orderbook order ≡ some item.order
    pub is_entry : IsEntry item.order order
    pub available : is_zero order.available_amount ≡ false
    pub rest : CancelsRest item

  save_matched-row :
      (now : ℕ) (item : MatchItem D) (o o' : Order D) (w w' : World D M T S)
      → save_matched now item o w ≡ (ok o', w')
      → (x : Order D) × (x.order_hash ≡ o.order_hash) × (db.save_order x w.store ≡ some w'.store)
  unfolding save_matched
  save_matched-row now item o o' w w' e =
      let x : Order D = record (marshal_cancel_reason (matched_order now item o)) {
        status = status_by_amounts (matched_order now item o);
        updated_at = now;
      } in
      (x, ground arith, ground arith)

  execute_item-row :
      (now : ℕ) (item : MatchItem D) (o o' : Order D) (w w' : World D M T S)
      → db.get_order item.order.id w.store ≡ some o
      → execute_item now item w ≡ (ok o', w')
      → (x : Order D) × (x.order_hash ≡ o.order_hash) × (db.save_order x w.store ≡ some w'.store)
  unfolding execute_item
  execute_item-row now item o o' w w' row e =
      let (o2, v, first, rest) =
        >>=-eq-ok (read (db.get_order item.order.id)) (save_matched now item) w e in
      let (row2, same) = read_row item.order.id o2 w v first in
      let (x, hash, saved) = save_matched-row now item o2 o' v w' rest in
      let same_order : o2 ≡ o = some-injective (sym row2 ∙ row) in
      (
        x,
        hash ∙ ap (λ y. Order.order_hash y) same_order,
        subst (λ (y : World D M T S). db.save_order x y.store ≡ some w'.store) same saved,
      )

  execute_item-IsReady :
      (now : ℕ) (item : MatchItem D) (o' : Order D) (w w' : World D M T S)
      → InStep w item
      → execute_item now item w ≡ (ok o', w')
      → IsReady now w.orderbook item o' × (w'.orderbook ≡ w.orderbook)
  execute_item-IsReady now item o' w w' s e =
      let (o2, row, matched, book) = execute_item_moves now item o' w w' e in
      let same : o2 ≡ s.order = some-injective (sym row ∙ s.row) in
      (
        record {
          before = s.order;
          there = s.there;
          is_entry = s.is_entry;
          available = s.available;
          rest = s.rest;
          matched = subst (λ o. IsMatched now item o o') same matched;
        },
        book,
      )

  InStep-next :
      (now : ℕ) (item other : MatchItem D) (o' : Order D) (w w' : World D M T S)
      → KeepsRows S D
      → InStep w item
      → execute_item now item w ≡ (ok o', w')
      → str_eq other.order.id item.order.id ≡ false
      → InStep w other
      → InStep w' other
  InStep-next now item other o' w w' keeps s e apart t =
      let (x, hash, saved) = execute_item-row now item s.order o' w w' s.row e in
      let book = (execute_item-IsReady now item o' w w' s e).1 in
      let key : x.order_hash ≡ item.order.id = hash ∙ sym s.is_entry.id in
      let differs : str_eq x.order_hash other.order.id ≡ false =
        ground (arith, eq_iff x.order_hash other.order.id, eq_iff other.order.id item.order.id) in
      record {
        order = t.order;
        row = keeps other.order.id x w.store w'.store saved differs ∙ t.row;
        there = ap (λ b. entry b t.order) book ∙ t.there;
        is_entry = t.is_entry;
        available = t.available;
        rest = t.rest;
      }

  AllInStep-next :
      (now : ℕ) (item : MatchItem D) (o' : Order D) (w w' : World D M T S) (is : List (MatchItem D))
      → KeepsRows S D
      → InStep w item
      → execute_item now item w ≡ (ok o', w')
      → OthersThan item.order.id is
      → All (InStep w) is
      → All (InStep w') is
  AllInStep-next now item o' w w' [] keeps s e d t = tt
  AllInStep-next now item o' w w' (i ∷ is) keeps s e d t = (
    InStep-next now item i o' w w' keeps s e d.0 t.0,
    AllInStep-next now item o' w w' is keeps s e d.1 t.1,
  )

  execute_items-AllReady :
      (now : ℕ) (is : List (MatchItem D)) (os : List (Order D)) (w w' : World D M T S)
      → KeepsRows S D
      → IsDistinct is
      → All (InStep w) is
      → execute_items now is w ≡ (ok os, w')
      → AllReady now w.orderbook is os × (w'.orderbook ≡ w.orderbook)
  unfolding execute_items
  execute_items-AllReady now [] os w w' keeps d s e =
      let (none_there, same) = pure-eq-ok [] os w w' e in
      (subst (AllReady now w.orderbook []) none_there tt, ap (λ x. World.orderbook x) (sym same))
  execute_items-AllReady now (i ∷ is) os w w' keeps d s e =
      let (o, v, first, rest) =
        >>=-eq-ok (execute_item now i) (λ o. execute_items now is >>= λ os. pure (o ∷ os)) w e in
      let (more, u, others, last) = >>=-eq-ok (execute_items now is) (λ os. pure (o ∷ os)) v rest in
      let (r, book) = execute_item-IsReady now i o w v s.0 first in
      let (rs, book') =
        execute_items-AllReady now is more v u keeps d.1
          (AllInStep-next now i o w v is keeps s.0 first d.0 s.1) others in
      let (listed, same) = pure-eq-ok (o ∷ more) os u w' last in
      (
        subst (AllReady now w.orderbook (i ∷ is)) listed
            (r, subst (λ b. AllReady now b is more) book rs),
        ap (λ x. World.orderbook x) (sym same) ∙ book' ∙ book,
      )

  -- Take matched items of different orders, each an order that the database has and that a well
  -- formed book holds as it was matched. If they are written in one transaction, in a database where
  -- a write of one row leaves the others, then the book is well formed, and it agrees with every
  -- order as it was written.
  pub execute_body_sync :
      (now : ℕ) (perpetual : Perpetual) (broker id : String) (is : List (MatchItem D))
      (os : List (Order D)) (w w' : World D M T S)
      → KeepsRows S D
      → IsBook w.orderbook
      → IsDistinct is
      → All (InStep w) is
      → execute_body now perpetual broker id is w ≡ (ok os, w')
      → IsBook w'.orderbook × All (IsSynced w'.orderbook) os
  unfolding execute_body
  execute_body_sync now perpetual broker id is os w w' keeps v d s e =
      let (written, w1, first, rest) = >>=-eq-ok (execute_items now is) after w e in
      let (_, w2, created, rest2) =
        >>=-eq-ok (creating written) (λ _. change_items is >> pure written) w1 rest in
      let (_, w3, changed, last) = >>=-eq-ok (change_items is) (λ _. pure written) w2 rest2 in
      let (r, book) = execute_items-AllReady now is written w w1 keeps d s first in
      let book2 : w2.orderbook ≡ w.orderbook = create_book written w1 w2 created ∙ book in
      let (done, same) = pure-eq-ok written os w3 w' last in
      let (v', synced) =
        change_items_sync now is written w2 w3 (subst IsBook (sym book2) v) d
          (subst (λ b. AllReady now b is written) (sym book2) r) changed in
      (
        subst (λ (x : World D M T S). IsBook x.orderbook) same v',
        subst (All (IsSynced w'.orderbook)) done
            (subst (λ (x : World D M T S). All (IsSynced x.orderbook) written) same synced),
      )
    where
      creating : List (Order D) → Action (World D M T S) (Unit {0})
      creating orders =
          write (db.create_match (new_transaction now perpetual broker id (sent_items is orders)))

      after : List (Order D) → Action (World D M T S) (List (Order D))
      after orders = creating orders >> (change_items is >> pure orders)

      create_book :
          (orders : List (Order D)) (w w' : World D M T S)
          → creating orders w ≡ (ok tt, w')
          → w'.orderbook ≡ w.orderbook
      create_book orders w w' e = ground arith
