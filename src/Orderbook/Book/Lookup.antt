-- ===== src/Orderbook/Book/Lookup.antt =====
-- Which order the book finds after each operation. An order is found by its side, price and ID.
use mai3_broker.Base.{
  String, ◌≡◌, refl, sym, ◌∙◌, insert, subst, Bool, true, false, ◌&&◌, none, some, inl, inr, ok,
  arith, Option-cases, str_eq, if◌then◌else◌, >>=-eq-ok, ok-injective, or_fail-eq-ok, lookup,
  length, Dict, [], ◌∷◌,
}
use mai3_broker.Decimal.{Decimal, equal, equal→eq, equal_refl, is_negative, to_string}
use mai3_broker.Orderbook.Containers.{OrderedMap, PriceTree}
use mai3_broker.Orderbook.Level
use mai3_broker.Orderbook.Level.{MemoryOrder, PriceLevel}
use mai3_broker.Orderbook.Level.Lookup.{
  changed, get_order-insert_order, get_order-change_order, get_order-new_price_level,
}
use mai3_broker.Orderbook.Book.{
  Book, tree_of, prices_of, with_side, level_at, get_order, insert_order, change_order, write_level,
}
use mai3_broker.Orderbook.Book.Consistency.{IsBook, get-put, get-delete, IsSide-of}

abbrev pub same_side : Bool → Bool → Bool
same_side true s = s
same_side false true = false
same_side false false = true

-- The order is looked for at its side and price, under its ID.
abbrev pub is_at : {D : Type 0} ⦃dec : Decimal D⦄ → MemoryOrder D → String → Bool → D → Bool
is_at o id is_ask price =
    same_side (is_negative o.amount) is_ask && equal o.price price && str_eq o.id id

same_side-eq : (a b : Bool) → same_side a b ≡ true → a ≡ b
same_side-eq true true e = refl
same_side-eq true false e = cc
same_side-eq false true e = cc
same_side-eq false false e = refl

pub same_side_refl : (a : Bool) → same_side a a ≡ true
same_side_refl true = refl
same_side_refl false = refl

lookup_empty : {V : Type 0} (k : String) (m : Dict V) → length m ≡ 0 → lookup k m ≡ none
lookup_empty k [] e = refl
lookup_empty k (x ∷ m) e = absurd (omega arith)

module _ {D M : Type 0} ⦃dec : Decimal D⦄ ⦃om : OrderedMap M (MemoryOrder D)⦄ where
  level_empty : (l : PriceLevel D M) (j : String) → Level.len l ≡ 0 → Level.get_order l j ≡ none
  unfolding Level.len Level.get_order
  level_empty l j e = ground (
    arith,
    om.get-lookup j l.order_map,
    om.len-entries l.order_map,
    lookup_empty j (om.entries l.order_map),
  )

module _ {D M T : Type 0} ⦃dec : Decimal D⦄ ⦃om : OrderedMap M (MemoryOrder D)⦄
    ⦃pt : PriceTree T D (PriceLevel D M)⦄ where
  get_order-with_side :
      (ask : Bool) (p : D) (l : PriceLevel D M) (ps : Dict (Unit {0})) (b : Book D M T)
      (id : String) (side : Bool) (q : D)
      → get_order (with_side ask (pt.put p l (tree_of ask b)) ps b) id side q
        ≡ (if same_side ask side && equal p q then Level.get_order l id else get_order b id side q)
  unfolding get_order
  get_order-with_side true p l ps b id true q = ground (arith, get-put p q l b.asks_tree)
  get_order-with_side true p l ps b id false q = ground arith
  get_order-with_side false p l ps b id true q = ground arith
  get_order-with_side false p l ps b id false q = ground (arith, get-put p q l b.bids_tree)

  get_order_at :
      (ask side : Bool) (p q : D) (l : PriceLevel D M) (b : Book D M T) (id : String)
      → pt.get p (tree_of ask b) ≡ some l
      → same_side ask side ≡ true
      → equal p q ≡ true
      → get_order b id side q ≡ Level.get_order l id
  unfolding get_order
  get_order_at ask side p q l b id there s e =
      rw (← same_side-eq ask side s, ← equal→eq p q e) (rw (there, get_order))

  get_order-write_level :
      (is_ask : Bool) (p : D) (l : PriceLevel D M) (b : Book D M T) (id : String) (ask : Bool)
      (q : D)
      → get_order (write_level is_ask p l b) id ask q
        ≡ (if same_side is_ask ask && equal p q then Level.get_order l id else get_order b id ask q)
  unfolding get_order write_level
  get_order-write_level true p l b id true q = ground (
    arith,
    get-put p q l b.asks_tree,
    get-delete {L = PriceLevel D M} p q (pt.put p l b.asks_tree),
    level_empty l id,
  )
  get_order-write_level true p l b id false q = ground arith
  get_order-write_level false p l b id true q = ground arith
  get_order-write_level false p l b id false q = ground (
    arith,
    get-put p q l b.bids_tree,
    get-delete {L = PriceLevel D M} p q (pt.put p l b.bids_tree),
    level_empty l id,
  )

  get_order-level_at :
      (ask side : Bool) (p q : D) (b : Book D M T) (id : String)
      → same_side ask side ≡ true
      → equal p q ≡ true
      → get_order b id side q ≡ Level.get_order (level_at {M = M} p (tree_of ask b)) id
  unfolding get_order
  get_order-level_at ask side p q b id s e =
      rw (← same_side-eq ask side s, ← equal→eq p q e)
        (elim (Option-cases (pt.get p (tree_of ask b))) [
          | inl missing ↦
              rw (missing, level_at, get_order) (sym (get_order-new_price_level p _ id refl))
          | inr (l, there) ↦ rw (there, level_at, get_order)
        ])

  -- An insertion succeeds only if the book has no such order. Then the book finds the order, and
  -- what it found before.
  pub get_order-insert_order_book :
      (b b' : Book D M T) (o : MemoryOrder D) (id : String) (side : Bool) (price : D)
      → insert_order b o ≡ ok b'
      → (get_order b o.id (is_negative o.amount) o.price ≡ none)
        × (get_order b' id side price
            ≡ (if is_at o id side price then some o else get_order b id side price))
  unfolding insert_order
  get_order-insert_order_book b b' o id side price e =
      let (l, added, written) = >>=-eq-ok _ _ e in
      let ask = is_negative o.amount in
      let (fresh, finds) = get_order-insert_order (level_at o.price (tree_of ask b)) l o id added in
      (
        get_order-level_at ask ask o.price o.price b o.id (same_side_refl ask) (equal_refl o.price)
            ∙ fresh,
        subst
            (λ c.
              get_order c id side price
              ≡ (if is_at o id side price then some o else get_order b id side price))
            (ok-injective written)
            (ground (
              arith,
              get_order-with_side ask o.price l (insert (to_string o.price) tt (prices_of ask b)) b
                  id side price,
              get_order-level_at ask side o.price price b id,
              finds,
            )),
      )

  -- A change succeeds only if the book has the order. Then the book finds what is left of it, and
  -- otherwise what it found before.
  pub get_order-change_order_book :
      (b b' : Book D M T) (o : MemoryOrder D) (change : D) (id : String) (side : Bool) (price : D)
      → IsBook b
      → change_order b o change ≡ ok b'
      → (old : MemoryOrder D) × (get_order b o.id (is_negative o.amount) o.price ≡ some old)
        × (get_order b' id side price
            ≡ (if is_at o id side price then changed old change else get_order b id side price))
  unfolding change_order
  get_order-change_order_book b b' o change id side price v e =
      let (l, found, rest) = >>=-eq-ok _ _ e in
      let (l', shrunk, written) = >>=-eq-ok _ _ rest in
      let ask = is_negative o.amount in
      let there = or_fail-eq-ok _ _ found in
      let s = IsSide-of ask b v in
      let (old, had, finds) =
        get_order-change_order l l' o.id change id (s.level o.price l there) shrunk in
      (
        old,
        get_order_at ask ask o.price o.price l b o.id there (same_side_refl ask)
              (equal_refl o.price)
            ∙ had,
        subst
            (λ c.
              get_order c id side price
              ≡ (if is_at o id side price then changed old change else get_order b id side price))
            (ok-injective written)
            (ground (
              arith,
              get_order-write_level ask o.price l' b id side price,
              get_order_at ask side o.price price l b id there,
              finds,
            )),
      )
