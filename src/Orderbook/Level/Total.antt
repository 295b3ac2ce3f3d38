-- ===== src/Orderbook/Level/Total.antt =====
-- The running total of a price level.
use mai3_broker.Base.{
  ◌<◌, length-insert, String, ◌+◌, ◌≡◌, refl, subst, sym, ◌∙◌, inl, inr, none, some, [], ◌∷◌, Dict,
  lookup, insert, erase, IsDict, ok, arith, Bool-cases, str_eq, eq_iff, insert-IsDict, erase-IsDict,
  ap, Option-cases,
}
use mai3_broker.Base.Int.{pos_part, neg_part}
use mai3_broker.Decimal.{
  Decimal, zero, add, sub, digits, exact, eq_of_units, is_zero, equal→eq, units,
}
use mai3_broker.Orderbook.Containers.{OrderedMap}
use mai3_broker.Orderbook.Level.{
  MemoryOrder, PriceLevel, new_price_level, insert_order, remove_order, change_order, len,
}

module _ {D : Type 0} ⦃dec : Decimal D⦄ where
  unfoldable pub sum_amounts : Dict (MemoryOrder D) → D
  sum_amounts [] = zero
  sum_amounts ((k, o) ∷ m) = add o.amount (sum_amounts m)

  -- Orders are stored under their IDs.
  abbrev pub IsKeyed : Dict (MemoryOrder D) → Type 0
  IsKeyed [] = Unit {0}
  IsKeyed ((k, o) ∷ m) = (o.id ≡ k) × IsKeyed m

  sum_amounts-insert_new :
      (k : String) (o : MemoryOrder D) (m : Dict (MemoryOrder D))
      → lookup k m ≡ none
      → sum_amounts (insert k o m) ≡ add (sum_amounts m) o.amount
  unfolding sum_amounts
  sum_amounts-insert_new k o [] e =
      eq_of_units (digits o.amount) _ _ (omega exact) (omega exact) (omega exact)
  sum_amounts-insert_new k o ((j, v) ∷ m) e = elim (Bool-cases (str_eq j k)) [
    | inl h ↦ ground arith
    | inr h ↦
        let n = digits v.amount + digits (sum_amounts m) + digits o.amount in
        rw (h, sum_amounts-insert_new k o m (ground arith))
          (eq_of_units n _ _ (omega exact) (omega exact) (omega exact))
  ]

  sum_amounts-insert_old :
      (k : String) (o old : MemoryOrder D) (m : Dict (MemoryOrder D))
      → lookup k m ≡ some old
      → sum_amounts (insert k o m) ≡ add (sum_amounts m) (sub o.amount old.amount)
  unfolding sum_amounts
  sum_amounts-insert_old k o old [] e = cc
  sum_amounts-insert_old k o old ((j, v) ∷ m) e = elim (Bool-cases (str_eq j k)) [
    | inl h ↦
        let n = digits v.amount + digits (sum_amounts m) + digits o.amount in
        let same : v ≡ old = ground arith in
        rw (h, ← same) (eq_of_units n _ _ (omega exact) (omega exact) (omega exact))
    | inr h ↦
        let n = digits v.amount + digits (sum_amounts m) + digits o.amount + digits old.amount in
        rw (h, sum_amounts-insert_old k o old m (ground arith))
          (eq_of_units n _ _ (omega exact) (omega exact) (omega exact))
  ]

  sum_amounts-erase :
      (k : String) (old : MemoryOrder D) (m : Dict (MemoryOrder D))
      → lookup k m ≡ some old
      → sum_amounts (erase k m) ≡ sub (sum_amounts m) old.amount
  unfolding sum_amounts
  sum_amounts-erase k old [] e = cc
  sum_amounts-erase k old ((j, v) ∷ m) e = elim (Bool-cases (str_eq j k)) [
    | inl h ↦
        let n = digits v.amount + digits (sum_amounts m) in
        let same : v ≡ old = ground arith in
        rw (h, ← same) (eq_of_units n _ _ (omega exact) (omega exact) (omega exact))
    | inr h ↦
        let n = digits v.amount + digits (sum_amounts m) + digits old.amount in
        rw (h, sum_amounts-erase k old m (ground arith))
          (eq_of_units n _ _ (omega exact) (omega exact) (omega exact))
  ]

  insert-IsKeyed :
      (k : String) (o : MemoryOrder D) (m : Dict (MemoryOrder D))
      → o.id ≡ k
      → IsKeyed m
      → IsKeyed (insert k o m)
  insert-IsKeyed k o [] e h = (e, tt)
  insert-IsKeyed k o ((j, v) ∷ m) e h = ground (arith, insert-IsKeyed k o m e h.1)

  erase-IsKeyed : (k : String) (m : Dict (MemoryOrder D)) → IsKeyed m → IsKeyed (erase k m)
  erase-IsKeyed k [] h = tt
  erase-IsKeyed k ((j, v) ∷ m) h = ground (arith, erase-IsKeyed k m h.1)

  pub lookup-IsKeyed :
      (k : String) (o : MemoryOrder D) (m : Dict (MemoryOrder D))
      → IsKeyed m
      → lookup k m ≡ some o
      → o.id ≡ k
  lookup-IsKeyed k o [] h e = cc
  lookup-IsKeyed k o ((j, v) ∷ m) h e = ground (arith, eq_iff j k, lookup-IsKeyed k o m h.1)

  add_sub_cancel : (a b : D) → sub (add a b) a ≡ b
  add_sub_cancel a b =
      eq_of_units (digits a + digits b) _ _ (omega exact) (omega exact) (omega exact)

  sub_of_add_zero : (s a b : D) → add a b ≡ zero → sub s a ≡ add s b
  sub_of_add_zero s a b e =
      let k = digits s + digits a + digits b in
      eq_of_units k _ _ (omega exact) (omega exact)
        (omega (exact, ap (λ d. pos_part (units k d)) e, ap (λ d. neg_part (units k d)) e))

module _ {D M : Type 0} ⦃dec : Decimal D⦄ ⦃om : OrderedMap M (MemoryOrder D)⦄ where
  -- The orders are filed under their IDs, none twice, and the total is the sum of their amounts.
  pub record IsLevel (p : PriceLevel D M) : Type 0 where
    pub dict : IsDict (om.entries p.order_map)
    pub keyed : IsKeyed (om.entries p.order_map)
    pub total : p.total_amount ≡ sum_amounts (om.entries p.order_map)

  -- A level whose map has known entries.
  IsLevel-of :
      (p : PriceLevel D M) (m : Dict (MemoryOrder D))
      → om.entries p.order_map ≡ m
      → IsDict m
      → IsKeyed m
      → p.total_amount ≡ sum_amounts m
      → IsLevel p
  IsLevel-of p m e d k t = record {
    dict = subst IsDict (sym e) d;
    keyed = subst IsKeyed (sym e) k;
    total = t ∙ ap sum_amounts (sym e);
  }

  pub new_price_level-IsLevel : (price : D) → IsLevel (new_price_level price)
  unfolding new_price_level sum_amounts
  new_price_level-IsLevel price = IsLevel-of _ [] om.entries-new tt tt refl

  -- An order that is added is filed under its ID, and the total grows by its amount.
  pub insert_order-IsLevel :
      (p p' : PriceLevel D M) (o : MemoryOrder D)
      → IsLevel p
      → insert_order p o ≡ ok p'
      → IsLevel p'
  unfolding insert_order
  insert_order-IsLevel p p' o v e = elim (Option-cases (lookup o.id m)) [
    | inl fresh ↦
        IsLevel-of p' (insert o.id o m) (ground (arith, found, om.entries-set o.id o p.order_map))
          (insert-IsDict o.id o m v.dict) (insert-IsKeyed o.id o m refl v.keyed)
          (ground (arith, found, v.total, sum_amounts-insert_new o.id o m fresh))
    | inr (old, taken) ↦ absurd (ground (arith, found))
  ]
    where
      m : Dict (MemoryOrder D)
      m = om.entries p.order_map

      found : om.get o.id p.order_map ≡ lookup o.id m
      found = om.get-lookup o.id p.order_map

  pub remove_order-IsLevel :
      (p p' : PriceLevel D M) (id : String) (o : MemoryOrder D)
      → IsLevel p
      → remove_order p id ≡ ok (o, p')
      → IsLevel p'
  unfolding remove_order
  remove_order-IsLevel p p' id o v e = elim (Option-cases (lookup id m)) [
    | inl missing ↦ absurd (ground (arith, found))
    | inr (old, has) ↦
        let named : old.id ≡ id = lookup-IsKeyed id old m v.keyed has in
        IsLevel-of p' (erase id m) (ground (arith, found, named, om.entries-delete id p.order_map))
          (erase-IsDict id m v.dict) (erase-IsKeyed id m v.keyed)
          (ground (arith, found, v.total, sum_amounts-erase id old m has))
  ]
    where
      m : Dict (MemoryOrder D)
      m = om.entries p.order_map

      found : om.get id p.order_map ≡ lookup id m
      found = om.get-lookup id p.order_map

  -- A changed order keeps its place, or leaves the level when nothing of it is left. The total moves
  -- by the change.
  pub change_order-IsLevel :
      (p p' : PriceLevel D M) (id : String) (change : D)
      → IsLevel p
      → change_order p id change ≡ ok p'
      → IsLevel p'
  unfolding change_order
  change_order-IsLevel p p' id change v e = elim (Option-cases (lookup id m)) [
    | inl missing ↦ absurd (ground (arith, found))
    | inr (old, has) ↦
        let changed : MemoryOrder D = record old { amount = add old.amount change } in
        elim (Bool-cases (is_zero (add old.amount change))) [
          | inl gone ↦
              IsLevel-of p' (erase id m) (ground (arith, found, om.entries-delete id p.order_map))
                (erase-IsDict id m v.dict) (erase-IsKeyed id m v.keyed)
                (ground (
                  arith,
                  found,
                  v.total,
                  sum_amounts-erase id old m has,
                  sub_of_add_zero (sum_amounts m) old.amount change (equal→eq _ _ gone),
                ))
          | inr stays ↦
              IsLevel-of p' (insert id changed m)
                (ground (arith, found, om.entries-set id changed p.order_map))
                (insert-IsDict id changed m v.dict)
                (insert-IsKeyed id changed m (lookup-IsKeyed id old m v.keyed has) v.keyed)
                (ground (
                  arith,
                  found,
                  v.total,
                  sum_amounts-insert_old id changed old m has,
                  add_sub_cancel old.amount change,
                ))
        ]
  ]
    where
      m : Dict (MemoryOrder D)
      m = om.entries p.order_map

      found : om.get id p.order_map ≡ lookup id m
      found = om.get-lookup id p.order_map

  -- No operation on its orders moves a level, and a level with a new order has one.
  pub insert_order-price :
      (p p' : PriceLevel D M) (o : MemoryOrder D)
      → insert_order p o ≡ ok p'
      → (p'.price ≡ p.price) × (0 < len p')
  unfolding insert_order len
  insert_order-price p p' o e = ground (
    arith,
    om.len-entries (om.set o.id o p.order_map),
    om.entries-set o.id o p.order_map,
    length-insert o.id o (om.entries p.order_map),
  )

  pub remove_order-price :
      (p p' : PriceLevel D M) (id : String) (o : MemoryOrder D)
      → remove_order p id ≡ ok (o, p')
      → p'.price ≡ p.price
  unfolding remove_order
  remove_order-price p p' id o e = ground arith

  pub change_order-price :
      (p p' : PriceLevel D M) (id : String) (change : D)
      → change_order p id change ≡ ok p'
      → p'.price ≡ p.price
  unfolding change_order
  change_order-price p p' id change e = ground arith
