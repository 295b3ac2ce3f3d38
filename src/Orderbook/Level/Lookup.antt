-- ===== src/Orderbook/Level/Lookup.antt =====
-- What a price level finds after each operation.
use mai3_broker.Base.{
  String, ◌≡◌, Option, none, some, inl, inr, IsDict, ok, arith, Option-cases, str_eq, lookup-insert,
  lookup-erase, if◌then◌else◌,
}
use mai3_broker.Decimal.{Decimal, add, is_zero}
use mai3_broker.Orderbook.Containers.{OrderedMap}
use mai3_broker.Orderbook.Level.{
  MemoryOrder, PriceLevel, new_price_level, insert_order, remove_order, change_order, get_order,
}
use mai3_broker.Orderbook.Level.Total.{IsLevel, lookup-IsKeyed}

-- What is left of an order whose amount changes.
abbrev pub changed : {D : Type 0} ⦃dec : Decimal D⦄ → MemoryOrder D → D → Option (MemoryOrder D)
changed o change =
    if is_zero (add o.amount change) then none else some (record o { amount = add o.amount change })

module _ {D M : Type 0} ⦃dec : Decimal D⦄ ⦃om : OrderedMap M (MemoryOrder D)⦄ where
  get-set :
      (k j : String) (o : MemoryOrder D) (m : M)
      → om.get j (om.set k o m) ≡ (if str_eq k j then some o else om.get j m)
  get-set k j o m =
      rw (om.get-lookup j (om.set k o m), om.entries-set k o m, om.get-lookup j m)
        (lookup-insert k j o (om.entries m))

  get-delete :
      (k j : String) (m : M)
      → IsDict (om.entries m)
      → om.get j (om.delete k m) ≡ (if str_eq k j then none else om.get j m)
  get-delete k j m d =
      rw (om.get-lookup j (om.delete k m), om.entries-delete k m, om.get-lookup j m)
        (lookup-erase k j (om.entries m) d)

  pub get_order-insert_order :
      (p p' : PriceLevel D M) (o : MemoryOrder D) (j : String)
      → insert_order p o ≡ ok p'
      → (get_order p o.id ≡ none)
        × (get_order p' j ≡ (if str_eq o.id j then some o else get_order p j))
  unfolding insert_order get_order
  get_order-insert_order p p' o j e = ground (arith, get-set o.id j o p.order_map)

  pub get_order-change_order :
      (p p' : PriceLevel D M) (id : String) (change : D) (j : String)
      → IsLevel p
      → change_order p id change ≡ ok p'
      → (old : MemoryOrder D) × (get_order p id ≡ some old)
        × (get_order p' j ≡ (if str_eq id j then changed old change else get_order p j))
  unfolding change_order get_order
  get_order-change_order p p' id change j v e = elim (Option-cases (om.get id p.order_map)) [
    | inl missing ↦ absurd (ground arith)
    | inr (old, has) ↦ (
      old,
      has,
      ground (
        arith,
        get-set id j (record old { amount = add old.amount change }) p.order_map,
        get-delete id j p.order_map v.dict,
      ),
    )
  ]

  pub get_order-remove_order :
      (p p' : PriceLevel D M) (id : String) (o : MemoryOrder D) (j : String)
      → IsLevel p
      → remove_order p id ≡ ok (o, p')
      → (get_order p id ≡ some o) × (get_order p' j ≡ (if str_eq id j then none else get_order p j))
  unfolding remove_order get_order
  get_order-remove_order p p' id o j v e = ground (
    arith,
    get-delete id j p.order_map v.dict,
    om.get-lookup id p.order_map,
    lookup-IsKeyed id o (om.entries p.order_map) v.keyed,
  )

  -- A new level holds nothing.
  pub get_order-new_price_level :
      (price : D) (l : PriceLevel D M) (j : String)
      → l ≡ new_price_level price
      → get_order l j ≡ none
  unfolding get_order new_price_level
  get_order-new_price_level price l j e = ground (arith, om.get-lookup j om.new, om.entries-new)
