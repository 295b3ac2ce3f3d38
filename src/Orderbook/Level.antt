-- ===== src/Orderbook/Level.antt =====
-- The orders of one price. An order is found by its ID, and its amount may change in place.
pub mod Total
pub mod Lookup
use mai3_broker.Base.{
  ℕ, String, Option, none, some, Bool, not, ◌&&◌, List, [], ◌∷◌, Dict, Result, ok, err, ◌>>=◌,
  or_fail, is_some, if◌then◌else◌,
}
use mai3_broker.Decimal.{Decimal, zero, add, sub, is_zero}
use mai3_broker.Amount.{has_the_same_sign}
use mai3_broker.Order.{OrderType}
use mai3_broker.Orderbook.Containers.{OrderedMap}

pub record MemoryOrder (D : Type 0) : Type 0 where
  pub id : String
  pub liquidity_pool_address : String
  pub perpetual_index : ℕ
  pub price : D
  pub trigger_price : D
  pub amount : D
  pub min_trade_amount : D
  pub type : OrderType
  pub trader : String

pub record PriceLevel (D M : Type 0) : Type 0 where
  pub price : D
  pub total_amount : D
  pub order_map : M

pub data BookError : Type 0 where
  already_in_level : BookError
  order_not_found : BookError
  negative_after_change : BookError

-- The values in the order of their first insertion.
abbrev pub values : {V : Type 0} → Dict V → List V
values [] = []
values ((k, v) ∷ m) = v ∷ values m

module _ {D M : Type 0} ⦃dec : Decimal D⦄ ⦃om : OrderedMap M (MemoryOrder D)⦄ where
  unfoldable pub new_price_level : D → PriceLevel D M
  new_price_level price = record { price = price; total_amount = zero; order_map = om.new }

  unfoldable pub len : PriceLevel D M → ℕ
  len p = om.len p.order_map

  unfoldable pub insert_order : PriceLevel D M → MemoryOrder D → Result BookError (PriceLevel D M)
  insert_order p order =
      if is_some (om.get order.id p.order_map)
      then err already_in_level
      else ok (record p {
        order_map = om.set order.id order p.order_map;
        total_amount = add p.total_amount order.amount;
      })

  unfoldable pub remove_order :
      PriceLevel D M → String → Result BookError (MemoryOrder D × PriceLevel D M)
  remove_order p order_id = do
    order ← or_fail (om.get order_id p.order_map) order_not_found
    ok (
      order,
      record p {
        order_map = om.delete order.id p.order_map;
        total_amount = sub p.total_amount order.amount;
      },
    )

  unfoldable pub get_order : PriceLevel D M → String → Option (MemoryOrder D)
  get_order p id = om.get id p.order_map

  unfoldable pub get_orders : PriceLevel D M → List (MemoryOrder D)
  get_orders p = values (om.entries p.order_map)

  unfoldable pub change_order : PriceLevel D M → String → D → Result BookError (PriceLevel D M)
  change_order p order_id change_amount = do
    order ← or_fail (om.get order_id p.order_map) order_not_found
    let new_amount = add order.amount change_amount
    if not (is_zero new_amount) && not (has_the_same_sign new_amount order.amount)
        then err negative_after_change
        else ok (record p {
          order_map =
              if is_zero new_amount
              then om.delete order_id p.order_map
              else om.set order_id (record order { amount = new_amount }) p.order_map;
          total_amount = add p.total_amount change_amount;
        })
