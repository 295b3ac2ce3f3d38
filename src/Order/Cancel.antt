-- ===== src/Order/Cancel.antt =====
-- `CancelOrder` of the model package.
use mai3_broker.Base.{String, ◌+◌, ◌≡◌, ℕ, arith, ok}
use mai3_broker.Decimal.{Decimal, add, sub, digits, exact, eq_of_units}
use mai3_broker.Amount.Signs.{has_the_same_sign-add, has_the_same_sign-sub}
use mai3_broker.Order.Defs.{Order, cancel_order}
use mai3_broker.Order.Balance.{total, HasSigns}

module _ {D : Type 0} ⦃dec : Decimal D⦄ where
  -- Moving an amount from the available to the canceled ones keeps the total.
  pub available_to_canceled :
      (a p c x m : D) → add (add (sub a m) p) (add c (add x m)) ≡ add (add a p) (add c x)
  available_to_canceled a p c x m =
      let k = digits a + digits p + digits c + digits x + digits m in
      eq_of_units k _ _ (omega exact) (omega exact) (omega exact)

  -- A successful cancellation of an order moves the amount from the available to the canceled
  -- ones, changes no other amount, and leaves every amount with the order's sign.
  pub cancel_order_moves :
      (now : ℕ) (o o' : Order D) (reason : String) (m : D)
      → HasSigns o
      → cancel_order now o reason m ≡ ok o'
      → (total o' ≡ total o)
        × (o'.available_amount ≡ sub o.available_amount m)
        × (o'.pending_amount ≡ o.pending_amount)
        × (o'.confirmed_amount ≡ o.confirmed_amount)
        × HasSigns o'
  unfolding cancel_order
  cancel_order_moves now o o' reason m s e = ground (
    arith,
    available_to_canceled o.available_amount o.pending_amount o.confirmed_amount o.canceled_amount
        m,
    has_the_same_sign-add o.canceled_amount m o.amount s.canceled,
    has_the_same_sign-sub o.available_amount m o.amount s.available,
  )
