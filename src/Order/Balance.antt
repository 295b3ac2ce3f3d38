-- ===== src/Order/Balance.antt =====
-- The total of the four amounts of an order, and their signs.
use mai3_broker.Base.{◌≡◌, true}
use mai3_broker.Decimal.{Decimal, add}
use mai3_broker.Amount.{has_the_same_sign}
use mai3_broker.Order.Defs.{Order}

module _ {D : Type 0} ⦃dec : Decimal D⦄ where
  -- What the four amounts of an order add up to.
  abbrev pub total : Order D → D
  total o = add (add o.available_amount o.pending_amount) (add o.confirmed_amount o.canceled_amount)

  abbrev pub IsBalanced : Order D → Type 0
  IsBalanced o = total o ≡ o.amount

  -- No amount of the order has the other sign than the order.
  pub record HasSigns (o : Order D) : Type 0 where
    pub available : has_the_same_sign o.available_amount o.amount ≡ true
    pub pending : has_the_same_sign o.pending_amount o.amount ≡ true
    pub confirmed : has_the_same_sign o.confirmed_amount o.amount ≡ true
    pub canceled : has_the_same_sign o.canceled_amount o.amount ≡ true
