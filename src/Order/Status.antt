-- ===== src/Order/Status.antt =====
-- What the saved status says of an order's amounts.
use mai3_broker.Base.{◌+◌, ◌≡◌, ◌≢◌, ◌↔◌, true, false, arith, ap, ℕ, ◌⊎◌, inl, inr, Bool-cases}
use mai3_broker.Base.Int.{one_part, pos_part, neg_part}
use mai3_broker.Decimal.{
  Decimal, zero, abs, add, digits, exact, eq_of_units, is_zero, units, units-abs, not_zero→units,
  equal→eq, equal, greater_than, digits-abs,
}
use mai3_broker.Amount.Split.{same_side}
use mai3_broker.Amount.{has_the_same_sign}
use mai3_broker.Order.Defs.{Order, status_by_amounts, pending}
use mai3_broker.Order.Balance.{IsBalanced, HasSigns}

module _ {D : Type 0} ⦃dec : Decimal D⦄ where
  -- If one settled amount is the whole order, nothing of it is available or pending.
  settled-rest :
      (a p c x m : D)
      → add (add a p) (add c x) ≡ m
      → has_the_same_sign a m ≡ true
      → has_the_same_sign p m ≡ true
      → has_the_same_sign c m ≡ true
      → has_the_same_sign x m ≡ true
      → is_zero m ≡ false
      → (c ≡ m) ⊎ (x ≡ m)
      → add a p ≡ zero
  settled-rest a p c x m b sa sp sc sx nz e =
      let k = digits a + digits p + digits c + digits x + digits m in
      eq_of_units k _ _ (omega exact) (omega exact) (
        omega (
          exact,
          same_side k a m (omega arith) (omega arith) sa,
          same_side k p m (omega arith) (omega arith) sp,
          same_side k c m (omega arith) (omega arith) sc,
          same_side k x m (omega arith) (omega arith) sx,
          not_zero→units k m (omega arith) nz,
          whole k e,
          ap (λ d. pos_part (units k d)) b,
          ap (λ d. neg_part (units k d)) b,
          one_part (units k m),
        ))
    where
      whole :
          (k : ℕ)
          → (c ≡ m) ⊎ (x ≡ m)
          → ((pos_part (units k c) ≡ pos_part (units k m))
              × (neg_part (units k c) ≡ neg_part (units k m)))
            ⊎ ((pos_part (units k x) ≡ pos_part (units k m))
                × (neg_part (units k x) ≡ neg_part (units k m)))
      whole k (inl e) = inl (ap (λ d. pos_part (units k d)) e, ap (λ d. neg_part (units k d)) e)
      whole k (inr e) = inr (ap (λ d. pos_part (units k d)) e, ap (λ d. neg_part (units k d)) e)

  greater_than-abs : (a : D) → a ≢ zero → greater_than (abs a) zero ≡ true
  greater_than-abs a h =
      let k = digits a in
      ground (
        arith,
        dec.less_than-units k zero (abs a) (omega exact) (omega (arith, digits-abs a)),
        units-abs k a (omega arith),
        dec.units-zero k,
        one_part (units k a),
        eq_of_units k a zero (omega arith) (omega exact),
        h,
      )

  abs-zero : (a : D) → a ≡ zero → greater_than (abs a) zero ≡ false
  abs-zero a e =
      let k = digits a in
      ground (
        arith,
        dec.less_than-units k zero (abs a) (omega exact) (omega (arith, digits-abs a)),
        units-abs k a (omega arith),
        ap (units k) e,
        dec.units-zero k,
      )

  -- A balanced order of some amount, whose four amounts all have its sign, is pending exactly when
  -- some of it is available or pending.
  pub status_pending_iff :
      (o : Order D)
      → IsBalanced o
      → HasSigns o
      → is_zero o.amount ≡ false
      → (status_by_amounts o ≡ pending) ↔ (add o.available_amount o.pending_amount ≢ zero)
  unfolding status_by_amounts
  status_pending_iff o b s nz =
      let rest =
        settled-rest o.available_amount o.pending_amount o.confirmed_amount o.canceled_amount
          o.amount b s.available s.pending s.confirmed s.canceled nz in
      let c_all = equal→eq o.confirmed_amount o.amount in
      let x_all = equal→eq o.canceled_amount o.amount in
      (
        (λ e z. ground (arith, abs-zero _ z)),
        λ h. elim (Bool-cases (equal o.confirmed_amount o.amount)) [
          | inl c ↦ absurd (h (rest (inl (c_all c))))
          | inr c ↦ elim (Bool-cases (equal o.canceled_amount o.amount)) [
            | inl x ↦ absurd (h (rest (inr (x_all x))))
            | inr x ↦ rw (c, x, greater_than-abs _ h)
          ]
        ],
      )
