-- ===== src/Amount/Split.antt =====
-- The closing and the opening part of `SplitAmount`.
use mai3_broker.Base.{ℕ, leb, ◌||◌, ◌&&◌, ◌≡◌, ◌+◌, ◌≤◌, ◌⊎◌, true, false, arith}
use mai3_broker.Base.Int.{pos_part, neg_part, one_part}
use mai3_broker.Decimal.{
  Decimal, zero, add, neg, abs, less_than, digits, units, exact, units-add, units-neg,
  less_than-abs, eq_of_units,
}
use mai3_broker.Amount.{has_the_same_sign, split_amount}

module _ {D : Type 0} ⦃dec : Decimal D⦄ where
  -- The two parts of a trade add up to it.
  pub split_amount_sum : (p a : D) → let (c, o) = split_amount p a in add c o ≡ a
  unfolding split_amount
  split_amount_sum p a =
      let k = digits p + digits a in
      ground (
        arith,
        eq_of_units k (add zero a) a (omega exact) (omega exact) (omega exact),
        eq_of_units k (add a zero) a (omega exact) (omega exact) (omega exact),
        eq_of_units k (add (neg p) (add p a)) a (omega exact) (omega exact) (omega exact),
      )

  pub has_the_same_sign_lem :
      (k : ℕ) (x y : D)
      → digits x ≤ k
      → digits y ≤ k
      → has_the_same_sign x y
        ≡ (leb (pos_part (units k x)) (neg_part (units k x))
            || leb (neg_part (units k y)) (pos_part (units k y)))
          && (leb (neg_part (units k x)) (pos_part (units k x))
              || leb (pos_part (units k y)) (neg_part (units k y)))
  unfolding has_the_same_sign
  has_the_same_sign_lem k x y h h' = ground (
    arith,
    dec.less_than-units k x zero h (omega exact),
    dec.less_than-units k zero x (omega exact) h,
    dec.less_than-units k y zero h' (omega exact),
    dec.less_than-units k zero y (omega exact) h',
    dec.units-zero k,
  )

  -- Two values of the same sign are both at least zero or both at most zero.
  pub same_side :
      (k : ℕ) (x y : D)
      → digits x ≤ k
      → digits y ≤ k
      → has_the_same_sign x y ≡ true
      → ((neg_part (units k x) ≡ 0) × (neg_part (units k y) ≡ 0))
        ⊎ ((pos_part (units k x) ≡ 0) × (pos_part (units k y) ≡ 0))
  same_side k x y h h' e =
      ground (arith, has_the_same_sign_lem k x y h h', one_part (units k x), one_part (units k y))

  -- The closing part is no larger than the position and of the other sign, and what is opened has
  -- the sign of the position that is left.
  pub split_amount_close :
      (p a : D)
      → let (c, o) = split_amount p a in
        (less_than (abs p) (abs c) ≡ false)
        × ((c ≡ zero) ⊎ (has_the_same_sign p c ≡ false))
        × (has_the_same_sign (add p c) o ≡ true)
  unfolding split_amount
  split_amount_close p a =
      let k = digits p + digits a in
      let hp : digits p ≤ k = omega arith in
      let ha : digits a ≤ k = omega arith in
      let hn : digits (neg p) ≤ k = omega exact in
      let hz : digits (zero {D = D}) ≤ k = omega exact in
      ground (
        arith,
        has_the_same_sign_lem k p a hp ha,
        has_the_same_sign_lem k p (neg p) hp hn,
        has_the_same_sign_lem k (add p zero) a (omega exact) ha,
        has_the_same_sign_lem k (add p a) zero (omega exact) hz,
        has_the_same_sign_lem k (add p (neg p)) (add p a) (omega exact) (omega exact),
        less_than-abs k p a hp ha,
        less_than-abs k p zero hp hz,
        less_than-abs k p (neg p) hp hn,
        dec.units-zero k,
        units-neg k p hp,
        units-add k p zero hp hz,
        units-add k p a hp ha,
        units-add k p (neg p) hp hn,
        one_part (units k p),
        one_part (units k (neg p)),
        one_part (units k a),
      )
