-- ===== src/Amount/Signs.antt =====
-- The signs of sums and differences of amounts.
use mai3_broker.Base.{◌+◌, ◌≡◌, true, false, arith}
use mai3_broker.Base.Int.{one_part}
use mai3_broker.Decimal.{
  Decimal, add, sub, abs, less_than, digits, units, exact, units-add, units-sub, less_than-abs,
}
use mai3_broker.Amount.{has_the_same_sign}
use mai3_broker.Amount.Split.{has_the_same_sign_lem}

module _ {D : Type 0} ⦃dec : Decimal D⦄ where
  pub has_the_same_sign-add :
      (x y m : D)
      → has_the_same_sign x m ≡ true
      → has_the_same_sign y m ≡ true
      → has_the_same_sign (add x y) m ≡ true
  has_the_same_sign-add x y m hx hy =
      let k = digits x + digits y + digits m in
      ground (
        arith,
        has_the_same_sign_lem k x m (omega arith) (omega arith),
        has_the_same_sign_lem k y m (omega arith) (omega arith),
        has_the_same_sign_lem k (add x y) m (omega exact) (omega arith),
        units-add k x y (omega arith) (omega arith),
        one_part (units k x),
        one_part (units k y),
        one_part (units k m),
      )

  -- What is taken away is no larger than what there is.
  pub has_the_same_sign-sub :
      (x y m : D)
      → has_the_same_sign x m ≡ true
      → has_the_same_sign y m ≡ true
      → less_than (abs x) (abs y) ≡ false
      → has_the_same_sign (sub x y) m ≡ true
  has_the_same_sign-sub x y m hx hy le =
      let k = digits x + digits y + digits m in
      ground (
        arith,
        has_the_same_sign_lem k x m (omega arith) (omega arith),
        has_the_same_sign_lem k y m (omega arith) (omega arith),
        has_the_same_sign_lem k (sub x y) m (omega exact) (omega arith),
        units-sub k x y (omega arith) (omega arith),
        less_than-abs k x y (omega arith) (omega arith),
        one_part (units k x),
        one_part (units k y),
        one_part (units k m),
      )
