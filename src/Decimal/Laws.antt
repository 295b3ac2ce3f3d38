-- ===== src/Decimal/Laws.antt =====
-- The laws in the form that `omega` reads: over the two parts of the integers `units k a`, at a `k`
-- that is large enough for every value in sight.
use mai3_broker.Base.{ℕ, max, ◌+◌, ◌≤◌, ◌≡◌, ltb, ◌<◌, ◌⊎◌, refl, arith, true, false, sym, ap, ◌∙◌}
use mai3_broker.Base.Int.{pos_part, neg_part, int_laws, eq_of_parts, one_part}
use mai3_broker.Decimal.Defs.{
  Decimal, zero, add, sub, mul, neg, abs, less_than, digits, units, equal, is_zero,
}

module _ {D : Type 0} ⦃dec : Decimal D⦄ where
  pub digits-add : (a b : D) → digits (add a b) ≤ max (digits a) (digits b)
  digits-add a b = dec.digits-add a b

  pub digits-sub : (a b : D) → digits (sub a b) ≤ max (digits a) (digits b)
  digits-sub a b = dec.digits-sub a b

  pub digits-neg : (a : D) → digits (neg a) ≡ digits a
  digits-neg a = dec.digits-neg a

  pub units-add :
      (k : ℕ) (a b : D)
      → digits a ≤ k
      → digits b ≤ k
      → pos_part (units k (add a b)) + neg_part (units k a) + neg_part (units k b)
        ≡ neg_part (units k (add a b)) + pos_part (units k a) + pos_part (units k b)
  units-add k a b h h' = rw (dec.units-add k a b h h') (omega int_laws)

  pub units-sub :
      (k : ℕ) (a b : D)
      → digits a ≤ k
      → digits b ≤ k
      → pos_part (units k (sub a b)) + neg_part (units k a) + pos_part (units k b)
        ≡ neg_part (units k (sub a b)) + pos_part (units k a) + neg_part (units k b)
  units-sub k a b h h' = rw (dec.units-sub k a b h h') (omega int_laws)

  pub units-neg :
      (k : ℕ) (a : D)
      → digits a ≤ k
      → pos_part (units k (neg a)) + pos_part (units k a)
        ≡ neg_part (units k (neg a)) + neg_part (units k a)
  units-neg k a h = rw (dec.units-neg k a h) (omega int_laws)

  -- Two values are equal if they are equal in units that are fine enough.
  pub eq_of_units :
      (k : ℕ) (a b : D)
      → digits a ≤ k
      → digits b ≤ k
      → pos_part (units k a) + neg_part (units k b) ≡ pos_part (units k b) + neg_part (units k a)
      → a ≡ b
  eq_of_units k a b h h' e = dec.units_injective k a b h h' (eq_of_parts _ _ e)

  pub less_than→lt :
      (k : ℕ) (a b : D)
      → digits a ≤ k
      → digits b ≤ k
      → less_than a b ≡ true
      → pos_part (units k a) + neg_part (units k b) + 1
        ≤ pos_part (units k b) + neg_part (units k a)
  less_than→lt k a b h h' e = ground (arith, dec.less_than-units k a b h h')

  pub not_less_than→le :
      (k : ℕ) (a b : D)
      → digits a ≤ k
      → digits b ≤ k
      → less_than a b ≡ false
      → pos_part (units k b) + neg_part (units k a) ≤ pos_part (units k a) + neg_part (units k b)
  not_less_than→le k a b h h' e = ground (arith, dec.less_than-units k a b h h')

  pub lt→less_than :
      (k : ℕ) (a b : D)
      → digits a ≤ k
      → digits b ≤ k
      → pos_part (units k a) + neg_part (units k b) + 1
        ≤ pos_part (units k b) + neg_part (units k a)
      → less_than a b ≡ true
  lt→less_than k a b h h' e = ground (arith, dec.less_than-units k a b h h')

  pub le→not_less_than :
      (k : ℕ) (a b : D)
      → digits a ≤ k
      → digits b ≤ k
      → pos_part (units k b) + neg_part (units k a) ≤ pos_part (units k a) + neg_part (units k b)
      → less_than a b ≡ false
  le→not_less_than k a b h h' e = ground (arith, dec.less_than-units k a b h h')

pub units-zero_pos : (D : Type 0) ⦃dec : Decimal D⦄ (k : ℕ) → pos_part (units k (zero {D = D})) ≡ 0
units-zero_pos D ⦃dec⦄ k = ap pos_part (dec.units-zero k)

pub units-zero_neg : (D : Type 0) ⦃dec : Decimal D⦄ (k : ℕ) → neg_part (units k (zero {D = D})) ≡ 0
units-zero_neg D ⦃dec⦄ k = ap neg_part (dec.units-zero k)

pub digits-zero : (D : Type 0) ⦃dec : Decimal D⦄ → digits (zero {D = D}) ≡ 0
digits-zero D ⦃dec⦄ = dec.digits-zero

module _ {D : Type 0} ⦃dec : Decimal D⦄ where
  pub digits-abs : (a : D) → digits (abs a) ≡ digits a
  unfolding abs
  digits-abs a = ground (arith, digits-neg a)

  pub units-abs :
      (k : ℕ) (a : D)
      → digits a ≤ k
      → (pos_part (units k (abs a)) ≡ pos_part (units k a) + neg_part (units k a))
        × (neg_part (units k (abs a)) ≡ 0)
  unfolding abs
  units-abs k a h = ground (
    arith,
    dec.less_than-units k a zero h (omega (arith, digits-zero D)),
    dec.units-zero k,
    units-neg k a h,
    one_part (units k a),
    one_part (units k (neg a)),
  )

  -- The test `x.Abs().LessThan(y.Abs())` compares the absolute values of the units.
  pub less_than-abs :
      (k : ℕ) (a b : D)
      → digits a ≤ k
      → digits b ≤ k
      → less_than (abs a) (abs b)
        ≡ ltb
            (pos_part (units k a) + neg_part (units k a))
            (pos_part (units k b) + neg_part (units k b))
  less_than-abs k a b h h' = ground (
    arith,
    dec.less_than-units k (abs a) (abs b) (omega (arith, digits-abs a))
        (omega (arith, digits-abs b)),
    units-abs k a h,
    units-abs k b h',
  )

-- For `omega`: sums and differences of decimals, read in units of a common size.
pub ruleset exact = (
  arith, digits-add, digits-sub, digits-neg, units-add, units-sub, units-neg, units-zero_pos,
  units-zero_neg, digits-zero,
)

module _ {D : Type 0} ⦃dec : Decimal D⦄ where
  -- `Equal` decides equality.
  pub equal→eq : (a b : D) → equal a b ≡ true → a ≡ b
  equal→eq a b e =
      let k = max (digits a) (digits b) in
      eq_of_units k a b (omega arith) (omega arith) (
        ground (
          arith,
          dec.less_than-units k a b (omega arith) (omega arith),
          dec.less_than-units k b a (omega arith) (omega arith),
        ))

  pub equal_refl : (a : D) → equal a a ≡ true
  equal_refl a = ground (arith, dec.less_than-units (digits a) a a (omega arith) (omega arith))

  pub sub_self : (a : D) → sub a a ≡ zero
  sub_self a = eq_of_units (digits a) _ _ (omega exact) (omega exact) (omega exact)

  pub add-zero : (a : D) → add a zero ≡ a
  add-zero a = eq_of_units (digits a) _ _ (omega exact) (omega exact) (omega exact)

  pub mul-zero : (a : D) → mul a zero ≡ zero
  mul-zero a =
      let k = digits (mul a zero) in
      eq_of_units k _ _ (omega exact) (omega exact)
        (omega (exact, ap (λ d. pos_part (units k d)) twice, ap (λ d. neg_part (units k d)) twice))
    where
      twice : mul a zero ≡ add (mul a zero) (mul a zero)
      twice = ap (mul a) (sym (add-zero zero)) ∙ dec.mul-add a zero zero

  -- A value that is not zero has more units of one sign than of the other.
  pub not_zero→units :
      (k : ℕ) (a : D)
      → digits a ≤ k
      → is_zero a ≡ false
      → (0 < pos_part (units k a)) ⊎ (0 < neg_part (units k a))
  not_zero→units k a h e = ground (
    arith,
    dec.less_than-units k a zero h (omega (arith, digits-zero D)),
    dec.less_than-units k zero a (omega (arith, digits-zero D)) h,
    dec.units-zero k,
    one_part (units k a),
  )
