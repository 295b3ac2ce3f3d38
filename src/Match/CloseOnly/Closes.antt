-- ===== src/Match/CloseOnly/Closes.antt =====
-- What is left of a close-only order.
use mai3_broker.Base.{◌+◌, ◌≡◌, ◌⊎◌, refl, inl, inr, true, false, arith, Bool-cases}
use mai3_broker.Base.Int.{one_part}
use mai3_broker.Decimal.{
  Decimal, zero, add, sub, neg, abs, is_zero, less_than, digits, units, exact, eq_of_units,
  not_zero→units, units-neg, less_than-abs, sub_self, equal→eq,
}
use mai3_broker.Amount.{has_the_same_sign}
use mai3_broker.Amount.Split.{has_the_same_sign_lem}
use mai3_broker.Order.{Order}
use mai3_broker.Mai3.Storage.{AccountStorage}
use mai3_broker.Match.CloseOnly.{check_close_only}

module _ {D : Type 0} ⦃dec : Decimal D⦄ where
  -- `rest` takes no more than the position away, and opens nothing.
  abbrev pub OnlyCloses : D → D → Type 0
  OnlyCloses position rest =
      (less_than (abs position) (abs rest) ≡ false)
      × ((rest ≡ zero) ⊎ (has_the_same_sign position rest ≡ false))

  zero-OnlyCloses : (p : D) → OnlyCloses p zero
  zero-OnlyCloses p =
      let k = digits p in
      (
        ground (
          arith,
          less_than-abs k p zero (omega arith) (omega exact),
          dec.units-zero k,
          one_part (units k p),
        ),
        inl refl,
      )

  neg-OnlyCloses : (p : D) → is_zero p ≡ false → OnlyCloses p (neg p)
  neg-OnlyCloses p z =
      let k = digits p in
      (
        ground (
          arith,
          less_than-abs k p (neg p) (omega arith) (omega exact),
          units-neg k p (omega arith),
          one_part (units k p),
        ),
        inr (
            ground (
              arith,
              has_the_same_sign_lem k p (neg p) (omega arith) (omega exact),
              not_zero→units k p (omega arith) z,
              units-neg k p (omega arith),
              one_part (units k p),
            )),
      )

  -- An amount of the other side than the position, and no larger, closes.
  within-OnlyCloses :
      (p a m : D)
      → is_zero m ≡ false
      → has_the_same_sign a m ≡ true
      → has_the_same_sign p m ≡ false
      → less_than (abs p) (abs a) ≡ false
      → OnlyCloses p a
  within-OnlyCloses p a m z same other le = elim (Bool-cases (is_zero a)) [
    | inl none_left ↦ (le, inl (equal→eq a zero none_left))
    | inr some_left ↦
        let k = digits p + digits a + digits m in
        (
          le,
          inr (
              ground (
                arith,
                has_the_same_sign_lem k p a (omega arith) (omega arith),
                has_the_same_sign_lem k a m (omega arith) (omega arith),
                has_the_same_sign_lem k p m (omega arith) (omega arith),
                not_zero→units k a (omega arith) some_left,
                not_zero→units k m (omega arith) z,
                one_part (units k p),
                one_part (units k a),
                one_part (units k m),
              )),
        )
  ]

  sub_sum : (a p : D) → sub a (add a p) ≡ neg p
  sub_sum a p =
      let k = digits a + digits p in eq_of_units k _ _ (omega exact) (omega exact) (omega exact)

  sub-zero : (a : D) → sub a zero ≡ a
  sub-zero a = eq_of_units (digits a) _ _ (omega exact) (omega exact) (omega exact)

  -- Of a close-only order of some amount, whose available amount has its sign, what is left after
  -- the amount that is to be canceled only closes: it is no larger than the trader's position, and
  -- is zero or of the other sign.
  pub check_close_only_closes :
      (account : AccountStorage D) (o : Order D)
      → o.is_close_only ≡ true
      → is_zero o.amount ≡ false
      → has_the_same_sign o.available_amount o.amount ≡ true
      → OnlyCloses account.position_amount (sub o.available_amount (check_close_only account o))
  unfolding check_close_only
  check_close_only_closes account o c nz same =
      let p = account.position_amount in
      let a = o.available_amount in
      rw c (elim (Bool-cases (is_zero p)) [
        | inl flat ↦ rw (flat, sub_self a) (zero-OnlyCloses p)
        | inr open_position ↦ rw open_position (elim (Bool-cases (has_the_same_sign p o.amount)) [
          | inl opens ↦ rw (opens, sub_self a) (zero-OnlyCloses p)
          | inr closes ↦ rw closes (elim (Bool-cases (less_than (abs p) (abs a))) [
            | inl larger ↦ rw (larger, sub_sum a p) (neg-OnlyCloses p open_position)
            | inr within ↦
                rw (within, sub-zero a) (within-OnlyCloses p a o.amount nz same closes within)
          ])
        ])
      ])
