-- ===== src/Amount.antt =====
-- common/mai3/utils/number.go: signs of amounts, the scales of the chain, and how a trade splits
-- into a closing and an opening part.
pub mod Split
pub mod Signs
use mai3_broker.Base.{◌+◌, Bool, true, ◌||◌, ◌==◌, if◌then◌else◌}
use mai3_broker.Base.Int.{ℤ, pos, pos_part, neg_part}
use mai3_broker.Decimal.{
  Decimal, of_int, zero, add, mul, neg, abs, sign, is_zero, greater_than_or_equal,
}

-- The exclusive or of two `int`s is 0 if they are equal.
abbrev pub same_int : ℤ → ℤ → Bool
same_int m n = pos_part m + neg_part n == pos_part n + neg_part m

module _ {D : Type 0} ⦃dec : Decimal D⦄ where
  pub to_wad : D → D
  to_wad n = mul n (of_int (pos 1_000_000_000_000_000_000))

  pub to_gwei : D → D
  to_gwei n = mul n (of_int (pos 1_000_000_000))

  unfoldable pub has_the_same_sign : D → D → Bool
  has_the_same_sign x y = if is_zero x || is_zero y then true else same_int (sign x) (sign y)

  -- The closing part, then the opening part.
  unfoldable pub split_amount : D → D → D × D
  split_amount position amount =
      if has_the_same_sign position amount
      then (zero, amount)
      else if greater_than_or_equal (abs position) (abs amount)
      then (amount, zero)
      else (neg position, add position amount)
