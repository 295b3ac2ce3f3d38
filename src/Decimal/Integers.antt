-- ===== src/Decimal/Integers.antt =====
-- The integers meet the laws of the decimals: values with no digit after the point.
use Prim.Native.Nat.{zero-le}
use Prim.Native.Char.{code}
use Prim.Native.String.{String}
use mai3_broker.Base.{
  ℕ, suc, ◌+◌, ◌*◌, ◌/◌, ◌≡◌, refl, Option, none, some, arith, false, ap, ◌==◌, if◌then◌else◌,
}
use mai3_broker.Base.Int.{
  ℤ, pos, negsuc, pos_part, neg_part, sub_ℕ, ◌+ℤ◌, ◌-ℤ◌, ◌*ℤ◌, ltb_ℤ, int_laws, eq_of_parts,
}
use mai3_broker.Decimal.Defs.{Decimal}

*ℤ_parts :
    (a b : ℤ)
    → pos_part (a *ℤ b) + (pos_part a * neg_part b + neg_part a * pos_part b)
      ≡ neg_part (a *ℤ b) + (pos_part a * pos_part b + neg_part a * neg_part b)
unfolding ◌*ℤ◌
*ℤ_parts a b = ground arith

pub *ℤ_comm : (a b : ℤ) → a *ℤ b ≡ b *ℤ a
*ℤ_comm a b = eq_of_parts _ _ (omega (arith, *ℤ_parts a b, *ℤ_parts b a))

pub *ℤ-+ℤ : (a b c : ℤ) → a *ℤ (b +ℤ c) ≡ a *ℤ b +ℤ a *ℤ c
*ℤ-+ℤ a b c = eq_of_parts _ _ (
    omega (
      int_laws,
      *ℤ_parts a (b +ℤ c),
      *ℤ_parts a b,
      *ℤ_parts a c,
      ap (λ (n : ℕ). pos_part a * n) (sums b c),
      ap (λ (n : ℕ). neg_part a * n) (sums b c),
    ))
  where
    sums :
        (b c : ℤ)
        → pos_part (b +ℤ c) + neg_part b + neg_part c ≡ neg_part (b +ℤ c) + pos_part b + pos_part c
    sums b c = omega int_laws

pub *ℤ_nonneg :
    (a b : ℤ) → ltb_ℤ a (pos 0) ≡ false → ltb_ℤ b (pos 0) ≡ false → ltb_ℤ (a *ℤ b) (pos 0) ≡ false
unfolding ◌*ℤ◌
*ℤ_nonneg a b h k = ground arith

-- Division truncates towards zero.
unfoldable pub quotient : ℤ → ℤ → ℤ
quotient (pos a) (pos b) = pos (a / b)
quotient (pos a) (negsuc b) = sub_ℕ 0 (a / suc b)
quotient (negsuc a) (pos b) = sub_ℕ 0 (suc a / b)
quotient (negsuc a) (negsuc b) = pos (suc a / suc b)

-- Unary digits, a minus sign before those of a negative number.
unfoldable pub strokes : ℕ → String
strokes ℕ.zero = String.[]
strokes (ℕ.suc n) = String.◌∷◌ "1" (strokes n)

unfoldable pub print : ℤ → String
print (pos n) = String.◌∷◌ "+" (strokes n)
print (negsuc n) = String.◌∷◌ "-" (strokes n)

abbrev pub count_strokes : String → ℕ
count_strokes String.[] = 0
count_strokes (String.◌∷◌ c s) = suc (count_strokes s)

unfoldable pub read : String → Option ℤ
read String.[] = none
read (String.◌∷◌ c s) =
    if code c == code "-" then some (negsuc (count_strokes s)) else some (pos (count_strokes s))

count_strokes-strokes : (n : ℕ) → count_strokes (strokes n) ≡ n
unfolding strokes
count_strokes-strokes ℕ.zero = refl
count_strokes-strokes (ℕ.suc n) = ap suc (count_strokes-strokes n)

pub read-print : (n : ℤ) → read (print n) ≡ some n
unfolding read print
read-print (pos n) = ap (λ m. some (pos m)) (count_strokes-strokes n)
read-print (negsuc n) = ap (λ m. some (negsuc m)) (count_strokes-strokes n)

unfoldable pub negate : ℤ → ℤ
negate a = pos 0 -ℤ a

pub negate_lem : (a : ℤ) → negate a ≡ pos 0 -ℤ a
unfolding negate
negate_lem a = refl

instance abbrev pub integers : Decimal ℤ
integers = record {
  of_int = λ n. n;
  zero = pos 0;
  add = ◌+ℤ◌;
  sub = ◌-ℤ◌;
  mul = ◌*ℤ◌;
  div = quotient;
  neg = negate;
  round = λ _ a. a;
  less_than = ltb_ℤ;
  to_string = print;
  of_string = read;
  digits = λ _. 0;
  units = λ _ a. a;
  digits-zero = refl;
  digits-add = λ a b. zero-le;
  digits-sub = λ a b. zero-le;
  digits-neg = λ a. refl;
  units-zero = λ k. refl;
  units-add = λ k a b _ _. refl;
  units-sub = λ k a b _ _. refl;
  units-neg = λ k a _. negate_lem a;
  units_injective = λ k a b _ _ e. e;
  less_than-units = λ k a b _ _. refl;
  mul_comm = *ℤ_comm;
  mul-add = *ℤ-+ℤ;
  mul_nonneg = *ℤ_nonneg;
  of_string-to_string = read-print;
}
