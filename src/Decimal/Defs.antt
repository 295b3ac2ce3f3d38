-- ===== src/Decimal/Defs.antt =====
-- The decimal package's operations with their documented laws, and the methods and functions that
-- the package defines by a comparison: `Sign`, `IsZero`, `Abs`, `Min`, `Max` and the like.
use Prim.Native.String.{String}
use mai3_broker.Base.{ℕ, max, ◌≤◌, ◌≡◌, Option, some, Bool, false, not, ◌&&◌, if◌then◌else◌}
use mai3_broker.Base.Int.{ℤ, pos, negsuc, ◌+ℤ◌, ◌-ℤ◌, ltb_ℤ}

pub record Decimal (D : Type 0) : Type 0 where
  pub of_int : ℤ → D
  pub zero : D
  pub add : D → D → D
  pub sub : D → D → D
  pub mul : D → D → D
  pub div : D → D → D
  pub neg : D → D
  pub round : ℕ → D → D
  pub less_than : D → D → Bool
  pub to_string : D → String
  pub of_string : String → Option D
  pub digits : D → ℕ
  pub units : ℕ → D → ℤ
  pub digits-zero : digits zero ≡ 0
  pub digits-add : (a b : D) → digits (add a b) ≤ max (digits a) (digits b)
  pub digits-sub : (a b : D) → digits (sub a b) ≤ max (digits a) (digits b)
  pub digits-neg : (a : D) → digits (neg a) ≡ digits a
  pub units-zero : (k : ℕ) → units k zero ≡ pos 0
  pub units-add :
      (k : ℕ) (a b : D) → digits a ≤ k → digits b ≤ k → units k (add a b) ≡ units k a +ℤ units k b
  pub units-sub :
      (k : ℕ) (a b : D) → digits a ≤ k → digits b ≤ k → units k (sub a b) ≡ units k a -ℤ units k b
  pub units-neg : (k : ℕ) (a : D) → digits a ≤ k → units k (neg a) ≡ pos 0 -ℤ units k a
  pub units_injective :
      (k : ℕ) (a b : D) → digits a ≤ k → digits b ≤ k → units k a ≡ units k b → a ≡ b
  pub less_than-units :
      (k : ℕ) (a b : D)
      → digits a ≤ k
      → digits b ≤ k
      → less_than a b ≡ ltb_ℤ (units k a) (units k b)
  pub mul_comm : (a b : D) → mul a b ≡ mul b a
  pub mul-add : (a b c : D) → mul a (add b c) ≡ add (mul a b) (mul a c)
  pub mul_nonneg :
      (a b : D)
      → less_than a zero ≡ false
      → less_than b zero ≡ false
      → less_than (mul a b) zero ≡ false
  pub of_string-to_string : (a : D) → of_string (to_string a) ≡ some a

module _ {D : Type 0} ⦃dec : Decimal D⦄ where
  abbrev pub of_int : ℤ → D
  of_int n = dec.of_int n

  abbrev pub zero : D
  zero = dec.zero

  abbrev pub add : D → D → D
  add a b = dec.add a b

  abbrev pub sub : D → D → D
  sub a b = dec.sub a b

  abbrev pub mul : D → D → D
  mul a b = dec.mul a b

  abbrev pub div : D → D → D
  div a b = dec.div a b

  abbrev pub neg : D → D
  neg a = dec.neg a

  abbrev pub round : ℕ → D → D
  round n a = dec.round n a

  abbrev pub less_than : D → D → Bool
  less_than a b = dec.less_than a b

  abbrev pub to_string : D → String
  to_string a = dec.to_string a

  abbrev pub of_string : String → Option D
  of_string s = dec.of_string s

  abbrev pub digits : D → ℕ
  digits a = dec.digits a

  abbrev pub units : ℕ → D → ℤ
  units k a = dec.units k a

  abbrev pub greater_than : D → D → Bool
  greater_than a b = less_than b a

  abbrev pub less_than_or_equal : D → D → Bool
  less_than_or_equal a b = not (less_than b a)

  abbrev pub greater_than_or_equal : D → D → Bool
  greater_than_or_equal a b = not (less_than a b)

  abbrev pub equal : D → D → Bool
  equal a b = not (less_than a b) && not (less_than b a)

  abbrev pub is_negative : D → Bool
  is_negative a = less_than a zero

  abbrev pub is_positive : D → Bool
  is_positive a = less_than zero a

  abbrev pub is_zero : D → Bool
  is_zero a = equal a zero

  -- -1, 0 or 1
  abbrev pub sign : D → ℤ
  sign a = if is_negative a then negsuc 0 else if is_positive a then pos 1 else pos 0

  unfoldable pub abs : D → D
  abs a = if is_negative a then neg a else a

  abbrev pub min_dec : D → D → D
  min_dec a b = if less_than b a then b else a

  abbrev pub max_dec : D → D → D
  max_dec a b = if less_than a b then b else a
