-- ===== src/Mai3/Math.antt =====
-- common/mai3/math.go: the square root, and the golden section search. The floating point numbers
-- are a parameter, with the operations of Go's float64 that the file uses.
use mai3_broker.Base.{ℕ, Bool, if◌then◌else◌}
use mai3_broker.Base.Int.{pos}
use mai3_broker.Decimal.{
  Decimal, of_int, zero, add, mul, div, less_than, greater_than_or_equal, equal,
}

pub record Floats (F D : Type 0) : Type 0 where
  pub of_decimal : D → F
  pub to_decimal : F → D
  pub nan : F
  pub is_nan : F → Bool
  pub zero : F
  pub half : F
  pub invphi : F
  pub invphi2 : F
  pub is_zero : F → Bool
  pub add : F → F → F
  pub sub : F → F → F
  pub mul : F → F → F
  pub neg : F → F
  pub abs : F → F
  pub sqrt : F → F
  pub less_than : F → F → Bool

module _ {D : Type 0} ⦃dec : Decimal D⦄ where
  abbrev pub one : D
  one = of_int (pos 1)

  abbrev pub two : D
  two = of_int (pos 2)

  abbrev pub four : D
  four = of_int (pos 4)

  -- decimal.NewFromFloat32(1.1)
  abbrev pub eleven_tenths : D
  eleven_tenths = div (of_int (pos 11)) (of_int (pos 10))

  -- The loop that makes the first guess no smaller than the root.
  unfoldable pub raise_guess : ℕ → D → D → D
  raise_guess ℕ.zero d next = next
  raise_guess (ℕ.suc n) d next =
      if less_than (mul next next) d then raise_guess n d (mul next eleven_tenths) else next

  -- Newton's loop, which stops when the next value is no smaller.
  unfoldable pub newton : ℕ → D → D → D
  newton ℕ.zero d y = y
  newton (ℕ.suc n) d y =
      let next = div (add (div d y) y) two in
      if greater_than_or_equal next y then y else newton n d next

  -- The source panics on a negative number.
  unfoldable pub sqrt_decimal : {F : Type 0} → Floats F D → ℕ → D → D
  unfolding raise_guess newton
  sqrt_decimal fl fuel d =
      if equal d one
      then one
      else if less_than d zero
      then zero
      else if equal d zero
      then zero
      else newton fuel d (raise_guess fuel d (fl.to_decimal (fl.sqrt (fl.of_decimal d))))

-- The variables of the loop: the interval, its length, the inner points and their values.
record Search (F : Type 0) : Type 0 where
  a : F
  b : F
  h : F
  c : F
  d : F
  fc : F
  fd : F

module _ {F D : Type 0} (fl : Floats F D) where
  abbrev middle : F → F → F
  middle a b = fl.mul (fl.add a b) fl.half

  abbrev ordered : Search F → Search F
  ordered s = if fl.less_than s.b s.a then record s { a = s.b; b = s.a } else s

  abbrev with_c : (F → F) → Search F → Search F
  with_c f s =
      let c = fl.add s.a (fl.mul fl.invphi2 s.h) in
      if fl.is_nan s.c then record s { c = c; fc = f c } else s

  abbrev with_d : (F → F) → Search F → Search F
  with_d f s =
      let d = fl.add s.a (fl.mul fl.invphi s.h) in
      if fl.is_nan s.d then record s { d = d; fd = f d } else s

  abbrev narrowed : Search F → Search F
  narrowed s =
      let h = fl.mul s.h fl.invphi in
      if fl.less_than s.fc s.fd
      then record s { b = s.d; h = h; c = fl.nan; fc = fl.nan; d = s.c; fd = s.fc }
      else record s { a = s.c; h = h; c = s.d; fc = s.fd; d = fl.nan; fd = fl.nan }

  gss_loop : ℕ → (F → F) → F → Search F → F
  gss_loop ℕ.zero f tol s = middle s.a s.b
  gss_loop (ℕ.suc n) f tol s =
      let rest = gss_loop n f tol (narrowed (with_d f (with_c f (ordered s)))) in
      if fl.less_than s.h tol then middle s.a s.b else rest

  unfoldable pub gss : (F → F) → F → F → F → ℕ → F
  unfolding gss_loop
  gss f a b tol max_iter = gss_loop max_iter f tol (record {
    a = lower;
    b = upper;
    h = fl.sub upper lower;
    c = fl.nan;
    d = fl.nan;
    fc = fl.nan;
    fd = fl.nan;
  })
    where
      lower : F
      lower = if fl.less_than b a then b else a

      upper : F
      upper = if fl.less_than b a then a else b
