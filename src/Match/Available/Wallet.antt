-- ===== src/Match/Available/Wallet.antt =====
-- What the computation of the available balance keeps.
use mai3_broker.Base.{
  ℕ, ◌+◌, ◌≡◌, List, [], ◌∷◌, ◌≢◌, ◌⊎◌, inl, inr, List-cases, ap, ◌∙◌, if◌then◌else◌, false, arith,
}
use mai3_broker.Base.Int.{one_part}
use mai3_broker.Decimal.{
  Decimal, zero, add, sub, mul, abs, is_zero, max_dec, less_than, digits, units, exact, units-add,
  units-sub, eq_of_units,
}
use mai3_broker.Amount.{split_amount}
use mai3_broker.Order.{Order}
use mai3_broker.Mai3.Storage.{PerpetualStorage, LiquidityPoolStorage}
use mai3_broker.Match.Available.{
  Funds, close_order, close_orders, withdrawn, excess_margin, margin_after_close, open_orders,
  open_order, open_order_cost,
}

module _ {D : Type 0} ⦃dec : Decimal D⦄ where
  -- Not less than.
  abbrev pub AtLeast : D → D → Type 0
  AtLeast x y = less_than x y ≡ false

  AtLeast-trans : (x y z : D) → AtLeast x y → AtLeast y z → AtLeast x z
  AtLeast-trans x y z h h' =
      let k = digits x + digits y + digits z in
      ground (
        arith,
        dec.less_than-units k x y (omega arith) (omega arith),
        dec.less_than-units k y z (omega arith) (omega arith),
        dec.less_than-units k x z (omega arith) (omega arith),
        one_part (units k x),
        one_part (units k y),
        one_part (units k z),
      )

  AtLeast-refl : (x : D) → AtLeast x x
  AtLeast-refl x =
      let k = digits x in
      ground (arith, dec.less_than-units k x x (omega arith) (omega arith), one_part (units k x))

  add-AtLeast : (x y : D) → AtLeast y zero → AtLeast (add x y) x
  add-AtLeast x y h =
      let k = digits x + digits y in
      ground (
        arith,
        dec.less_than-units k (add x y) x (omega exact) (omega arith),
        dec.less_than-units k y zero (omega arith) (omega exact),
        dec.units-zero k,
        units-add k x y (omega arith) (omega arith),
        one_part (units k x),
        one_part (units k y),
      )

  max_dec-AtLeast : (y : D) → AtLeast (max_dec zero y) zero
  max_dec-AtLeast y =
      let k = digits y in
      ground (
        arith,
        dec.less_than-units k zero y (omega exact) (omega arith),
        dec.less_than-units k y zero (omega arith) (omega exact),
        dec.less_than-units k (zero {D = D}) zero (omega exact) (omega exact),
        dec.units-zero k,
        one_part (units k y),
      )

  withdrawn-AtLeast :
      (q : PerpetualStorage D) (f : Funds D) (after close : D)
      → AtLeast (withdrawn q f after close) zero
  unfolding withdrawn
  withdrawn-AtLeast q f after close =
      ground (arith, max_dec-AtLeast (excess_margin q f after close), AtLeast-refl (zero {D = D}))

  close_order-AtLeast :
      (pool : LiquidityPoolStorage D) (q : PerpetualStorage D) (o : Order D) (f : Funds D)
      → AtLeast (close_order pool q o f).0.wallet f.wallet
  unfolding close_order
  close_order-AtLeast pool q o f =
      let close = (split_amount f.position o.check_amount).0 in
      let withdraw = withdrawn q f (margin_after_close pool q f o close) close in
      ground (
        arith,
        AtLeast-refl f.wallet,
        withdrawn-AtLeast q f (margin_after_close pool q f o close) close,
        add-AtLeast f.wallet withdraw,
      )

  -- Closing positions, whichever the orders, the pool and the prices, never takes from the wallet.
  pub close_orders_wallet :
      (pool : LiquidityPoolStorage D) (q : PerpetualStorage D) (os : List (Order D)) (f : Funds D)
      → AtLeast (close_orders pool q os f).0.wallet f.wallet
  unfolding close_orders
  close_orders_wallet pool q [] f = AtLeast-refl f.wallet
  close_orders_wallet pool q (o ∷ os) f =
      let f1 = (close_order pool q o f).0 in
      AtLeast-trans (close_orders pool q os f1).0.wallet f1.wallet f.wallet
        (close_orders_wallet pool q os f1) (close_order-AtLeast pool q o f)

  -- What the account loses by each order at once: the fee, and the loss that its price means.
  unfoldable pub outlays : LiquidityPoolStorage D → ℕ → D → List (Order D) → D
  outlays pool i leverage [] = zero
  outlays pool i leverage (o ∷ os) =
      let c = open_order_cost pool i o leverage in
      add (sub c.potential_loss c.fee) (outlays pool i leverage os)

  -- The initial margin of a position, with the reserve.
  abbrev pub required : PerpetualStorage D → D → D
  required q position =
      add (mul (mul q.mark_price (abs position)) q.initial_margin_rate) q.keeper_gas_reward

  moved_sum :
      (w m loss fee cost : D)
      → add (sub w cost) (add (sub (add m loss) fee) cost) ≡ add (add w m) (sub loss fee)
  moved_sum w m loss fee cost =
      let k = digits w + digits m + digits loss + digits fee + digits cost in
      eq_of_units k _ _ (omega exact) (omega exact) (omega exact)

  sum_assoc : (x y z : D) → add (add x y) z ≡ add x (add y z)
  sum_assoc x y z =
      let k = digits x + digits y + digits z in
      eq_of_units k _ _ (omega exact) (omega exact) (omega exact)

  sum_zero : (x : D) → x ≡ add x zero
  sum_zero x = eq_of_units (digits x) _ _ (omega exact) (omega exact) (omega exact)

  floor-AtLeast : (im m c : D) → AtLeast (add m (max_dec (sub im m) c)) im
  floor-AtLeast im m c =
      let k = digits im + digits m + digits c in
      ground (
        arith,
        dec.less_than-units k (sub im m) c (omega exact) (omega arith),
        dec.less_than-units k (add m (sub im m)) im (omega exact) (omega arith),
        dec.less_than-units k (add m c) im (omega exact) (omega arith),
        units-add k m (sub im m) (omega arith) (omega exact),
        units-add k m c (omega arith) (omega arith),
        units-sub k im m (omega arith) (omega arith),
        one_part (units k im),
        one_part (units k m),
        one_part (units k c),
      )

  open_order-AtLeast :
      (pool : LiquidityPoolStorage D) (i : ℕ) (q : PerpetualStorage D) (leverage : D) (o : Order D)
      (f : Funds D)
      → AtLeast
          (open_order pool i q leverage o f).margin
          (required q (open_order pool i q leverage o f).position)
  unfolding open_order
  open_order-AtLeast pool i q leverage o f =
      let c = open_order_cost pool i o leverage in
      floor-AtLeast (required q (add f.position o.check_amount))
        (sub (add f.margin c.potential_loss) c.fee)
        (if is_zero f.position then add c.cost q.keeper_gas_reward else c.cost)

  open_order_sum :
      (pool : LiquidityPoolStorage D) (i : ℕ) (q : PerpetualStorage D) (leverage : D) (o : Order D)
      (f : Funds D)
      → (let f1 = open_order pool i q leverage o f in add f1.wallet f1.margin)
        ≡ add
            (add f.wallet f.margin)
            (let c = open_order_cost pool i o leverage in sub c.potential_loss c.fee)
  unfolding open_order
  open_order_sum pool i q leverage o f =
      let c = open_order_cost pool i o leverage in
      let im = required q (add f.position o.check_amount) in
      moved_sum f.wallet f.margin c.potential_loss c.fee (
        max_dec (sub im (sub (add f.margin c.potential_loss) c.fee))
          (if is_zero f.position then add c.cost q.keeper_gas_reward else c.cost))

  -- Orders that open a position are paid from the wallet into the margin: whatever the orders, the
  -- wallet and the margin together change by what the orders lose at once.
  open_orders_sum :
      (pool : LiquidityPoolStorage D) (i : ℕ) (q : PerpetualStorage D) (leverage : D)
      (os : List (Order D)) (f : Funds D)
      → (let f' = (open_orders pool i q leverage os f).1 in add f'.wallet f'.margin)
        ≡ add (add f.wallet f.margin) (outlays pool i leverage os)
  unfolding open_orders outlays
  open_orders_sum pool i q leverage [] f = sum_zero (add f.wallet f.margin)
  open_orders_sum pool i q leverage (o ∷ os) f =
      let c = open_order_cost pool i o leverage in
      let f1 = open_order pool i q leverage o f in
      open_orders_sum pool i q leverage os f1
      ∙ ap (λ x. add x (outlays pool i leverage os)) (open_order_sum pool i q leverage o f)
      ∙ sum_assoc (add f.wallet f.margin) (sub c.potential_loss c.fee) (outlays pool i leverage os)

  open_orders_margin :
      (pool : LiquidityPoolStorage D) (i : ℕ) (q : PerpetualStorage D) (leverage : D)
      (os : List (Order D)) (f : Funds D)
      → AtLeast f.margin (required q f.position)
      → (let f' = (open_orders pool i q leverage os f).1 in
          AtLeast f'.margin (required q f'.position))
  unfolding open_orders
  open_orders_margin pool i q leverage [] f h = h
  open_orders_margin pool i q leverage (o ∷ os) f h =
      open_orders_margin pool i q leverage os (open_order pool i q leverage o f)
        (open_order-AtLeast pool i q leverage o f)

  open_orders_wallet :
      (pool : LiquidityPoolStorage D) (i : ℕ) (q : PerpetualStorage D) (leverage : D)
      (os : List (Order D)) (f : Funds D)
      → AtLeast f.wallet zero
      → (open_orders pool i q leverage os f).0 ≡ []
      → AtLeast (open_orders pool i q leverage os f).1.wallet zero
  unfolding open_orders
  open_orders_wallet pool i q leverage [] f h e = h
  open_orders_wallet pool i q leverage (o ∷ os) f h e =
      let f1 = open_order pool i q leverage o f in
      ground (arith, open_orders_wallet pool i q leverage os f1)

  -- Take one or more orders that open a position, and a wallet that is not negative. The wallet and
  -- the margin together lose just the fees and the losses of the orders, the margin ends at no less
  -- than the initial margin and the reserve of the position that all of them make, and some order
  -- has to be canceled or the wallet ends at no less than zero.
  pub open_orders_paid :
      (pool : LiquidityPoolStorage D) (i : ℕ) (q : PerpetualStorage D) (leverage : D) (o : Order D)
      (os : List (Order D)) (f : Funds D)
      → AtLeast f.wallet zero
      → (let (cancels, f') = open_orders pool i q leverage (o ∷ os) f in
          (add f'.wallet f'.margin ≡ add (add f.wallet f.margin) (outlays pool i leverage (o ∷ os)))
          × AtLeast f'.margin (required q f'.position)
          × ((cancels ≢ []) ⊎ AtLeast f'.wallet zero))
  unfolding open_orders
  open_orders_paid pool i q leverage o os f h = (
    open_orders_sum pool i q leverage (o ∷ os) f,
    open_orders_margin pool i q leverage os (open_order pool i q leverage o f)
        (open_order-AtLeast pool i q leverage o f),
    elim (List-cases (open_orders pool i q leverage (o ∷ os) f).0) [
      | inl none_canceled ↦ inr (open_orders_wallet pool i q leverage (o ∷ os) f h none_canceled)
      | inr (c, cs, some_canceled) ↦ inl (λ e. absurd (cc))
    ],
  )
