-- ===== src/Match/Available/Cancels.antt =====
-- Which orders the computation of the available balance cancels.
use mathlib.Core.List.{Memᴰ}
use mai3_broker.Base.{
  Result-cases, ℕ, Bool, String, ◌≡◌, List, [], ◌∷◌, inl, inr, ok, All, All-append, refl, arith,
  Option-cases,
}
use mai3_broker.Decimal.{Decimal}
use mai3_broker.Order.{Order}
use mai3_broker.Orderbook.Prices.{sort_slice, insert_sorted}
use mai3_broker.Mai3.Storage.{
  PerpetualStorage, LiquidityPoolStorage, AccountStorage, AccountComputed, get_perpetual,
}
use mai3_broker.Mai3.Account.{compute_account}
use mai3_broker.Match.Available.{
  OrderCancel, Funds, split_sides, split_active_orders, by_price_desc, by_price_asc, close_order,
  close_orders, release_margin, open_order, open_orders, side_available, compute_order_available,
}

module _ {D : Type 0} ⦃dec : Decimal D⦄ (P : String → D → Type 0) where
  abbrev Holds : Order D → Type 0
  Holds o = P o.order_hash o.available_amount

  abbrev HoldsCancel : OrderCancel D → Type 0
  HoldsCancel c = P c.order_hash c.to_cancel

  insert_sorted-All :
      (less : Order D → Order D → Bool) (o : Order D) (os : List (Order D))
      → Holds o
      → All Holds os
      → All Holds (insert_sorted less o os)
  unfolding insert_sorted
  insert_sorted-All less o [] h k = (h, tt)
  insert_sorted-All less o (x ∷ xs) h k = ground (arith, insert_sorted-All less o xs h k.1)

  sort_slice-All :
      (less : Order D → Order D → Bool) (os : List (Order D))
      → All Holds os
      → All Holds (sort_slice less os)
  unfolding sort_slice
  sort_slice-All less [] k = tt
  sort_slice-All less (o ∷ os) k =
      insert_sorted-All less o (sort_slice less os) k.0 (sort_slice-All less os k.1)

  split_sides-All :
      (os : List (Order D))
      → All Holds os
      → All Holds (split_sides os).0 × All Holds (split_sides os).1
  unfolding split_sides
  split_sides-All [] k = (tt, tt)
  split_sides-All (o ∷ os) k = ground (arith, split_sides-All os k.1)

  split_active_orders-All :
      (os : List (Order D))
      → All Holds os
      → All Holds (split_active_orders os).0 × All Holds (split_active_orders os).1
  unfolding split_active_orders
  split_active_orders-All os k =
      let (b, s) = split_sides-All os k in
      (
        sort_slice-All by_price_desc (split_sides os).0 b,
        sort_slice-All by_price_asc (split_sides os).1 s,
      )

  close_order-All :
      (pool : LiquidityPoolStorage D) (q : PerpetualStorage D) (o : Order D) (f : Funds D)
      → Holds o
      → All Holds (close_order pool q o f).1
  unfolding close_order
  close_order-All pool q o f h = ground arith

  close_orders-All :
      (pool : LiquidityPoolStorage D) (q : PerpetualStorage D) (os : List (Order D)) (f : Funds D)
      → All Holds os
      → All Holds (close_orders pool q os f).1
  unfolding close_orders
  close_orders-All pool q [] f k = tt
  close_orders-All pool q (o ∷ os) f k =
      let (f1, left) = close_order pool q o f in
      All-append Holds left (close_orders pool q os f1).1 (close_order-All pool q o f k.0)
        (close_orders-All pool q os f1 k.1)

  open_orders-All :
      (pool : LiquidityPoolStorage D) (i : ℕ) (q : PerpetualStorage D) (leverage : D)
      (os : List (Order D)) (f : Funds D)
      → All Holds os
      → All HoldsCancel (open_orders pool i q leverage os f).0
  unfolding open_orders
  open_orders-All pool i q leverage [] f k = tt
  open_orders-All pool i q leverage (o ∷ os) f k =
      let rest = open_orders-All pool i q leverage os (open_order pool i q leverage o f) k.1 in
      ground (arith, rest)

  side_available-All :
      (pool : LiquidityPoolStorage D) (i : ℕ) (leverage : D) (os : List (Order D)) (f : Funds D)
      → All Holds os
      → All HoldsCancel (side_available pool i leverage os f).0
  unfolding side_available
  side_available-All pool i leverage [] f k = tt
  side_available-All pool i leverage (o ∷ os) f k =
      elim (Option-cases (get_perpetual i pool.perpetuals)) [
        | inl none_there ↦ ground arith
        | inr (q, there) ↦
            let (f1, left) = close_orders pool q (o ∷ os) f in
            let opened =
              open_orders-All pool i q leverage left (release_margin f1)
                (close_orders-All pool q (o ∷ os) f k) in
            ground (arith, opened)
      ]

  computed-All :
      (pool : LiquidityPoolStorage D) (i : ℕ) (account : AccountStorage D) (os : List (Order D))
      (c : AccountComputed D)
      → All Holds os
      → compute_account pool i account ≡ ok c
      → All HoldsCancel (compute_order_available pool i account os).0
  unfolding compute_order_available
  computed-All pool i account os c k e =
      let f : Funds D = record {
        position = account.position_amount;
        margin = c.margin_balance;
        wallet = account.wallet_balance;
      } in
      let (buys, sells) = split_active_orders os in
      let (b, s) = split_active_orders-All os k in
      let both =
        All-append HoldsCancel (side_available pool i account.target_leverage buys f).0
          (side_available pool i account.target_leverage sells f).0
          (side_available-All pool i account.target_leverage buys f b)
          (side_available-All pool i account.target_leverage sells f s) in
      ground (arith, both)

  compute_order_available-All :
      (pool : LiquidityPoolStorage D) (i : ℕ) (account : AccountStorage D) (os : List (Order D))
      → All Holds os
      → All HoldsCancel (compute_order_available pool i account os).0
  unfolding compute_order_available
  compute_order_available-All pool i account os k =
      elim (Result-cases (compute_account pool i account)) [
        | inl (c, e) ↦ computed-All pool i account os c k e
        | inr (x, e) ↦ ground arith
      ]

-- Every entry of a list stands in it, and so in any list that holds what this one does.
All-Mem :
    {A : Type 0} (xs ys : List A) → ((x : A) → Memᴰ x xs → Memᴰ x ys) → All (λ x. Memᴰ x ys) xs
All-Mem [] ys f = tt
All-Mem (x ∷ xs) ys f = (f x (Memᴰ.head refl), All-Mem xs ys λ y m. f y (Memᴰ.tail m))

module _ {D : Type 0} ⦃dec : Decimal D⦄ where
  -- The order that a cancellation names is one of the list, and all that is available of it goes.
  abbrev pub IsOf : List (Order D) → String → D → Type 0
  IsOf os h a = (o : Order D) × Memᴰ o os × (h ≡ o.order_hash) × (a ≡ o.available_amount)

  abbrev pub CancelsOf : List (Order D) → List (OrderCancel D) → Type 0
  CancelsOf os cs = All (λ c. IsOf os (OrderCancel.order_hash c) (OrderCancel.to_cancel c)) cs

  own-IsOf :
      (os xs : List (Order D))
      → All (λ o. Memᴰ o os) xs
      → All (λ o. IsOf os (Order.order_hash o) (Order.available_amount o)) xs
  own-IsOf os [] k = tt
  own-IsOf os (x ∷ xs) k = ((x, k.0, refl, refl), own-IsOf os xs k.1)

  -- Each cancellation that the computation of an account's available balance asks for is of one of
  -- the account's orders, and for all that is available of that order.
  pub compute_order_available_cancels :
      (pool : LiquidityPoolStorage D) (i : ℕ) (account : AccountStorage D) (os : List (Order D))
      → CancelsOf os (compute_order_available pool i account os).0
  compute_order_available_cancels pool i account os =
      compute_order_available-All (IsOf os) pool i account os
        (own-IsOf os os (All-Mem os os λ x m. m))
