-- ===== src/Match/Item/Amounts.antt =====
-- What a matched item takes of its order.
use mai3_broker.Base.{
  subst, ◌||◌, Result, if◌then◌else◌, ℕ, ◌+◌, ◌≡◌, ◌⊎◌, Bool, true, false, ok, err, arith, inl, inr,
  Bool-cases, refl,
}
use mai3_broker.Base.Actions.{pure-eq-ok}
use mai3_broker.Decimal.{
  Decimal, zero, add, sub, abs, less_than, is_zero, equal→eq, digits, exact, eq_of_units,
}
use mai3_broker.Orderbook.Level.{MemoryOrder}
use mai3_broker.Mai3.Math.{Floats}
use mai3_broker.Mai3.Pool.{Market, compute_amm_max_trade_amount}
use mai3_broker.Match.Item.{
  MatchItem, ItemError, unsafe_after_trade, item_of, try_trade, get_reduced_item, get_match_item,
}

module _ {D : Type 0} ⦃dec : Decimal D⦄ where
  abbrev pub left_of : MatchItem D → D
  left_of item = sub item.order.amount (add item.matched_amount item.order_total_cancel)

  -- What is left of the order in the book, matched and canceled amounts taken off, is nothing or can
  -- still be traded.
  abbrev pub IsTradable : MatchItem D → Type 0
  IsTradable item =
      (left_of item ≡ zero)
      ⊎ (less_than (abs (left_of item)) (abs item.order.min_trade_amount) ≡ false)

  -- All that is left is canceled, or nothing.
  abbrev pub CancelsRest : MatchItem D → Type 0
  CancelsRest item =
      (item.order_total_cancel ≡ sub item.order.amount item.matched_amount)
      ⊎ (item.order_total_cancel ≡ zero)

  item_of-CancelsRest : (order : MemoryOrder D) (m : D) → CancelsRest (item_of order m)
  unfolding item_of
  item_of-CancelsRest order m = ground arith

  sub_add_sub : (a m : D) → sub a (add m (sub a m)) ≡ zero
  sub_add_sub a m =
      let k = digits a + digits m in eq_of_units k _ _ (omega exact) (omega exact) (omega exact)

  sub-add_zero : (a m : D) → sub a (add m zero) ≡ sub a m
  sub-add_zero a m =
      let k = digits a + digits m in eq_of_units k _ _ (omega exact) (omega exact) (omega exact)

  item_of-IsTradable : (order : MemoryOrder D) (m : D) → IsTradable (item_of order m)
  unfolding item_of
  item_of-IsTradable order m = ground (
    arith,
    sub_add_sub order.amount m,
    sub-add_zero order.amount m,
    equal→eq (sub order.amount m) zero,
  )

module _ {F D : Type 0} ⦃dec : Decimal D⦄ (fl : Floats F D) (round_bank : ℕ → D → D) (fuel : ℕ)
    (tolerance : F) (i : ℕ) where
  -- A trial of the matched amount was safe, and left the market as it is afterwards.
  abbrev pub IsTried : MemoryOrder D → MatchItem D → Market D → Type 0
  IsTried order item after =
      (item.order ≡ order)
      × IsTradable item
      × CancelsRest item
      × (before : Market D) × (try_trade fl round_bank fuel tolerance i item.matched_amount before
          ≡ (true, after))

  item_of-IsTried :
      (order : MemoryOrder D) (m : D) (before after : Market D)
      → try_trade fl round_bank fuel tolerance i m before ≡ (true, after)
      → IsTried order (item_of order m) after
  unfolding item_of
  item_of-IsTried order m before after e =
      (refl, item_of-IsTradable order m, item_of-CancelsRest order m, before, e)

  -- An attempt at a trade, with what is done if it is not safe.
  attempt-IsTried :
      (amount : D) (order : MemoryOrder D) (item : MatchItem D) (market market' : Market D)
      (otherwise : Market D → Result ItemError (MatchItem D) × Market D)
      → ((m : Market D) → otherwise m ≡ (ok item, market') → IsTried order item market')
      → (let (safe, m) = try_trade fl round_bank fuel tolerance i amount market in
          if safe then (ok (item_of order amount), m) else otherwise m)
        ≡ (ok item, market')
      → IsTried order item market'
  attempt-IsTried amount order item market market' otherwise k e =
      go (try_trade fl round_bank fuel tolerance i amount market) refl e
    where
      go :
          (t : Bool × Market D)
          → try_trade fl round_bank fuel tolerance i amount market ≡ t
          → (if t.0 then (ok (item_of order amount), t.1) else otherwise t.1) ≡ (ok item, market')
          → IsTried order item market'
      go (true, m) h e =
          let (same, there) = pure-eq-ok (item_of order amount) item m market' e in
          subst (λ x. IsTried order x market') same
            (subst (IsTried order (item_of order amount)) there
              (item_of-IsTried order amount market m h))
      go (false, m) h e = k m e

  get_reduced_item-IsTried :
      (matched : D) (order : MemoryOrder D) (is_buy : Bool) (item : MatchItem D)
      (market market' : Market D)
      → get_reduced_item fl round_bank fuel tolerance i matched order is_buy market
        ≡ (ok item, market')
      → IsTried order item market'
  unfolding get_reduced_item
  get_reduced_item-IsTried matched order is_buy item market market' e =
      let amount =
        compute_amm_max_trade_amount fl round_bank fuel market i tolerance matched is_buy in
      elim (Bool-cases (is_zero amount || less_than (abs amount) order.min_trade_amount)) [
        | inl z ↦ absurd (ground arith)
        | inr z ↦
            attempt-IsTried amount order item market market' (λ m. (err unsafe_after_trade, m))
              (λ m h. absurd (cc)) (rw z at e)
      ]

  -- If an order gets a matched item, then a trial trade of just the matched amount has left the
  -- trader safe, the pool and the account are those after this trade, and what is left of the order
  -- is nothing or no less than its least amount of trade; it cancels all the rest of it or nothing.
  pub get_match_item-IsTried :
      (matched : D) (order : MemoryOrder D) (is_buy : Bool) (item : MatchItem D)
      (market market' : Market D)
      → get_match_item fl round_bank fuel tolerance i matched order is_buy market
        ≡ (ok item, market')
      → IsTried order item market'
  unfolding get_match_item
  get_match_item-IsTried matched order is_buy item market market' e =
      attempt-IsTried matched order item market market'
        (get_reduced_item fl round_bank fuel tolerance i matched order is_buy)
        (λ m h. get_reduced_item-IsTried matched order is_buy item m market' h) e
