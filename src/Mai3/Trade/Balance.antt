-- ===== src/Mai3/Trade/Balance.antt =====
-- What a trade at a given price does to the account, in exact amounts.
use mai3_broker.Base.{
  ℕ, ◌+◌, ◌≡◌, refl, sym, ap, subst, ◌∙◌, some, true, false, not, Result, ok, err, inl, inr, arith,
  Bool-cases, if◌then◌else◌,
}
use mai3_broker.Base.Actions.{Action, pure, ◌>>=◌, ◌>>◌, >>=-eq-ok, pure-eq-ok}
use mai3_broker.Decimal.{
  Decimal, zero, add, sub, mul, digits, exact, eq_of_units, is_zero, equal→eq, mul-zero, add-zero,
  less_than, is_negative, neg, units-add, units-sub, units-neg,
}
use mai3_broker.Amount.{split_amount}
use mai3_broker.Amount.Split.{split_amount_sum}
use mai3_broker.Mai3.Storage.{
  PerpetualStorage, LiquidityPoolStorage, AccountStorage, AccountComputed, TradeError,
  get_perpetual,
}
use mai3_broker.Mai3.Account.{
  account_of, compute_account, compute_decrease_position, compute_increase_position, compute_fee,
  move_position,
}
use mai3_broker.Mai3.Trade.{
  TradeResult, adjust_margin_leverage, reading, changing, withdraw_cash, move_collateral, deposit,
  trade_position, settle_margin, compute_trade_with_price,
}

module _ {D : Type 0} ⦃dec : Decimal D⦄ where
  -- The account `a` after it has bought `x` at `price`.
  record IsMoved (q : PerpetualStorage D) (price x : D) (a a' : AccountStorage D) : Type 0 where
    position : a'.position_amount ≡ add a.position_amount x
    cash :
        a'.cash_balance ≡ add (sub a.cash_balance (mul price x)) (mul q.unit_accumulative_funding x)
    wallet : a'.wallet_balance ≡ a.wallet_balance

  cash_unmoved : (c u v : D) → u ≡ zero → v ≡ zero → c ≡ add (sub c u) v
  cash_unmoved c u v hu hv =
      let k = digits c + digits u + digits v in
      rw (hu, hv) (eq_of_units k _ _ (omega exact) (omega exact) (omega exact))

  IsMoved-zero :
      (q : PerpetualStorage D) (price x : D) (a : AccountStorage D)
      → is_zero x ≡ true
      → IsMoved q price x a a
  IsMoved-zero q price x a z =
      let e = equal→eq x zero z in
      record {
        position = sym (add-zero a.position_amount) ∙ ap (add a.position_amount) (sym e);
        cash =
            cash_unmoved a.cash_balance (mul price x) (mul q.unit_accumulative_funding x)
              (ap (mul price) e ∙ mul-zero price)
              (ap (mul q.unit_accumulative_funding) e ∙ mul-zero q.unit_accumulative_funding);
        wallet = refl;
      }

  decrease-IsMoved :
      (p : LiquidityPoolStorage D) (i : ℕ) (q : PerpetualStorage D) (price x : D)
      (a a' : AccountStorage D)
      → get_perpetual i p.perpetuals ≡ some q
      → changing (compute_decrease_position p i price x) a ≡ (ok tt, a')
      → IsMoved q price x a a'
  unfolding compute_decrease_position move_position
  decrease-IsMoved p i q price x a a' h e = record {
    position = ground arith;
    cash = ground arith;
    wallet = ground arith;
  }

  increase-IsMoved :
      (p : LiquidityPoolStorage D) (i : ℕ) (q : PerpetualStorage D) (price x : D)
      (a a' : AccountStorage D)
      → get_perpetual i p.perpetuals ≡ some q
      → changing (compute_increase_position p i price x) a ≡ (ok tt, a')
      → IsMoved q price x a a'
  unfolding compute_increase_position move_position
  increase-IsMoved p i q price x a a' h e = record {
    position = ground arith;
    cash = ground arith;
    wallet = ground arith;
  }

  assoc : (a b c : D) → add (add a b) c ≡ add a (add b c)
  assoc a b c =
      let k = digits a + digits b + digits c in
      eq_of_units k _ _ (omega exact) (omega exact) (omega exact)

  regroup : (c u v s t : D) → add (sub (add (sub c u) v) s) t ≡ add (sub c (add u s)) (add v t)
  regroup c u v s t =
      let k = digits c + digits u + digits v + digits s + digits t in
      eq_of_units k _ _ (omega exact) (omega exact) (omega exact)

  IsMoved-add :
      (q : PerpetualStorage D) (price x y : D) (a b c : AccountStorage D)
      → IsMoved q price x a b
      → IsMoved q price y b c
      → IsMoved q price (add x y) a c
  IsMoved-add q price x y a b c m n =
      let f = q.unit_accumulative_funding in
      record {
        position = n.position ∙ ap (λ p. add p y) m.position ∙ assoc a.position_amount x y;
        cash =
            n.cash
            ∙ ap (λ k. add (sub k (mul price y)) (mul f y)) m.cash
            ∙ regroup a.cash_balance (mul price x) (mul f x) (mul price y) (mul f y)
            ∙ (λ j.
                add (sub a.cash_balance (sym (dec.mul-add price x y) j))
                  (sym (dec.mul-add f x y) j));
        wallet = n.wallet ∙ m.wallet;
      }

  trade_position-IsMoved :
      (p : LiquidityPoolStorage D) (i : ℕ) (q : PerpetualStorage D) (price c o : D)
      (a a' : AccountStorage D)
      → get_perpetual i p.perpetuals ≡ some q
      → trade_position p i price c o a ≡ (ok tt, a')
      → IsMoved q price (add c o) a a'
  unfolding trade_position
  trade_position-IsMoved p i q price c o a a' h e =
      let (_, b, first, second) = >>=-eq-ok closing (λ _. opening) a e in
      IsMoved-add q price c o a b a' (closed b first) (opened b second)
    where
      closing : Action TradeError (AccountStorage D) (Unit {0})
      closing = if is_zero c then pure tt else changing (compute_decrease_position p i price c)

      opening : Action TradeError (AccountStorage D) (Unit {0})
      opening = if is_zero o then pure tt else changing (compute_increase_position p i price o)

      closed : (b : AccountStorage D) → closing a ≡ (ok tt, b) → IsMoved q price c a b
      closed b e = elim (Bool-cases (is_zero c)) [
        | inl z ↦
            subst (IsMoved q price c a) (pure-eq-ok tt tt a b (rw z at e)).1
              (IsMoved-zero q price c a z)
        | inr z ↦ decrease-IsMoved p i q price c a b h (rw z at e)
      ]

      opened : (b : AccountStorage D) → opening b ≡ (ok tt, a') → IsMoved q price o b a'
      opened b e = elim (Bool-cases (is_zero o)) [
        | inl z ↦
            subst (IsMoved q price o b) (pure-eq-ok tt tt b a' (rw z at e)).1
              (IsMoved-zero q price o b z)
        | inr z ↦ increase-IsMoved p i q price o b a' h (rw z at e)
      ]

  -- What the margin settlement leaves.
  record IsSettled (q : PerpetualStorage D) (o : D) (r : TradeResult D) (a a' : AccountStorage D)
      : Type 0 where
    position : a'.position_amount ≡ a.position_amount
    worth :
        add a'.wallet_balance a'.cash_balance
        ≡ sub (add a.wallet_balance a.cash_balance) r.total_fee
    solvent : is_negative a'.wallet_balance ≡ false
    computed : r.after_trade ≡ account_of q a'
    covered : is_zero o ≡ false → r.is_safe ≡ true

  moved_collateral : (w c f x : D) → add (sub w x) (add (sub c f) x) ≡ sub (add w c) f
  moved_collateral w c f x =
      let k = digits w + digits c + digits f + digits x in
      eq_of_units k _ _ (omega exact) (omega exact) (omega exact)

  sub_nonneg : (w x : D) → less_than w x ≡ false → is_negative (sub w x) ≡ false
  sub_nonneg w x h =
      let k = digits w + digits x in
      ground (
        arith,
        dec.less_than-units k w x (omega arith) (omega arith),
        dec.less_than-units k (sub w x) zero (omega exact) (omega exact),
        dec.units-zero k,
        units-sub k w x (omega arith) (omega arith),
      )

  -- A read leaves the account as it is.
  reading-eq-ok :
      {A B : Type 0} (f : AccountStorage D → Result TradeError A)
      (k : A → Action TradeError (AccountStorage D) B) (a a' : AccountStorage D) (b : B)
      → (reading f >>= k) a ≡ (ok b, a')
      → (x : A) × (f a ≡ ok x) × (k x a ≡ (ok b, a'))
  reading-eq-ok {A} {B} f k a a' b e = go (f a) refl e
    where
      go :
          (r : Result TradeError A)
          → f a ≡ r
          → (elim r [ ok x ↦ k x a | err y ↦ (err y, a) ]) ≡ (ok b, a')
          → (x : A) × (f a ≡ ok x) × (k x a ≡ (ok b, a'))
      go (ok x) h e = (x, h, e)
      go (err y) h e = absurd (cc)

  deposit-eq-ok :
      {B : Type 0} (x : D) (k : Action TradeError (AccountStorage D) B) (a a' : AccountStorage D)
      (b : B)
      → (changing (deposit x) >>= λ _. k) a ≡ (ok b, a')
      → (less_than a.wallet_balance x ≡ false) × (k (move_collateral x a) ≡ (ok b, a'))
  unfolding deposit
  deposit-eq-ok x k a a' b e = (ground arith, ground arith)

  compute_account-eq-ok :
      (p : LiquidityPoolStorage D) (i : ℕ) (q : PerpetualStorage D) (a : AccountStorage D)
      (x : AccountComputed D)
      → get_perpetual i p.perpetuals ≡ some q
      → compute_account p i a ≡ ok x
      → x ≡ account_of q a
  unfolding compute_account
  compute_account-eq-ok p i q a x h e = ground arith

  less_than_irrefl : (a : D) → less_than a a ≡ false
  less_than_irrefl a =
      ground (arith, dec.less_than-units (digits a) a a (omega arith) (omega arith))

  -- Margin is taken back only down to the initial margin.
  adjust_floor :
      (p : LiquidityPoolStorage D) (i : ℕ) (charged : AccountComputed D) (a : AccountStorage D)
      (price c o fee x : D)
      → is_zero o ≡ false
      → adjust_margin_leverage p i charged a price c o fee ≡ ok x
      → less_than x (neg charged.available_margin) ≡ false
  unfolding adjust_margin_leverage
  adjust_floor p i charged a price c o fee x z e =
      ground (arith, less_than_irrefl (neg charged.available_margin))

  available_with :
      (c x f m pm rs : D)
      → sub (sub (add (sub (add c x) f) m) pm) rs ≡ add (sub (sub (add (sub c f) m) pm) rs) x
  available_with c x f m pm rs =
      let k = digits c + digits x + digits f + digits m + digits pm + digits rs in
      eq_of_units k _ _ (omega exact) (omega exact) (omega exact)

  covered_sum : (v x : D) → less_than x (neg v) ≡ false → less_than (add v x) zero ≡ false
  covered_sum v x h =
      let k = digits v + digits x in
      ground (
        arith,
        dec.less_than-units k x (neg v) (omega arith) (omega exact),
        dec.less_than-units k (add v x) zero (omega exact) (omega exact),
        dec.units-zero k,
        units-add k v x (omega arith) (omega arith),
        units-neg k v (omega arith),
      )

  -- The margin that is deposited is available in full.
  deposited_is_im_safe :
      (q : PerpetualStorage D) (a : AccountStorage D) (x : D)
      → less_than x (neg (AccountComputed.available_margin (account_of q a))) ≡ false
      → AccountComputed.is_im_safe (account_of q (move_collateral x a)) ≡ true
  unfolding account_of
  deposited_is_im_safe q a x h =
      rw
        (
          available_with a.cash_balance x (mul a.position_amount q.unit_accumulative_funding)
              (mul q.mark_price a.position_amount) _ _,
          covered_sum _ x h,
        )
        refl

  settle_margin-IsSettled :
      (p : LiquidityPoolStorage D) (i : ℕ) (q : PerpetualStorage D) (price amount rate c o : D)
      (r : TradeResult D) (a a' : AccountStorage D)
      → get_perpetual i p.perpetuals ≡ some q
      → settle_margin p i price amount rate c o a ≡ (ok r, a')
      → IsSettled q o r a a'
  unfolding settle_margin
  settle_margin-IsSettled p i q price amount rate c o r a a' h e =
      let (traded, _, k1) = reading-eq-ok (compute_account p i) with_traded a a' r e in
      let (fee, _, k2) =
        reading-eq-ok (λ _. compute_fee (not (is_zero o)) price amount rate traded) with_fee a a' r
          k1 in
      charged_part fee k2
    where
      result_of : D → AccountComputed D → TradeResult D
      result_of fee after = record {
        after_trade = after;
        is_safe = if is_zero o then after.is_margin_safe else after.is_im_safe;
        total_fee = fee;
      }

      result : D → AccountComputed D → Action TradeError (AccountStorage D) (TradeResult D)
      result fee after = pure (result_of fee after)

      ending : D → Action TradeError (AccountStorage D) (TradeResult D)
      ending fee = reading (compute_account p i) >>= result fee

      with_adjust : D → D → Action TradeError (AccountStorage D) (TradeResult D)
      with_adjust fee x = changing (deposit x) >>= λ _. ending fee

      with_charged : D → AccountComputed D → Action TradeError (AccountStorage D) (TradeResult D)
      with_charged fee charged =
          reading (λ a. adjust_margin_leverage p i charged a price c o fee) >>= with_adjust fee

      charging : D → Action TradeError (AccountStorage D) (TradeResult D)
      charging fee = reading (compute_account p i) >>= with_charged fee

      with_fee : D → Action TradeError (AccountStorage D) (TradeResult D)
      with_fee fee = changing (λ a. ok (withdraw_cash fee a)) >>= λ _. charging fee

      with_traded : AccountComputed D → Action TradeError (AccountStorage D) (TradeResult D)
      with_traded traded =
          reading (λ _. compute_fee (not (is_zero o)) price amount rate traded) >>= with_fee

      deposited :
          (fee x : D)
          → less_than a.wallet_balance x ≡ false
          → (is_zero o ≡ false
              → less_than x
                  (neg (AccountComputed.available_margin (account_of q (withdraw_cash fee a))))
                ≡ false)
          → ending fee (move_collateral x (withdraw_cash fee a)) ≡ (ok r, a')
          → IsSettled q o r a a'
      deposited fee x within floor e =
          let b = move_collateral x (withdraw_cash fee a) in
          let (after, found, k) = reading-eq-ok (compute_account p i) (result fee) b a' r e in
          let (same, here) = pure-eq-ok (result_of fee after) r b a' k in
          subst (IsSettled q o r a) here (
            subst (λ r. IsSettled q o r a b) same
              (record {
                position = refl;
                worth = moved_collateral a.wallet_balance a.cash_balance fee x;
                solvent = sub_nonneg a.wallet_balance x within;
                computed = compute_account-eq-ok p i q b after h found;
                covered = λ z. rw z (
                    ap AccountComputed.is_im_safe (compute_account-eq-ok p i q b after h found)
                    ∙ deposited_is_im_safe q (withdraw_cash fee a) x (floor z));
              }))

      charged_part :
          (fee : D) → charging fee (withdraw_cash fee a) ≡ (ok r, a') → IsSettled q o r a a'
      charged_part fee e =
          let b = withdraw_cash fee a in
          let (charged, at, k1) = reading-eq-ok (compute_account p i) (with_charged fee) b a' r e in
          let (x, adjusted, k2) =
            reading-eq-ok (λ a. adjust_margin_leverage p i charged a price c o fee)
              (with_adjust fee) b a' r k1 in
          let (within, k3) = deposit-eq-ok x (ending fee) b a' r k2 in
          deposited fee x within
            (λ z.
              subst (λ v. less_than x (neg (AccountComputed.available_margin v)) ≡ false)
                (compute_account-eq-ok p i q b charged h at)
                (adjust_floor p i charged b price c o fee x z adjusted))
            k3

  started :
      (p : LiquidityPoolStorage D) (i : ℕ) (price amount rate : D) (r : TradeResult D)
      (a a' : AccountStorage D)
      → compute_trade_with_price p i price amount rate a ≡ (ok r, a')
      → let (c, o) = split_amount a.position_amount amount in
        (trade_position p i price c o >> settle_margin p i price amount rate c o) a ≡ (ok r, a')
  unfolding compute_trade_with_price
  started p i price amount rate r a a' e = ground arith

  -- A trade that succeeds moves the position by the amount that was traded, and takes from the
  -- wallet and the margin account together exactly the price of the amount and the fee, with the
  -- funding that the amount owes. The wallet never pays more than it holds, and a trade that opens
  -- a position leaves the account with its initial margin. The result is the account as it is left.
  pub compute_trade_with_price_lem :
      (p : LiquidityPoolStorage D) (i : ℕ) (q : PerpetualStorage D) (price amount rate : D)
      (r : TradeResult D) (a a' : AccountStorage D)
      → get_perpetual i p.perpetuals ≡ some q
      → compute_trade_with_price p i price amount rate a ≡ (ok r, a')
      → (a'.position_amount ≡ add a.position_amount amount)
        × (add a'.wallet_balance a'.cash_balance
            ≡ sub
                (add a.wallet_balance (
                  add
                    (sub a.cash_balance (mul price amount))
                    (mul q.unit_accumulative_funding amount)))
                r.total_fee)
        × (is_negative a'.wallet_balance ≡ false)
        × (r.after_trade ≡ account_of q a')
        × (is_zero (split_amount a.position_amount amount).1 ≡ false → r.is_safe ≡ true)
  compute_trade_with_price_lem p i q price amount rate r a a' h e =
      let c = (split_amount a.position_amount amount).0 in
      let o = (split_amount a.position_amount amount).1 in
      let sum = split_amount_sum a.position_amount amount in
      let (_, b, first, second) =
        >>=-eq-ok (trade_position p i price c o) (λ _. settle_margin p i price amount rate c o) a
          (started p i price amount rate r a a' e) in
      let m =
        subst (λ x. IsMoved q price x a b) sum
          (trade_position-IsMoved p i q price c o a b h first) in
      let t = settle_margin-IsSettled p i q price amount rate c o r b a' h second in
      (
        t.position ∙ m.position,
        t.worth ∙ (λ j. sub (add (m.wallet j) (m.cash j)) r.total_fee),
        t.solvent,
        t.computed,
        t.covered,
      )
