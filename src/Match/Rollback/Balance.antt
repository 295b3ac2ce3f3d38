-- ===== src/Match/Rollback/Balance.antt =====
-- The amounts of the orders of a transaction that is moved after a fork.
use mai3_broker.Base.{ℕ, ◌+◌, ◌≡◌, List, [], ◌∷◌, lookup, ok, subst, inl, inr, arith, Option-cases}
use mai3_broker.Decimal.{Decimal, add, sub, digits, exact, eq_of_units}
use mai3_broker.Order.{Order}
use mai3_broker.Order.Balance.{total}
use mai3_broker.Orderbook.Containers.{OrderedMap, PriceTree}
use mai3_broker.Orderbook.Level.{MemoryOrder, PriceLevel}
use mai3_broker.Match.World.{
  World, Database, MatchTransaction, update_order, pure, ◌>>=◌, pure-eq-ok, >>=-eq-ok,
}
use mai3_broker.Match.Rollback.{
  Moved, Outcome, save_and_reload, success_to_fail, success_to_book, fail_to_success, fail_to_book,
  book_to_success, book_to_fail, rollback_order, rollback_orders,
}

module _ {D : Type 0} ⦃dec : Decimal D⦄ where
  confirmed_to_canceled :
      (a p c x m : D) → add (add a p) (add (sub c m) (add x m)) ≡ add (add a p) (add c x)
  confirmed_to_canceled a p c x m =
      let k = digits a + digits p + digits c + digits x + digits m in
      eq_of_units k _ _ (omega exact) (omega exact) (omega exact)

  canceled_to_confirmed :
      (a p c x m : D) → add (add a p) (add (add c m) (sub x m)) ≡ add (add a p) (add c x)
  canceled_to_confirmed a p c x m =
      let k = digits a + digits p + digits c + digits x + digits m in
      eq_of_units k _ _ (omega exact) (omega exact) (omega exact)

  confirmed_to_available :
      (a p c x m : D) → add (add (add a m) p) (add (sub c m) x) ≡ add (add a p) (add c x)
  confirmed_to_available a p c x m =
      let k = digits a + digits p + digits c + digits x + digits m in
      eq_of_units k _ _ (omega exact) (omega exact) (omega exact)

  canceled_to_available :
      (a p c x m : D) → add (add (add a m) p) (add c (sub x m)) ≡ add (add a p) (add c x)
  canceled_to_available a p c x m =
      let k = digits a + digits p + digits c + digits x + digits m in
      eq_of_units k _ _ (omega exact) (omega exact) (omega exact)

  available_to_confirmed :
      (a p c x m : D) → add (add (sub a m) p) (add (add c m) x) ≡ add (add a p) (add c x)
  available_to_confirmed a p c x m =
      let k = digits a + digits p + digits c + digits x + digits m in
      eq_of_units k _ _ (omega exact) (omega exact) (omega exact)

  available_to_canceled :
      (a p c x m : D) → add (add (sub a m) p) (add c (add x m)) ≡ add (add a p) (add c x)
  available_to_canceled a p c x m =
      let k = digits a + digits p + digits c + digits x + digits m in
      eq_of_units k _ _ (omega exact) (omega exact) (omega exact)

  abbrev pub Keeps : Order D → Moved D → Type 0
  Keeps o m = (total m.order ≡ total o) × (m.order.amount ≡ o.amount)

  abbrev pub AllKeep : List (Order D) → List (Moved D) → Type 0
  AllKeep [] [] = Unit {0}
  AllKeep [] (m ∷ ms) = ⊥
  AllKeep (o ∷ os) [] = ⊥
  AllKeep (o ∷ os) (m ∷ ms) = Keeps o m × AllKeep os ms

module _ {D M T S : Type 0} ⦃dec : Decimal D⦄ ⦃om : OrderedMap M (MemoryOrder D)⦄
    ⦃pt : PriceTree T D (PriceLevel D M)⦄ ⦃db : Database S D⦄ where
  success_to_fail-Keeps :
      (now : ℕ) (tx : MatchTransaction D) (t : D) (o : Order D) (m : Moved D) (w w' : World D M T S)
      → success_to_fail now tx t o w ≡ (ok m, w')
      → Keeps o m
  unfolding success_to_fail update_order
  success_to_fail-Keeps now tx t o m w w' e = ground (
    arith,
    confirmed_to_canceled o.available_amount o.pending_amount o.confirmed_amount o.canceled_amount
        t,
  )

  success_to_book-Keeps :
      (now : ℕ) (t : D) (o : Order D) (m : Moved D) (w w' : World D M T S)
      → success_to_book now t o w ≡ (ok m, w')
      → Keeps o m
  unfolding success_to_book save_and_reload update_order
  success_to_book-Keeps now t o m w w' e = ground (
    arith,
    confirmed_to_available o.available_amount o.pending_amount o.confirmed_amount o.canceled_amount
        t,
  )

  fail_to_success-Keeps :
      (now : ℕ) (tx : MatchTransaction D) (t : D) (o : Order D) (m : Moved D) (w w' : World D M T S)
      → fail_to_success now tx t o w ≡ (ok m, w')
      → Keeps o m
  unfolding fail_to_success update_order
  fail_to_success-Keeps now tx t o m w w' e = ground (
    arith,
    canceled_to_confirmed o.available_amount o.pending_amount o.confirmed_amount o.canceled_amount
        t,
  )

  fail_to_book-Keeps :
      (now : ℕ) (tx : MatchTransaction D) (t : D) (o : Order D) (m : Moved D) (w w' : World D M T S)
      → fail_to_book now tx t o w ≡ (ok m, w')
      → Keeps o m
  unfolding fail_to_book save_and_reload update_order
  fail_to_book-Keeps now tx t o m w w' e = ground (
    arith,
    canceled_to_available o.available_amount o.pending_amount o.confirmed_amount o.canceled_amount
        t,
  )

  book_to_success-Keeps :
      (now : ℕ) (t : D) (o : Order D) (m : Moved D) (w w' : World D M T S)
      → book_to_success now t o w ≡ (ok m, w')
      → Keeps o m
  unfolding book_to_success save_and_reload update_order
  book_to_success-Keeps now t o m w w' e = ground (
    arith,
    available_to_confirmed o.available_amount o.pending_amount o.confirmed_amount o.canceled_amount
        t,
  )

  book_to_fail-Keeps :
      (now : ℕ) (tx : MatchTransaction D) (t : D) (o : Order D) (m : Moved D) (w w' : World D M T S)
      → book_to_fail now tx t o w ≡ (ok m, w')
      → Keeps o m
  unfolding book_to_fail save_and_reload update_order
  book_to_fail-Keeps now tx t o m w w' e = ground (
    arith,
    available_to_canceled o.available_amount o.pending_amount o.confirmed_amount o.canceled_amount
        t,
  )

  -- Wherever a fork of the chain moves an order, what its four amounts add up to stays the same.
  pub rollback_order-Keeps :
      (now : ℕ) (tx : MatchTransaction D) (out : Outcome D) (o : Order D) (m : Moved D)
      (w w' : World D M T S)
      → rollback_order now tx out o w ≡ (ok m, w')
      → Keeps o m
  unfolding rollback_order
  rollback_order-Keeps now tx out o m w w' e =
      elim (Option-cases (lookup o.order_hash out.succ_before)) [
        | inr (t, has) ↦
            ground
              (arith, success_to_fail-Keeps now tx t o m w w', success_to_book-Keeps now t o m w w')
        | inl not_succ ↦ elim (Option-cases (lookup o.order_hash out.fail_before)) [
          | inr (t, has) ↦
              ground (
                arith,
                fail_to_success-Keeps now tx t o m w w',
                fail_to_book-Keeps now tx t o m w w',
              )
          | inl not_fail ↦ elim (Option-cases (lookup o.order_hash out.succ)) [
            | inr (t, has) ↦ ground (arith, book_to_success-Keeps now t o m w w')
            | inl no_succ ↦ elim (Option-cases (lookup o.order_hash out.fail)) [
              | inr (t, has) ↦ ground (arith, book_to_fail-Keeps now tx t o m w w')
              | inl no_fail ↦ ground arith
            ]
          ]
        ]
      ]

  -- If the orders of a transaction are rolled back, each of them, in turn, keeps its amount and what
  -- its available, pending, confirmed and canceled amounts add up to.
  pub rollback_orders_keep :
      (now : ℕ) (tx : MatchTransaction D) (out : Outcome D) (os : List (Order D))
      (ms : List (Moved D)) (w w' : World D M T S)
      → rollback_orders now tx out os w ≡ (ok ms, w')
      → AllKeep os ms
  unfolding rollback_orders
  rollback_orders_keep now tx out [] ms w w' e = subst (AllKeep []) (pure-eq-ok [] ms w w' e).0 tt
  rollback_orders_keep now tx out (o ∷ os) ms w w' e =
      let (m, v, first, rest) =
        >>=-eq-ok (rollback_order now tx out o)
          (λ m. rollback_orders now tx out os >>= λ ms. pure (m ∷ ms)) w e in
      let (more, u, others, last) =
        >>=-eq-ok (rollback_orders now tx out os) (λ ms. pure (m ∷ ms)) v rest in
      let both : AllKeep (o ∷ os) (m ∷ more) = (
        rollback_order-Keeps now tx out o m w v first,
        rollback_orders_keep now tx out os more v u others,
      ) in
      subst (AllKeep (o ∷ os)) (pure-eq-ok (m ∷ more) ms u w' last).0 both
