-- ===== src/Match/Settle/Balance.antt =====
-- The four amounts of an order under settling.
use mai3_broker.Base.{
  ℕ, ◌+◌, ◌≡◌, List, [], ◌∷◌, Dict, lookup, ok, subst, inl, inr, arith, Option-cases,
}
use mai3_broker.Decimal.{Decimal, add, sub, digits, exact, eq_of_units, equal→eq}
use mai3_broker.Order.{Order}
use mai3_broker.Order.Balance.{total}
use mai3_broker.Orderbook.Containers.{OrderedMap, PriceTree}
use mai3_broker.Orderbook.Level.{MemoryOrder, PriceLevel}
use mai3_broker.Match.World.{
  World, Database, MatchTransaction, update_order, pure, ◌>>=◌, pure-eq-ok, >>=-eq-ok,
}
use mai3_broker.Match.Settle.{
  settle_success, settle_failed, settle_reload, settle_order, settle_orders, amount_at,
}

module _ {D : Type 0} ⦃dec : Decimal D⦄ where
  pending_to_confirmed :
      (a p c x m : D) → add (add a (sub p m)) (add (add c m) x) ≡ add (add a p) (add c x)
  pending_to_confirmed a p c x m =
      let k = digits a + digits p + digits c + digits x + digits m in
      eq_of_units k _ _ (omega exact) (omega exact) (omega exact)

  pending_to_both :
      (a p c x m t : D)
      → add (add (add a (sub m t)) (sub p m)) (add (add c t) x) ≡ add (add a p) (add c x)
  pending_to_both a p c x m t =
      let k = digits a + digits p + digits c + digits x + digits m + digits t in
      eq_of_units k _ _ (omega exact) (omega exact) (omega exact)

  pending_to_canceled :
      (a p c x m : D) → add (add a (sub p m)) (add c (add x m)) ≡ add (add a p) (add c x)
  pending_to_canceled a p c x m =
      let k = digits a + digits p + digits c + digits x + digits m in
      eq_of_units k _ _ (omega exact) (omega exact) (omega exact)

  pending_to_available :
      (a p c x m : D) → add (add (add a m) (sub p m)) (add c x) ≡ add (add a p) (add c x)
  pending_to_available a p c x m =
      let k = digits a + digits p + digits c + digits x + digits m in
      eq_of_units k _ _ (omega exact) (omega exact) (omega exact)

module _ {D : Type 0} ⦃dec : Decimal D⦄ where
  abbrev pub SameTotals : List (Order D) → List (Order D) → Type 0
  SameTotals [] [] = Unit {0}
  SameTotals [] (o' ∷ os') = ⊥
  SameTotals (o ∷ os) [] = ⊥
  SameTotals (o ∷ os) (o' ∷ os') = (total o' ≡ total o) × (o'.amount ≡ o.amount) × SameTotals os os'

module _ {D M T S : Type 0} ⦃dec : Decimal D⦄ ⦃om : OrderedMap M (MemoryOrder D)⦄
    ⦃pt : PriceTree T D (PriceLevel D M)⦄ ⦃db : Database S D⦄ where
  settle_success_total :
      (now : ℕ) (m t : D) (o o' : Order D) (w w' : World D M T S)
      → settle_success now m t o w ≡ (ok o', w')
      → (total o' ≡ total o) × (o'.amount ≡ o.amount)
  unfolding settle_success update_order
  settle_success_total now m t o o' w w' e = ground (
    arith,
    equal→eq t m,
    pending_to_confirmed o.available_amount o.pending_amount o.confirmed_amount o.canceled_amount m,
    pending_to_both o.available_amount o.pending_amount o.confirmed_amount o.canceled_amount m t,
  )

  settle_failed_total :
      (now : ℕ) (tx : MatchTransaction D) (t : D) (o o' : Order D) (w w' : World D M T S)
      → settle_failed now tx t o w ≡ (ok o', w')
      → (total o' ≡ total o) × (o'.amount ≡ o.amount)
  unfolding settle_failed update_order
  settle_failed_total now tx t o o' w w' e = ground (
    arith,
    pending_to_canceled o.available_amount o.pending_amount o.confirmed_amount o.canceled_amount t,
  )

  settle_reload_total :
      (now : ℕ) (m : D) (o o' : Order D) (w w' : World D M T S)
      → settle_reload now m o w ≡ (ok o', w')
      → (total o' ≡ total o) × (o'.amount ≡ o.amount)
  unfolding settle_reload update_order
  settle_reload_total now m o o' w w' e = ground (
    arith,
    pending_to_available o.available_amount o.pending_amount o.confirmed_amount o.canceled_amount m,
  )

  -- Settling an order keeps what its four amounts add up to, whatever its transaction did to it.
  pub settle_order_total :
      (now : ℕ) (tx : MatchTransaction D) (succ failed matched : Dict D) (o o' : Order D)
      (w w' : World D M T S)
      → settle_order now tx succ failed matched o w ≡ (ok o', w')
      → (total o' ≡ total o) × (o'.amount ≡ o.amount)
  unfolding settle_order
  settle_order_total now tx succ failed matched o o' w w' e =
      elim (Option-cases (lookup o.order_hash succ)) [
        | inl not_done ↦ elim (Option-cases (lookup o.order_hash failed)) [
          | inl not_failed ↦
              ground (arith, settle_reload_total now (amount_at o.order_hash matched) o o' w w')
          | inr (t, has) ↦ ground (arith, settle_failed_total now tx t o o' w w')
        ]
        | inr (t, has) ↦
            ground (arith, settle_success_total now (amount_at o.order_hash matched) t o o' w w')
      ]

  -- If the orders of a transaction are settled, each of them, in turn, keeps its amount and what its
  -- available, pending, confirmed and canceled amounts add up to.
  pub settle_orders_total :
      (now : ℕ) (tx : MatchTransaction D) (succ failed matched : Dict D) (os os' : List (Order D))
      (w w' : World D M T S)
      → settle_orders now tx succ failed matched os w ≡ (ok os', w')
      → SameTotals os os'
  unfolding settle_orders
  settle_orders_total now tx succ failed matched [] os' w w' e =
      subst (SameTotals []) (pure-eq-ok [] os' w w' e).0 tt
  settle_orders_total now tx succ failed matched (o ∷ os) os' w w' e =
      let (o', v, first, rest) =
        >>=-eq-ok (settle_order now tx succ failed matched o)
          (λ o'. settle_orders now tx succ failed matched os >>= λ os'. pure (o' ∷ os')) w e in
      let (more, u, others, last) =
        >>=-eq-ok (settle_orders now tx succ failed matched os) (λ os'. pure (o' ∷ os')) v rest in
      let (kept, same) = settle_order_total now tx succ failed matched o o' w v first in
      let both : SameTotals (o ∷ os) (o' ∷ more) =
        (kept, same, settle_orders_total now tx succ failed matched os more v u others) in
      subst (SameTotals (o ∷ os)) (pure-eq-ok (o' ∷ more) os' u w' last).0 both
