-- ===== src/Match/NewOrder/Guards.antt =====
-- A new order that is refused: what becomes of the database.
use mai3_broker.Base.{ℕ, ◌≡◌, refl, sym, ap, ◌∙◌, List, [], ◌∷◌, Option, Result, ok, err}
use mai3_broker.Base.Actions.{Action, ◌>>=◌, ◌>>◌}
use mai3_broker.Decimal.{Decimal}
use mai3_broker.Order.{Order}
use mai3_broker.Orderbook.Containers.{OrderedMap, PriceTree}
use mai3_broker.Orderbook.Level.{MemoryOrder, PriceLevel}
use mai3_broker.Match.World.{World, Database, MatchError, Notice, transaction, notify}
use mai3_broker.Match.World as World
use mai3_broker.Match.World.Atomic.{transaction-err}
use mai3_broker.Match.Chain.{Chain, Perpetual}
use mai3_broker.Match.Round.{Matcher}
use mai3_broker.Match.Settle.{notice_of}
use mai3_broker.Match.OrderChecks.{
  NewOrderError, Conf, OrdersEachPerp, on_world, or_internal, trigger_match, check_order,
}
use mai3_broker.Match.OrderChecks.Keeps.{Keeps, or_internal-Keeps, check_order-Keeps}
use mai3_broker.Match.NewOrder.{insert_body, new_order}

module _ {C D M T S : Type 0} where
  -- If the action fails, the database is as before.
  abbrev FailsClean : {A : Type 0} → Action NewOrderError (Matcher C D M T S) A → Type 0
  FailsClean {A} f =
      (m m' : Matcher C D M T S) (e : NewOrderError)
      → f m ≡ (err e, m')
      → m'.world.store ≡ m.world.store

  >>=-FailsClean :
      {A B : Type 0} (f : Action NewOrderError (Matcher C D M T S) A)
      (g : A → Action NewOrderError (Matcher C D M T S) B)
      → Keeps f
      → ((a : A) → FailsClean (g a))
      → FailsClean (f >>= g)
  >>=-FailsClean {A} {B} f g k l m m' e h = go (f m) (k m) h
    where
      go :
          (r : Result NewOrderError A × Matcher C D M T S)
          → r.1.world ≡ m.world
          → ◌>>=◌ {E = NewOrderError} {W = Matcher C D M T S} (λ _. r) g m ≡ (err e, m')
          → m'.world.store ≡ m.world.store
      go (ok a, n) k h = l a n m' e h ∙ ap (λ w. World.store w) k
      go (err x, n) k h =
          ap (λ y. World.store (Matcher.world y.1)) (sym h) ∙ ap (λ w. World.store w) k

module _ {C D M T S : Type 0} ⦃dec : Decimal D⦄ ⦃ch : Chain C D⦄ ⦃om : OrderedMap M (MemoryOrder D)⦄
    ⦃pt : PriceTree T D (PriceLevel D M)⦄ ⦃db : Database S D⦄ where
  -- A transaction on the world that is announced when it succeeds.
  announced-FailsClean :
      (body : World.Action (World D M T S) (Order D))
      → FailsClean {C = C} {D = D} {M = M} {T = T} {S = S} (
          on_world (transaction body) >>= λ created.
          on_world (notify (notice_of 0 "" created ∷ [])) >> trigger_match)
  unfolding trigger_match
  announced-FailsClean body m m' e h = go (transaction body m.world) refl h
    where
      go :
          (r : Result MatchError (Order D) × World D M T S)
          → transaction body m.world ≡ r
          → (on_world {C = C} (λ _. r) >>= λ created.
                on_world (notify (notice_of 0 "" created ∷ [])) >> trigger_match)
              m
            ≡ (err e, m')
          → m'.world.store ≡ m.world.store
      go (ok o, w) k h = absurd (cc)
      go (err x, w) k h =
          ap (λ y. World.store (Matcher.world y.1)) (sym h) ∙ transaction-err body m.world w x k

  -- A new order that is refused, with whichever code, leaves the database as it was.
  pub new_order_refused :
      (conf : Conf) (iterate : List (OrdersEachPerp D) → List (OrdersEachPerp D)) (now : ℕ)
      (perpetual : Perpetual) (gas_price : D) (o : Order D) (m m' : Matcher C D M T S)
      (e : NewOrderError)
      → new_order conf iterate now perpetual gas_price o m ≡ (err e, m')
      → m'.world.store ≡ m.world.store
  unfolding new_order
  new_order_refused conf iterate now perpetual gas_price o m m' e h =
      >>=-FailsClean (or_internal rows) checked (or_internal-Keeps rows)
        (λ active.
          >>=-FailsClean (check_order conf iterate now perpetual gas_price active o) inserted
            (check_order-Keeps conf iterate now perpetual gas_price active o)
            (λ o'. announced-FailsClean (insert_body now o')))
        m m' e h
    where
      rows : Option (List (Order D))
      rows = db.query_trader_orders o.trader_address m.world.store

      inserted : Order D → Action NewOrderError (Matcher C D M T S) (Unit {0})
      inserted o' = on_world (transaction (insert_body now o')) >>= λ created.
          on_world (notify (notice_of 0 "" created ∷ [])) >> trigger_match

      checked : List (Order D) → Action NewOrderError (Matcher C D M T S) (Unit {0})
      checked active = check_order conf iterate now perpetual gas_price active o >>= inserted
