-- ===== src/Match/World/Atomic.antt =====
-- What a database transaction leaves behind.
use mai3_broker.Base.{
  inl, inr, Option-cases, ◌≡◌, refl, ◌∙◌, Option, none, some, Result, ok, err, arith,
}
use mai3_broker.Decimal.{Decimal}
use mai3_broker.Match.World.{World, Database, MatchError, Action, transaction}

module _ {D M T S : Type 0} ⦃dec : Decimal D⦄ ⦃db : Database S D⦄ where
  -- A body in a transaction that fails, or whose commit fails, leaves the database as it was.
  pub transaction-err :
      {A : Type 0} (body : Action (World D M T S) A) (w w' : World D M T S) (e : MatchError)
      → transaction body w ≡ (err e, w')
      → w'.store ≡ w.store
  unfolding transaction
  transaction-err {A} body w w' e h = go (body w) refl h
    where
      ended : A → World D M T S → Option S → Result MatchError A × World D M T S
      ended a v none = (err MatchError.database, record v { store = w.store })
      ended a v (some s) = (ok a, record v { store = s })

      go :
          (r : Result MatchError A × World D M T S)
          → body w ≡ r
          → ◌≡◌ {A = Result MatchError A × World D M T S}
              (elim r.0 [
                | err x ↦ (err x, record r.1 { store = w.store })
                | ok a ↦ elim (db.commit w.store (World.store r.1)) [
                  | none ↦ (err MatchError.database, record r.1 { store = w.store })
                  | some s ↦ (ok a, record r.1 { store = s })
                ]
              ])
              (err e, w')
          → w'.store ≡ w.store
      go (err x, v) k h = ground arith
      go (ok a, v) k h = ground arith

  -- A transaction that succeeds has run its body, and a commit that touches the database alone.
  pub transaction-ok :
      {A : Type 0} (body : Action (World D M T S) A) (w w' : World D M T S) (a : A)
      → transaction body w ≡ (ok a, w')
      → (v : World D M T S) × (body w ≡ (ok a, v))
        × (w'.orderbook ≡ v.orderbook)
        × (db.commit w.store v.store ≡ some w'.store)
  unfolding transaction
  transaction-ok {A} body w w' a h = go (body w) refl h
    where
      go :
          (r : Result MatchError A × World D M T S)
          → body w ≡ r
          → ◌≡◌ {A = Result MatchError A × World D M T S}
              (elim r.0 [
                | err x ↦ (err x, record r.1 { store = w.store })
                | ok x ↦ elim (db.commit w.store (World.store r.1)) [
                  | none ↦ (err MatchError.database, record r.1 { store = w.store })
                  | some s ↦ (ok x, record r.1 { store = s })
                ]
              ])
              (ok a, w')
          → (v : World D M T S) × (body w ≡ (ok a, v))
            × (w'.orderbook ≡ v.orderbook)
            × (db.commit w.store v.store ≡ some w'.store)
      go (err x, v) k h = absurd (cc)
      go (ok x, v) k h = elim (Option-cases (db.commit w.store v.store)) [
        | inl none_there ↦ absurd (ground arith)
        | inr (s, there) ↦ (v, k ∙ ground arith, ground arith, ground arith)
      ]
