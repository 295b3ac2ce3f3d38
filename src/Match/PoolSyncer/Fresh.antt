-- ===== src/Match/PoolSyncer/Fresh.antt =====
-- What the cache serves.
use mai3_broker.Base.{
  ℕ, ◌≡◌, String, lookup, lookup-insert, none, is_some, true, arith, inl, inr, Option-cases,
  eq_refl, if◌then◌else◌,
}
use mai3_broker.Match.Chain.{Chain}
use mai3_broker.Match.PoolSyncer.{PoolSyncer, fetch, get_pool_storage, set_pool_storage_dirty}

module _ {C D : Type 0} ⦃ch : Chain C D⦄ where
  -- Once a pool is marked dirty, what the cache gives for it is the chain's answer of that moment;
  -- for a pool that was never added it gives nothing.
  pub get_pool_storage_dirty :
      (now : ℕ) (pool : String) (p : PoolSyncer C D)
      → (get_pool_storage now pool (set_pool_storage_dirty pool p)).0
        ≡ (if is_some (lookup pool p.pool_storage) then (fetch pool p).0 else none)
  unfolding get_pool_storage set_pool_storage_dirty
  get_pool_storage_dirty now pool p = elim (Option-cases (lookup pool p.pool_storage)) [
    | inl missing ↦ ground arith
    | inr (info, there) ↦ ground (
      arith,
      lookup-insert pool pool (record info { is_dirty = true }) p.pool_storage,
      eq_refl pool,
    )
  ]
