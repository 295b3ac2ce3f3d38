-- ===== src/Match/PoolSyncer.antt =====
-- match/pool_syncer.go: the cache of pools. Times are in seconds. Each operation
-- here holds the lock. `runSyncer`, the walk over all pools, is left out: it reads the keys of the map
-- without the lock, and takes it for one pool at a time.
pub mod Fresh
use mai3_broker.Base.{
  ℕ, ◌-◌, String, List, [], ◌∷◌, Dict, lookup, insert, Option, none, some, Bool, true, false, ltb,
  Result, ok, err, if◌then◌else◌,
}
use mai3_broker.Mai3.Storage.{LiquidityPoolStorage}
use mai3_broker.Match.Chain.{Chain, ChainError}

abbrev pub pool_storage_use_duration : ℕ
pool_storage_use_duration = 60

-- `none` is a nil storage.
pub record PoolInfo (D : Type 0) : Type 0 where
  pub storage : Option (LiquidityPoolStorage D)
  pub latest_get : ℕ
  pub is_dirty : Bool

pub record PoolSyncer (C D : Type 0) : Type 0 where
  pub pool_storage : Dict (PoolInfo D)
  pub chain : C

abbrev pub answer : {E A : Type 0} → Result E A → Option A
answer (ok a) = some a
answer (err e) = none

module _ {C D : Type 0} ⦃ch : Chain C D⦄ where
  -- What the chain gives for a pool now.
  abbrev pub fetch : String → PoolSyncer C D → Option (LiquidityPoolStorage D) × PoolSyncer C D
  fetch pool p =
      let (r, chain) = ch.get_liquidity_pool_storage pool p.chain in
      (answer r, record p { chain = chain })

  abbrev pub set_info : String → PoolInfo D → PoolSyncer C D → PoolSyncer C D
  set_info pool info p = record p { pool_storage = insert pool info p.pool_storage }

  -- A pool that was not asked for lately is not refreshed.
  unfoldable pub sync_info : ℕ → String → PoolInfo D → PoolSyncer C D → PoolSyncer C D
  sync_info now pool info p =
      if ltb pool_storage_use_duration (now - info.latest_get)
      then set_info pool (record info { is_dirty = true }) p
      else (let (found, p') = fetch pool p in
          set_info pool
            (record info {
              storage = found;
              is_dirty = elim found [ none ↦ true | some s ↦ false ];
            })
            p')

  -- `none` is the panic of a write through the nil pointer of a pool that is not there.
  unfoldable pub sync_pool : ℕ → String → PoolSyncer C D → Option (PoolSyncer C D)
  unfolding sync_info
  sync_pool now pool p = elim (lookup pool p.pool_storage) [
    | none ↦ none
    | some info ↦ some (sync_info now pool info p)
  ]

  -- A pool that the chain does not give is there all the same, without a storage.
  unfoldable pub add_pool : ℕ → String → PoolSyncer C D → PoolSyncer C D
  add_pool now pool p = elim (lookup pool p.pool_storage) [
    | some info ↦ p
    | none ↦
        let (found, p') = fetch pool p in
        set_info pool (record { storage = found; latest_get = now; is_dirty = false }) p'
  ]

  -- A dirty pool is read from the chain, and the cache is left to the next round.
  unfoldable pub get_pool_storage :
      ℕ → String → PoolSyncer C D → Option (LiquidityPoolStorage D) × PoolSyncer C D
  get_pool_storage now pool p = elim (lookup pool p.pool_storage) [
    | none ↦ (none, p)
    | some info ↦
        if info.is_dirty
        then fetch pool (set_info pool (record info { latest_get = now }) p)
        else (info.storage, p)
  ]

  unfoldable pub set_pool_storage_dirty : String → PoolSyncer C D → PoolSyncer C D
  set_pool_storage_dirty pool p = elim (lookup pool p.pool_storage) [
    | none ↦ p
    | some info ↦ set_info pool (record info { is_dirty = true }) p
  ]

  -- A change of a storage that `get_pool_storage` gave: the cache holds it if the pool is not dirty.
  unfoldable pub write_storage : String → LiquidityPoolStorage D → PoolSyncer C D → PoolSyncer C D
  write_storage pool storage p = elim (lookup pool p.pool_storage) [
    | none ↦ p
    | some info ↦
        if info.is_dirty then p else set_info pool (record info { storage = some storage }) p
  ]
