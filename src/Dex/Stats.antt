-- ===== src/Dex/Stats.antt =====
-- x/nvx/keeper/dex.go: the statistics of a pool and of the exchange.
use nuvex.Base.{
  ℕ, none, some, List, [], ◌∷◌, String, length, if◌then◌else◌, string_key, Outcome, ok, err,
}
use nuvex.Base.Float.{Float}
use nuvex.Base.Word.{Uint64, ◌+64◌}
use nuvex.Dict.{lookup, values}
use nuvex.Dex.{DexError, unknown_pool, DexKeeper, LiquidityPool, zero_f}

module _ (fl : Float) where
  pub record PoolStats : Type 0 where
    pub pool_id : String
    pub token_a : String
    pub token_b : String
    pub reserve_a : fl.F
    pub reserve_b : fl.F
    pub price : fl.F
    pub total_volume : fl.F
    pub total_fees : fl.F
    pub trades : Uint64
    pub lp_providers : ℕ
    pub tvl : fl.F

  unfoldable pub pool_stats : LiquidityPool fl → PoolStats
  unfolding zero_f
  pool_stats pool = record {
    pool_id = pool.id;
    token_a = pool.token_a;
    token_b = pool.token_b;
    reserve_a = pool.reserve_a;
    reserve_b = pool.reserve_b;
    price =
        if fl.lt (zero_f fl) pool.reserve_a
        then fl.div pool.reserve_b pool.reserve_a
        else zero_f fl;
    total_volume = pool.total_volume;
    total_fees = pool.total_fees;
    trades = pool.trades;
    lp_providers = length pool.lp_holders;
    tvl = fl.mul pool.reserve_b (fl.literal 2 1);
  }

  unfoldable pub get_pool_stats : String → DexKeeper fl → Outcome DexError PoolStats
  unfolding pool_stats
  get_pool_stats pool_id dk = elim (lookup pool_id dk.pools) [
    | none ↦ err unknown_pool
    | some pool ↦ ok (pool_stats pool)
  ]

  pub record DexStats : Type 0 where
    pub total_pools : ℕ
    pub total_trades : Uint64
    pub total_volume : fl.F
    pub total_fees : fl.F
    pub swap_fee_bps : ℕ

  -- The loop over the pools.
  unfoldable pub add_pools : DexStats → List (LiquidityPool fl) → DexStats
  add_pools stats [] = stats
  add_pools stats (pool ∷ pools) =
      add_pools
        (record stats {
          total_trades = stats.total_trades +64 pool.trades;
          total_volume = fl.add stats.total_volume pool.total_volume;
          total_fees = fl.add stats.total_fees pool.total_fees;
        })
        pools

  unfoldable pub dex_stats : DexKeeper fl → DexStats
  unfolding zero_f add_pools
  dex_stats dk =
      add_pools
        (record {
          total_pools = length dk.pools;
          total_trades = 0;
          total_volume = zero_f fl;
          total_fees = zero_f fl;
          swap_fee_bps = 30;
        })
        (values dk.pools)
