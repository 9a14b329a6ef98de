-- ===== src/Dex.antt =====
-- x/nvx/keeper/dex.go: pools of two tokens with a constant product. Amounts are float64, a parameter.
pub mod Quote
pub mod Stats
mod Tests
use Prim.Native.String.{◌++◌}
use nuvex.Base.{
  ℕ, Bool, true, false, not, Option, none, some, List, [], ◌∷◌, String, len, ltb, ◌||◌, length,
  newest, if◌then◌else◌, string_key, ◌==◌, Outcome, ok, err, panic,
}
use mathlib.Core.List
use nuvex.Base.Word.{Int64, Uint64, ◌+64◌, is_negative}
use nuvex.Base.Float.{Float}
use nuvex.Dict.{Dict, lookup, insert, contains, values}

pub data DexError : Type 0 where
  pool_exists not_positive too_little unknown_pool not_enough_tokens unknown_token : DexError

module _ (fl : Float) where
  pub record LiquidityPool : Type 0 where
    pub id : String
    pub token_a : String
    pub token_b : String
    pub reserve_a : fl.F
    pub reserve_b : fl.F
    pub total_lp_tokens : fl.F
    pub lp_holders : Dict String fl.F
    pub total_volume : fl.F
    pub total_fees : fl.F
    pub created_at : String
    pub trades : Uint64

  -- The text of the error is left out.
  pub record SwapResult : Type 0 where
    pub amount_in : fl.F
    pub amount_out : fl.F
    pub fee : fl.F
    pub price_impact : fl.F
    pub new_price : fl.F
    pub token_in : String
    pub token_out : String
    pub pool_id : String
    pub timestamp : String
    pub success : Bool

  pub record DexKeeper : Type 0 where
    pub pools : Dict String LiquidityPool
    pub swap_history : List SwapResult

  unfoldable pub new_dex_keeper : DexKeeper
  new_dex_keeper = record { pools = []; swap_history = [] }

  zero_f : fl.F
  zero_f = fl.literal 0 1

  minimum_liquidity : fl.F
  minimum_liquidity = fl.literal 1_000 1

  unfoldable pub create_pool :
      String
      → String
      → fl.F
      → fl.F
      → String
      → String
      → DexKeeper
      → DexKeeper × Outcome DexError LiquidityPool
  unfolding zero_f minimum_liquidity
  create_pool token_a token_b amount_a amount_b creator now dk =
      let id = token_a ++ "-" ++ token_b in
      let lp = fl.sub (fl.sqrt (fl.mul amount_a amount_b)) minimum_liquidity in
      let pool : LiquidityPool = record {
        id = id;
        token_a = token_a;
        token_b = token_b;
        reserve_a = amount_a;
        reserve_b = amount_b;
        total_lp_tokens = fl.add lp minimum_liquidity;
        lp_holders = (creator, lp) ∷ [];
        total_volume = zero_f;
        total_fees = zero_f;
        created_at = now;
        trades = 0;
      } in
      if contains id dk.pools
      then (dk, err pool_exists)
      else if fl.le amount_a zero_f || fl.le amount_b zero_f
      then (dk, err not_positive)
      else if fl.le lp zero_f
      then (dk, err too_little)
      else (record dk { pools = insert id pool dk.pools }, ok pool)

  -- A holder that the map does not know has 0.
  holding : String → Dict String fl.F → fl.F
  unfolding zero_f
  holding who holders = elim (lookup who holders) [ none ↦ zero_f | some x ↦ x ]

  -- The pool with the liquidity, and the tokens that the provider receives.
  unfoldable pub deposit : fl.F → fl.F → String → LiquidityPool → LiquidityPool × fl.F
  unfolding holding
  deposit amount_a amount_b provider pool =
      let lp =
        fl.min (fl.mul (fl.div amount_a pool.reserve_a) pool.total_lp_tokens)
          (fl.mul (fl.div amount_b pool.reserve_b) pool.total_lp_tokens) in
      (
        record pool {
          reserve_a = fl.add pool.reserve_a amount_a;
          reserve_b = fl.add pool.reserve_b amount_b;
          total_lp_tokens = fl.add pool.total_lp_tokens lp;
          lp_holders =
              insert provider (fl.add (holding provider pool.lp_holders) lp) pool.lp_holders;
        },
        lp,
      )

  unfoldable pub add_liquidity :
      String → fl.F → fl.F → String → DexKeeper → DexKeeper × Outcome DexError fl.F
  unfolding zero_f
  add_liquidity id amount_a amount_b provider dk = elim (lookup id dk.pools) [
    | none ↦ (dk, err unknown_pool)
    | some pool ↦
        let (pool', lp) = deposit amount_a amount_b provider pool in
        if fl.le amount_a zero_f || fl.le amount_b zero_f
        then (dk, err not_positive)
        else (record dk { pools = insert id pool' dk.pools }, ok lp)
  ]

  -- The pool without the liquidity, and the two amounts that are paid back.
  unfoldable pub withdraw : fl.F → String → LiquidityPool → LiquidityPool × fl.F × fl.F
  unfolding holding
  withdraw lp provider pool =
      let share = fl.div lp pool.total_lp_tokens in
      let amount_a = fl.mul share pool.reserve_a in
      let amount_b = fl.mul share pool.reserve_b in
      (
        record pool {
          reserve_a = fl.sub pool.reserve_a amount_a;
          reserve_b = fl.sub pool.reserve_b amount_b;
          total_lp_tokens = fl.sub pool.total_lp_tokens lp;
          lp_holders =
              insert provider (fl.sub (holding provider pool.lp_holders) lp) pool.lp_holders;
        },
        amount_a,
        amount_b,
      )

  unfoldable pub remove_liquidity :
      String → fl.F → String → DexKeeper → DexKeeper × Outcome DexError (fl.F × fl.F)
  unfolding holding
  remove_liquidity id lp provider dk = elim (lookup id dk.pools) [
    | none ↦ (dk, err unknown_pool)
    | some pool ↦
        let (pool', amount_a, amount_b) = withdraw lp provider pool in
        if fl.lt (holding provider pool.lp_holders) lp
        then (dk, err not_enough_tokens)
        else (record dk { pools = insert id pool' dk.pools }, ok (amount_a, amount_b))
  ]

  -- What `Swap` computes of an amount and the two reserves.
  pub record Trade : Type 0 where
    pub fee : fl.F
    pub after_fee : fl.F
    pub new_reserve_out : fl.F
    pub amount_out : fl.F
    pub price_impact : fl.F
    pub new_price : fl.F

  unfoldable pub trade : fl.F → fl.F → fl.F → Trade
  trade amount_in reserve_in reserve_out =
      let fee = fl.div (fl.mul amount_in (fl.of_uint 30)) (fl.literal 10_000 1) in
      let after_fee = fl.sub amount_in fee in
      let new_reserve_in = fl.add reserve_in after_fee in
      let new_reserve_out = fl.div (fl.mul reserve_in reserve_out) new_reserve_in in
      let old_price = fl.div reserve_out reserve_in in
      let new_price = fl.div new_reserve_out new_reserve_in in
      record {
        fee = fee;
        after_fee = after_fee;
        new_reserve_out = new_reserve_out;
        amount_out = fl.sub reserve_out new_reserve_out;
        price_impact =
            fl.mul (fl.div (fl.abs (fl.sub old_price new_price)) old_price) (fl.literal 100 1);
        new_price = new_price;
      }

  result_of : String → String → fl.F → String → Trade → String → SwapResult
  result_of pool_id token_in amount_in now t token_out = record {
    amount_in = amount_in;
    amount_out = t.amount_out;
    fee = t.fee;
    price_impact = t.price_impact;
    new_price = t.new_price;
    token_in = token_in;
    token_out = token_out;
    pool_id = pool_id;
    timestamp = now;
    success = true;
  }

  refused : SwapResult
  unfolding zero_f
  refused = record {
    amount_in = zero_f;
    amount_out = zero_f;
    fee = zero_f;
    price_impact = zero_f;
    new_price = zero_f;
    token_in = "";
    token_out = "";
    pool_id = "";
    timestamp = "";
    success = false;
  }

  -- The fee does not enter the reserves.
  unfoldable pub traded : String → fl.F → Trade → LiquidityPool → LiquidityPool
  traded token_in amount_in t pool =
      let counted = record pool {
        total_volume = fl.add pool.total_volume amount_in;
        total_fees = fl.add pool.total_fees t.fee;
        trades = pool.trades +64 1;
      } in
      if token_in == pool.token_a
      then record counted {
        reserve_a = fl.add pool.reserve_a t.after_fee;
        reserve_b = t.new_reserve_out;
      }
      else record counted {
        reserve_b = fl.add pool.reserve_b t.after_fee;
        reserve_a = t.new_reserve_out;
      }

  -- The rest of `Swap` after the amounts are known. The log line quotes the first 10 bytes of the
  -- trader.
  unfoldable pub settle_swap :
      String
      → String
      → fl.F
      → fl.F
      → String
      → String
      → Trade
      → String
      → LiquidityPool
      → DexKeeper
      → DexKeeper × Outcome DexError SwapResult
  unfolding refused result_of
  settle_swap pool_id token_in amount_in min_amount_out trader now t token_out pool dk =
      let result = result_of pool_id token_in amount_in now t token_out in
      if fl.lt t.amount_out min_amount_out then (dk, ok refused) else (
        record {
          pools = insert pool_id (traded token_in amount_in t pool) dk.pools;
          swap_history = List.◌++◌ dk.swap_history (result ∷ []);
        },
        (if ltb (len trader) 10 then panic else ok result),
      )

  -- A swap in a pool that is known.
  unfoldable pub swap_in :
      String
      → String
      → fl.F
      → fl.F
      → String
      → String
      → LiquidityPool
      → DexKeeper
      → DexKeeper × Outcome DexError SwapResult
  unfolding zero_f
  swap_in pool_id token_in amount_in min_amount_out trader now pool dk =
      if fl.le amount_in zero_f
      then (dk, err not_positive)
      else if token_in == pool.token_a
      then settle_swap pool_id token_in amount_in min_amount_out trader now
          (trade amount_in pool.reserve_a pool.reserve_b) pool.token_b pool dk
      else if token_in == pool.token_b
      then settle_swap pool_id token_in amount_in min_amount_out trader now
          (trade amount_in pool.reserve_b pool.reserve_a) pool.token_a pool dk
      else (dk, err unknown_token)

  unfoldable pub swap :
      String
      → String
      → fl.F
      → fl.F
      → String
      → String
      → DexKeeper
      → DexKeeper × Outcome DexError SwapResult
  swap pool_id token_in amount_in min_amount_out trader now dk = elim (lookup pool_id dk.pools) [
    | none ↦ (dk, err unknown_pool)
    | some pool ↦ swap_in pool_id token_in amount_in min_amount_out trader now pool dk
  ]

  -- The body of `GetQuote` after its test on the token: it has a copy of its own of the formulas.
  unfoldable pub quote_of : String → String → fl.F → fl.F → fl.F → String → SwapResult
  quote_of pool_id token_in amount_in reserve_in reserve_out token_out =
      let fee = fl.div (fl.mul amount_in (fl.of_uint 30)) (fl.literal 10_000 1) in
      let amount_in_after_fee = fl.sub amount_in fee in
      let k = fl.mul reserve_in reserve_out in
      let new_reserve_in = fl.add reserve_in amount_in_after_fee in
      let new_reserve_out = fl.div k new_reserve_in in
      let amount_out = fl.sub reserve_out new_reserve_out in
      let old_price = fl.div reserve_out reserve_in in
      let new_price = fl.div new_reserve_out new_reserve_in in
      let price_impact =
        fl.mul (fl.div (fl.abs (fl.sub old_price new_price)) old_price) (fl.literal 100 1) in
      record {
        amount_in = amount_in;
        amount_out = amount_out;
        fee = fee;
        price_impact = price_impact;
        new_price = new_price;
        token_in = token_in;
        token_out = token_out;
        pool_id = pool_id;
        timestamp = "";
        success = true;
      }

  -- Every token that is not the first of the pool is taken for the second.
  unfoldable pub get_quote : String → String → fl.F → DexKeeper → Outcome DexError SwapResult
  get_quote pool_id token_in amount_in dk = elim (lookup pool_id dk.pools) [
    | none ↦ err unknown_pool
    | some pool ↦
        if token_in == pool.token_a
        then ok (quote_of pool_id token_in amount_in pool.reserve_a pool.reserve_b pool.token_b)
        else ok (quote_of pool_id token_in amount_in pool.reserve_b pool.reserve_a pool.token_a)
  ]

  unfoldable pub get_all_pools : DexKeeper → List LiquidityPool
  get_all_pools dk = values dk.pools

  -- `make` panics on a negative length.
  unfoldable pub get_swap_history : Int64 → DexKeeper → Outcome ⊥ (List SwapResult)
  get_swap_history limit dk = if is_negative limit then panic else ok (newest dk.swap_history limit)
