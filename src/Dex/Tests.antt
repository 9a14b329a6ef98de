-- ===== src/Dex/Tests.antt =====
-- The theorem on swaps at a pool with whole numbers for amounts.
use Prim.Native.Nat.{◌*◌, ◌/◌, ◌-◌, ◌+◌}
use nuvex.Base.{ℕ, ◌≡◌, ◌⊎◌, refl, true, false, [], ◌∷◌, ok, ltb, leb, string_key}
use nuvex.Base.Float.{Float}
use nuvex.Dex.{
  LiquidityPool, SwapResult, DexKeeper, swap, swap_in, settle_swap, trade, get_quote, result_of,
  zero_f,
}
use nuvex.Dex.Quote.{swap-get_quote}

abbrev floats : Float
floats = record {
  F = ℕ;
  of_uint = λ n. n;
  floor = λ x. x;
  hours = λ n. n;
  literal = λ n d. n / d;
  add = λ x y. x + y;
  sub = λ x y. x - y;
  mul = λ x y. x * y;
  div = λ x y. x / y;
  min = λ x y. x;
  abs = λ x. x;
  sqrt = λ x. x;
  le = leb;
  lt = ltb;
}

abbrev pool : LiquidityPool floats
pool = record {
  id = "NVX-USDT";
  token_a = "NVX";
  token_b = "USDT";
  reserve_a = 1_000_000;
  reserve_b = 500_000;
  total_lp_tokens = 700_000;
  lp_holders = [];
  total_volume = 0;
  total_fees = 0;
  created_at = "then";
  trades = 0;
}

abbrev exchange : DexKeeper floats
exchange = record { pools = ("NVX-USDT", pool) ∷ []; swap_history = [] }

abbrev bought : SwapResult floats
bought = record {
  amount_in = 10_000;
  amount_out = 4_936;
  fee = 30;
  price_impact = 0;
  new_price = 0;
  token_in = "NVX";
  token_out = "USDT";
  pool_id = "NVX-USDT";
  timestamp = "now";
  success = true;
}

swap_run : (swap floats "NVX-USDT" "NVX" 10_000 4_000 "nuvex1trader" "now" exchange).1 ≡ ok bought
unfolding swap swap_in settle_swap trade result_of zero_f
swap_run = refl

swap-get_quote_example :
    ((bought.success ≡ false)
      × ((swap floats "NVX-USDT" "NVX" 10_000 4_000 "nuvex1trader" "now" exchange).0 ≡ exchange))
    ⊎ (get_quote floats "NVX-USDT" "NVX" 10_000 exchange ≡ ok (record bought { timestamp = "" }))
swap-get_quote_example =
    swap-get_quote floats "NVX-USDT" "NVX" 10_000 4_000 "nuvex1trader" "now" exchange bought
      swap_run
