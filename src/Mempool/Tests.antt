-- ===== src/Mempool/Tests.antt =====
-- The theorems on the mempool at a pool of three transactions.
use mathlib.Core.List.Perm
use nuvex.Base.{ℕ, ◌≡◌, refl, none, [], ◌∷◌, String, arith, string_key}
use nuvex.Dict.{lookup}
use nuvex.State.Samples.{sample_host}
use nuvex.Mempool.{
  PendingTx, Mempool, pending_hash, submit, candidates, select_for_block, is_expired, stats,
}
use nuvex.Mempool.Size.{IsValid, submit-IsValid}
use nuvex.Mempool.Selection.{Sorts, Selects, select_for_block_best}

abbrev waiting : String → ℕ → ℕ → PendingTx
waiting hash fee since = record {
  hash = hash;
  from = "alice";
  to = "bob";
  amount = 5;
  fee = fee;
  nonce = 1;
  timestamp = since;
  priority = fee;
  status = "pending";
}

abbrev pool : Mempool
pool = record {
  pending =
      ("0xa", waiting "0xa" 900 10)
      ∷ ("0xb", waiting "0xb" 500 20)
      ∷ ("0xc", waiting "0xc" 200 30)
      ∷ [];
  size = 3;
}

pool-IsValid : IsValid pool
pool-IsValid = record {
  counted = refl;
  bounded = omega arith;
  filed = (refl, refl, (refl, refl, (refl, refl, tt)));
}

stats_run : stats pool ≡ record {
  size = 3;
  max_size = 10_000;
  min_fee = 200;
  max_fee = 900;
  avg_fee = 533;
  max_tx_block = 1_000;
}
unfolding stats
stats_run = refl

submit-IsValid_example : IsValid (submit sample_host "alice" "bob" 5 700 2 40 40 pool).0
submit-IsValid_example =
    submit-IsValid sample_host "alice" "bob" 5 700 2 40 40 pool fresh pool-IsValid
  where
    fresh : lookup (pending_hash sample_host "alice" "bob" 5 700 2 40) pool.pending ≡ none
    fresh = unfold pending_hash in refl

-- An hour after the second transaction came, the first has expired.
abbrev later : ℕ
later = 3_600_000_000_020

pool_sorted : Sorts (λ txs. txs) (candidates later pool)
unfolding candidates is_expired
pool_sorted = (Perm.refl _, ((refl, tt), (tt, tt)))

select_for_block_best_example : Selects 1 later pool (select_for_block (λ txs. txs) 1 later pool)
select_for_block_best_example =
    select_for_block_best (λ txs. txs) 1 later pool (omega arith) pool-IsValid pool_sorted
