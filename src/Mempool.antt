-- ===== src/Mempool.antt =====
-- x/nvx/keeper/mempool.go: the transactions that wait for a block. A time is a count of nanoseconds;
-- that a transaction is older than 3600 seconds is then a test on whole numbers.
pub mod Size
pub mod Removal
pub mod Selection
mod Tests
use Prim.Native.String.{◌++◌}
use nuvex.Base.{
  ℕ, ◌+◌, Bool, true, false, not, none, some, List, [], ◌∷◌, String, len, ltb, if◌then◌else◌,
  string_key, map, Outcome, ok, err, panic, length, take, keep, nat_eq,
}
use nuvex.Base.Word.{Int64, Uint64, ◌+64◌, ◌-64◌, ◌<64◌, ◌≤64◌, is_negative, div64}
use nuvex.Dict.{Dict, insert, erase, values}
use nuvex.Host.{Host}

abbrev pub max_mempool_size : Int64
max_mempool_size = 10_000

abbrev pub max_tx_per_block : Int64
max_tx_per_block = 1_000

-- 3600 seconds
abbrev pub tx_expiry : ℕ
tx_expiry = 3_600_000_000_000

pub record PendingTx : Type 0 where
  pub hash : String
  pub from : String
  pub to : String
  pub amount : Int64
  pub fee : Int64
  pub nonce : Uint64
  pub timestamp : ℕ
  pub priority : Int64
  pub status : String

pub record Mempool : Type 0 where
  pub pending : Dict String PendingTx
  pub size : Int64

pub data MempoolError : Type 0 where
  full fee_too_low : MempoolError

unfoldable pub new_mempool : Mempool
new_mempool = record { pending = []; size = 0 }

unfoldable pub pending_hash : Host → String → String → Int64 → Int64 → Uint64 → Int64 → String
pending_hash host from to amount fee nonce nanos =
    "0x"
    ++ host.hex_encode (
        host.sha256 (
          host.to_bytes (
            from
            ++ ":"
            ++ to
            ++ ":"
            ++ host.fmt_int amount
            ++ ":"
            ++ host.fmt_int fee
            ++ ":"
            ++ host.fmt_uint nonce
            ++ ":"
            ++ host.fmt_int nanos)))

unfoldable pub pending_tx : Host → String → String → Int64 → Int64 → Uint64 → Int64 → ℕ → PendingTx
pending_tx host from to amount fee nonce nanos now = record {
  hash = pending_hash host from to amount fee nonce nanos;
  from = from;
  to = to;
  amount = amount;
  fee = fee;
  nonce = nonce;
  timestamp = now;
  priority = fee;
  status = "pending";
}

-- `nanos` and `now` are the two readings of the clock. The log line quotes the hash.
unfoldable pub submit :
    Host
    → String
    → String
    → Int64
    → Int64
    → Uint64
    → Int64
    → ℕ
    → Mempool
    → Mempool × Outcome MempoolError PendingTx
unfolding pending_tx
submit host from to amount fee nonce nanos now mp =
    if max_mempool_size ≤64 mp.size
    then (mp, err full)
    else if fee <64 100
    then (mp, err fee_too_low)
    else let tx = pending_tx host from to amount fee nonce nanos now in
      (
        record { pending = insert tx.hash tx mp.pending; size = mp.size +64 1 },
        (if ltb (len tx.hash) 18 then panic else ok tx),
      )

unfoldable pub is_expired : ℕ → PendingTx → Bool
is_expired now tx = ltb (tx.timestamp + tx_expiry) now

unfoldable pub candidates : ℕ → Mempool → List PendingTx
candidates now mp = keep (λ tx. not (is_expired now tx)) (values mp.pending)

-- The last loop of `SelectForBlock`: what is chosen leaves the pool.
unfoldable pub take_out : List PendingTx → Mempool → Mempool
take_out [] mp = mp
take_out (tx ∷ txs) mp =
    take_out txs (record { pending = erase tx.hash mp.pending; size = mp.size -64 1 })

abbrev pub confirm : PendingTx → PendingTx
confirm tx = record tx { status = "confirmed" }

-- `sort.Slice` is a parameter. A slice cannot be cut at a negative index.
unfoldable pub select_for_block :
    (List PendingTx → List PendingTx) → Int64 → ℕ → Mempool → Mempool × Outcome ⊥ (List PendingTx)
select_for_block sort max_txs now mp =
    let limit = if max_tx_per_block <64 max_txs then max_tx_per_block else max_txs in
    let chosen = take limit (sort (candidates now mp)) in
    if is_negative limit then (mp, panic) else (take_out chosen mp, ok (map confirm chosen))

unfoldable pub get_pending : (List PendingTx → List PendingTx) → Int64 → Mempool → List PendingTx
get_pending sort limit mp =
    let txs = sort (values mp.pending) in
    if 0 <64 limit then (if limit <64 length txs then take limit txs else txs) else txs

-- One tick of `cleanupRoutine`: the loop over the map deletes what has expired.
unfoldable pub cleanup : ℕ → Mempool → Mempool
cleanup now mp = take_out (keep (is_expired now) (values mp.pending)) mp

-- The running total, minimum and maximum of the fees in `Stats`.
fee_stats : List PendingTx → Int64 → Int64 → Int64 → Int64 × Int64 × Int64
fee_stats [] total low high = (total, low, high)
fee_stats (tx ∷ txs) total low high =
    fee_stats txs (total +64 tx.fee) (if tx.fee <64 low then tx.fee else low)
      (if high <64 tx.fee then tx.fee else high)

pub record MempoolStats : Type 0 where
  pub size : Int64
  pub max_size : Int64
  pub min_fee : Int64
  pub max_fee : Int64
  pub avg_fee : Int64
  pub max_tx_block : Int64

abbrev empty_stats : Int64 → MempoolStats
empty_stats size = record {
  size = size;
  max_size = max_mempool_size;
  min_fee = 100;
  max_fee = 0;
  avg_fee = 0;
  max_tx_block = max_tx_per_block;
}

-- The first transaction of the map sets the minimum and the maximum.
unfoldable pub stats : Mempool → MempoolStats
unfolding fee_stats
stats mp = if nat_eq mp.size 0 then empty_stats mp.size else elim (values mp.pending) [
  | [] ↦ record (empty_stats mp.size) { min_fee = 0 }
  | tx ∷ txs ↦
      let (total, low, high) = fee_stats txs (0 +64 tx.fee) tx.fee tx.fee in
      record (empty_stats mp.size) { min_fee = low; max_fee = high; avg_fee = div64 total mp.size }
]
