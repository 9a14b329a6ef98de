-- ===== src/Mempool/Size.antt =====
-- The pool's size counter is the number of pending transactions, and stays within the limit.
use nuvex.Base.{
  ℕ, ◌+◌, ◌≤◌, ◌<◌, ◌≡◌, refl, sym, Bool, true, false, none, some, List, [], ◌∷◌, String, arith,
  length, string_key, ==_iff, ◌==◌, keep, Bool-cases, inl, inr,
}
use nuvex.Base.Word.{Int64, Uint64, ◌<64◌, ◌≤64◌}
use nuvex.Dict.{Dict, lookup, insert, erase, values, lookup-insert, length-insert_new, length-erase}
use nuvex.Host.{Host}
use nuvex.Mempool.{
  PendingTx, Mempool, pending_hash, pending_tx, submit, take_out, cleanup, max_mempool_size,
  is_expired,
}

-- Every transaction is filed under its own hash, and no hash twice.
abbrev pub IsFiled : Dict String PendingTx → Type 0
IsFiled [] = Unit {0}
IsFiled ((k, tx) ∷ m) = (tx.hash ≡ k) × (lookup k m ≡ none) × IsFiled m

pub record IsValid (mp : Mempool) : Type 0 where
  pub counted : mp.size ≡ length mp.pending
  pub bounded : mp.size ≤ max_mempool_size
  pub filed : IsFiled mp.pending

insert-IsFiled :
    (k : String) (tx : PendingTx) (m : Dict String PendingTx)
    → tx.hash ≡ k
    → IsFiled m
    → IsFiled (insert k tx m)
insert-IsFiled k tx [] e f = (e, refl, tt)
insert-IsFiled k tx ((j, u) ∷ m) e f =
    ground (arith, ==_iff j k, ==_iff k j, lookup-insert k j tx m, insert-IsFiled k tx m e f.2)

lookup-erase-none :
    (j k : String) (m : Dict String PendingTx) → lookup j m ≡ none → lookup j (erase k m) ≡ none
lookup-erase-none j k [] h = refl
lookup-erase-none j k ((i, u) ∷ m) h = ground (arith, lookup-erase-none j k m)

pub erase-IsFiled : (k : String) (m : Dict String PendingTx) → IsFiled m → IsFiled (erase k m)
erase-IsFiled k [] f = tt
erase-IsFiled k ((j, u) ∷ m) f = ground (arith, lookup-erase-none j k m, erase-IsFiled k m f.2)

-- A transaction with a hash that is not pending yet is counted; a refused one changes nothing.
pub submit-IsValid :
    (host : Host) (from to : String) (amount fee : Int64) (nonce : Uint64) (nanos : Int64) (now : ℕ)
    (mp : Mempool)
    → lookup (pending_hash host from to amount fee nonce nanos) mp.pending ≡ none
    → IsValid mp
    → IsValid (submit host from to amount fee nonce nanos now mp).0
unfolding submit
submit-IsValid host from to amount fee nonce nanos now mp fresh v =
    elim (Bool-cases (max_mempool_size ≤64 mp.size)) [
      | inl at_limit ↦ rw (at_limit, submit) v
      | inr room ↦ elim (Bool-cases (fee <64 100)) [
        | inl low ↦ rw (room, submit, low) v
        | inr paid ↦
            let hash = pending_hash host from to amount fee nonce nanos in
            let below : mp.size < max_mempool_size = ground (arith, v.bounded) in
            rw (room, submit, paid)
              (record {
                counted = omega (
                  arith,
                  v.counted,
                  length-insert_new hash (pending_tx host from to amount fee nonce nanos now)
                      mp.pending fresh,
                );
                bounded = omega arith;
                filed = insert-IsFiled hash _ mp.pending refl v.filed;
              })
      ]
    ]

-- Taking out transactions that are pending, each but once, keeps the count right.
abbrev pub ArePending : List PendingTx → Dict String PendingTx → Type 0
ArePending [] m = Unit {0}
ArePending (tx ∷ txs) m =
    ((u : PendingTx) × (lookup tx.hash m ≡ some u)) × ArePending txs (erase tx.hash m)

pub take_out-IsValid :
    (txs : List PendingTx) (mp : Mempool)
    → ArePending txs mp.pending
    → IsValid mp
    → IsValid (take_out txs mp) × ((take_out txs mp).size + length txs ≡ mp.size)
unfolding take_out
take_out-IsValid [] mp p v = (v, omega arith)
take_out-IsValid (tx ∷ txs) mp ((u, e), rest) v =
    let gone = length-erase tx.hash u mp.pending e in
    let (valid, count) = take_out-IsValid txs _ rest (record {
      counted = omega (arith, v.counted, v.bounded, gone);
      bounded = omega (arith, v.counted, v.bounded, gone);
      filed = erase-IsFiled tx.hash mp.pending v.filed;
    }) in
    (valid, omega (arith, count, v.counted, v.bounded, gone))

ArePending-cons :
    (txs : List PendingTx) (k : String) (tx : PendingTx) (m : Dict String PendingTx)
    → lookup k m ≡ none
    → ArePending txs m
    → ArePending txs ((k, tx) ∷ m)
ArePending-cons [] k tx m n p = tt
ArePending-cons (t ∷ txs) k tx m n ((u, e), rest) =
    let other : (k == t.hash) ≡ false = ground (arith, ==_iff k t.hash) in
    (
      (u, rw other e),
      rw other (ArePending-cons txs k tx (erase t.hash m) (lookup-erase-none k t.hash m n) rest),
    )

ArePending-keep :
    (p : PendingTx → Bool) (m : Dict String PendingTx)
    → IsFiled m
    → ArePending (keep p (values m)) m
ArePending-keep p [] f = tt
ArePending-keep p ((k, tx) ∷ m) f =
    let filed : (k == tx.hash) ≡ true = (==_iff k tx.hash).1 (sym f.0) in
    let rest = ArePending-keep p m f.2 in
    elim (Bool-cases (p tx)) [
      | inl kept ↦ rw kept ((tx, rw filed), rw filed rest)
      | inr passed ↦ rw passed (ArePending-cons (keep p (values m)) k tx m f.1 rest)
    ]

-- The tick of the cleanup lowers the counter by the number of expired transactions, and keeps it
-- right.
pub cleanup-IsValid :
    (now : ℕ) (mp : Mempool)
    → IsValid mp
    → IsValid (cleanup now mp)
      × ((cleanup now mp).size + length (keep (is_expired now) (values mp.pending)) ≡ mp.size)
unfolding cleanup
cleanup-IsValid now mp v =
    take_out-IsValid (keep (is_expired now) (values mp.pending)) mp
      (ArePending-keep (is_expired now) mp.pending v.filed) v
