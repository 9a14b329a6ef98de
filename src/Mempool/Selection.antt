-- ===== src/Mempool/Selection.antt =====
-- What `SelectForBlock` chooses, and what it leaves.
use mathlib.Core.List.{Perm, Mem, mem-cons_self, mem-cons_of_mem, append_assoc}
use mathlib.Core.List.Perm
use Prim.Native.Nat.{min}
use nuvex.Base.{
  zero, suc, ℕ, ◌+◌, ◌<◌, ◌≤◌, ◌≡◌, refl, sym, ap, ◌∙◌, subst, true, false, not, List, [], ◌∷◌,
  ◌++◌, map, arith, Outcome, ok, length, take, drop, take-append-drop, length-take, if◌then◌else◌,
  keep,
}
use nuvex.Base.Word.{Int64, half_word, ◌<64◌, is_negative}
use nuvex.Dict.{values}
use nuvex.Mempool.{
  PendingTx, Mempool, is_expired, candidates, take_out, confirm, select_for_block, max_tx_per_block,
}
use nuvex.Mempool.Size.{IsValid, take_out-IsValid}
use nuvex.Mempool.Removal.{take_out-Perm, keep-Perm, mem-keep}

-- No transaction of the list goes before this one.
abbrev pub Precedes : PendingTx → List PendingTx → Type 0
Precedes a [] = Unit {0}
Precedes a (b ∷ txs) = ((a.priority <64 b.priority) ≡ false) × Precedes a txs

abbrev pub IsSorted : List PendingTx → Type 0
IsSorted [] = Unit {0}
IsSorted (a ∷ txs) = Precedes a txs × IsSorted txs

-- What `sort.Slice` with `candidates[i].Priority > candidates[j].Priority` promises of these.
abbrev pub Sorts : (List PendingTx → List PendingTx) → List PendingTx → Type 0
Sorts sort txs = Perm (sort txs) txs × IsSorted (sort txs)

-- Each of the chosen goes before all of the rest, or ties with it.
abbrev pub AllPrecede : List PendingTx → List PendingTx → Type 0
AllPrecede [] rest = Unit {0}
AllPrecede (a ∷ chosen) rest = Precedes a rest × AllPrecede chosen rest

Precedes-drop :
    (n : ℕ) (a : PendingTx) (txs : List PendingTx) → Precedes a txs → Precedes a (drop n txs)
Precedes-drop zero a txs h = h
Precedes-drop (suc n) a [] h = h
Precedes-drop (suc n) a (b ∷ txs) h = Precedes-drop n a txs h.1

AllPrecede-take-drop :
    (n : ℕ) (txs : List PendingTx) → IsSorted txs → AllPrecede (take n txs) (drop n txs)
AllPrecede-take-drop zero txs h = tt
AllPrecede-take-drop (suc n) [] h = tt
AllPrecede-take-drop (suc n) (a ∷ txs) h =
    (Precedes-drop n a txs h.0, AllPrecede-take-drop n txs h.1)

clamp :
    (max_txs : Int64)
    → max_txs < half_word
    → (if max_tx_per_block <64 max_txs then max_tx_per_block else max_txs)
      ≡ min max_txs max_tx_per_block
clamp max_txs h = ground arith

-- A transaction waits for an hour, and expires after it.
abbrev pub an_hour : ℕ
an_hour = 3_600_000_000_000

abbrev pub AllWait : ℕ → List PendingTx → Type 0
AllWait now [] = Unit {0}
AllWait now (tx ∷ txs) = (now ≤ tx.timestamp + an_hour) × AllWait now txs

abbrev pub AllExpired : ℕ → List PendingTx → Type 0
AllExpired now [] = Unit {0}
AllExpired now (tx ∷ txs) = (tx.timestamp + an_hour < now) × AllExpired now txs

not_expired :
    (now : ℕ) (tx : PendingTx) → not (is_expired now tx) ≡ true → now ≤ tx.timestamp + an_hour
unfolding is_expired
not_expired now tx h = ground (arith, h)

expired : (now : ℕ) (tx : PendingTx) → is_expired now tx ≡ true → tx.timestamp + an_hour < now
unfolding is_expired
expired now tx h = ground (arith, h)

mem-AllWait :
    (now : ℕ) (txs : List PendingTx)
    → ((tx : PendingTx) → Mem tx txs → now ≤ tx.timestamp + an_hour)
    → AllWait now txs
mem-AllWait now [] h = tt
mem-AllWait now (tx ∷ txs) h =
    (h tx mem-cons_self, mem-AllWait now txs (λ u m. h u (mem-cons_of_mem tx m)))

mem-AllExpired :
    (now : ℕ) (txs : List PendingTx)
    → ((tx : PendingTx) → Mem tx txs → tx.timestamp + an_hour < now)
    → AllExpired now txs
mem-AllExpired now [] h = tt
mem-AllExpired now (tx ∷ txs) h =
    (h tx mem-cons_self, mem-AllExpired now txs (λ u m. h u (mem-cons_of_mem tx m)))

-- What is sorted of the candidates waits.
sorted-AllWait :
    (sort : List PendingTx → List PendingTx) (now : ℕ) (mp : Mempool)
    → Sorts sort (candidates now mp)
    → AllWait now (sort (candidates now mp))
unfolding candidates
sorted-AllWait sort now mp s = mem-AllWait now (sort (candidates now mp)) (λ tx m.
    not_expired now tx
      (mem-keep (λ t. not (is_expired now t)) tx (values mp.pending) ((Perm.mem_iff s.0).0 m)))

sorted-Perm :
    (sort : List PendingTx → List PendingTx) (now : ℕ) (mp : Mempool)
    → Sorts sort (candidates now mp)
    → Perm
        (sort (candidates now mp) ++ keep (is_expired now) (values mp.pending))
        (values mp.pending)
unfolding candidates
sorted-Perm sort now mp s =
    Perm.trans (Perm.append_right (keep (is_expired now) (values mp.pending)) s.0)
      (keep-Perm (is_expired now) (values mp.pending))

select_for_block_runs :
    (sort : List PendingTx → List PendingTx) (max_txs : Int64) (now : ℕ) (mp : Mempool)
    → max_txs < half_word
    → let chosen = take (min max_txs max_tx_per_block) (sort (candidates now mp)) in
      select_for_block sort max_txs now mp ≡ (take_out chosen mp, ok (map confirm chosen))
unfolding select_for_block
select_for_block_runs sort max_txs now mp h =
    let e = clamp max_txs h in
    let n : is_negative (min max_txs max_tx_per_block) ≡ false = ground arith in
    rw (e, select_for_block, n)

-- What a selection promises: of the pool's transactions it returns some that have waited for at most
-- an hour, with the status `confirmed`; as many as the limit and the block allow, and none with a
-- lower priority than another that waits; and these are what leaves the pool.
abbrev pub Selects : Int64 → ℕ → Mempool → Mempool × Outcome ⊥ (List PendingTx) → Type 0
Selects max_txs now mp (mp', outcome) =
    (chosen : List PendingTx) × (rest : List PendingTx) × (expired : List PendingTx) × Perm
      ((chosen ++ rest) ++ expired) (values mp.pending)
    × AllWait now (chosen ++ rest)
    × AllExpired now expired
    × AllPrecede chosen rest
    × (length chosen ≡ min (min max_txs max_tx_per_block) (length (chosen ++ rest)))
    × (outcome ≡ ok (map (λ (tx : PendingTx). record tx { status = "confirmed" }) chosen))
    × Perm (rest ++ expired) (values mp'.pending)
    × IsValid mp'

-- A selection from a pool in good order, with a limit below 2^63, returns some of the pending
-- transactions, with the status `confirmed`: none of them has waited for more than an hour, they are
-- as many as the limit and the block allow of those, and none has a lower priority than one of those
-- that is left. The pool afterwards is in good order, and holds all the others, the expired ones
-- too.
pub select_for_block_best :
    (sort : List PendingTx → List PendingTx) (max_txs : Int64) (now : ℕ) (mp : Mempool)
    → max_txs < half_word
    → IsValid mp
    → Sorts sort (candidates now mp)
    → Selects max_txs now mp (select_for_block sort max_txs now mp)
select_for_block_best sort max_txs now mp h v s =
    let limit = min max_txs max_tx_per_block in
    let sorted = sort (candidates now mp) in
    let old = keep (is_expired now) (values mp.pending) in
    let split = sym (take-append-drop limit sorted) in
    let all : Perm ((take limit sorted ++ drop limit sorted) ++ old) (values mp.pending) =
      subst (λ l. Perm (l ++ old) (values mp.pending)) split (sorted-Perm sort now mp s) in
    let (pending, left) = take_out-Perm (take limit sorted) (drop limit sorted ++ old) mp v.filed (
      subst (λ l. Perm l (values mp.pending))
        (append_assoc (take limit sorted) (drop limit sorted) old) all) in
    subst (Selects max_txs now mp) (sym (select_for_block_runs sort max_txs now mp h)) (
      take limit sorted,
      drop limit sorted,
      old,
      all,
      subst (AllWait now) split (sorted-AllWait sort now mp s),
      mem-AllExpired now old
          (λ tx m. expired now tx (mem-keep (is_expired now) tx (values mp.pending) m)),
      AllPrecede-take-drop limit sorted s.1,
      length-take limit sorted ∙ ap (λ l. min limit (length l)) split,
      refl,
      left,
      (take_out-IsValid (take limit sorted) mp pending v).0,
    )
