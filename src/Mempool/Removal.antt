-- ===== src/Mempool/Removal.antt =====
-- What is left in the pool when some of it is taken out.
use mathlib.Core.List.{Perm, Perm-prop, Mem, Memᴰ, perm_middle, mem-cons_self}
use mathlib.Core.List.Perm
use mathlib.Core.List.Memᴰ
use nuvex.Base.{
  ◌≡◌, refl, sym, ap, ◌∙◌, Bool, true, false, not, none, some, List, [], ◌∷◌, ◌++◌, String, arith,
  string_key, ==_iff, ◌==◌, keep, Bool-cases, Option-cases, inl, inr,
}
use nuvex.Dict.{Dict, lookup, contains, erase, values}
use nuvex.Base.Word.{◌-64◌}
use nuvex.Mempool.{PendingTx, Mempool, take_out}
use nuvex.Mempool.Size.{IsFiled, ArePending, erase-IsFiled}

lookup_filed :
    (tx : PendingTx) (m : Dict String PendingTx)
    → IsFiled m
    → Memᴰ tx (values m)
    → lookup tx.hash m ≡ some tx
lookup_filed tx [] f mem = absurd (Memᴰ.not-nil mem)
lookup_filed tx ((k, u) ∷ m) f (Memᴰ.head e) =
    let same : (k == tx.hash) ≡ true =
      (==_iff k tx.hash).1 (sym f.0 ∙ ap (λ (t : PendingTx). t.hash) (sym e)) in
    rw same (ap some (sym e))
lookup_filed tx ((k, u) ∷ m) f (Memᴰ.tail mem) =
    let found = lookup_filed tx m f.2 mem in
    let other : (k == tx.hash) ≡ false = ground (arith, ==_iff k tx.hash, f.1) in rw other found

missing_found :
    (k : String) (m : Dict String PendingTx) → lookup k m ≡ none → contains k m ≡ true → ⊥
missing_found k m missing found = ground (arith, missing, found)

erase_filed :
    (tx : PendingTx) (m : Dict String PendingTx)
    → IsFiled m
    → Memᴰ tx (values m)
    → Perm (tx ∷ values (erase tx.hash m)) (values m)
erase_filed tx [] f mem = absurd (Memᴰ.not-nil mem)
erase_filed tx ((k, u) ∷ m) f (Memᴰ.head e) =
    let same : (k == tx.hash) ≡ true =
      (==_iff k tx.hash).1 (sym f.0 ∙ ap (λ (t : PendingTx). t.hash) (sym e)) in
    rw same (Perm.cons' e (Perm.refl (values m)))
erase_filed tx ((k, u) ∷ m) f (Memᴰ.tail mem) =
    let found = lookup_filed tx m f.2 mem in
    let other : (k == tx.hash) ≡ false = ground (arith, ==_iff k tx.hash, f.1) in
    rw other (
      Perm.trans (Perm.swap u tx (values (erase tx.hash m)))
        (Perm.cons u (erase_filed tx m f.2 mem)))

-- A transaction of the pool that is taken out was pending, and the others stay.
pub take_out-Perm :
    (txs others : List PendingTx) (mp : Mempool)
    → IsFiled mp.pending
    → Perm (txs ++ others) (values mp.pending)
    → ArePending txs mp.pending × Perm others (values (take_out txs mp).pending)
unfolding take_out
take_out-Perm [] others mp f p = (tt, p)
take_out-Perm (tx ∷ txs) others mp f p =
    let mem : Mem tx (values mp.pending) = (Perm.mem_iff p).0 mem-cons_self in
    let erased : Perm (tx ∷ values (erase tx.hash mp.pending)) (values mp.pending) =
      ∥∥₁_rec Perm-prop (erase_filed tx mp.pending f) mem in
    let found : contains tx.hash mp.pending ≡ true =
      ∥∥₁_rec (hlevel) (λ mem'. rw (lookup_filed tx mp.pending f mem', contains) refl) mem in
    let (pending, left) =
      take_out-Perm txs others (record { pending = erase tx.hash mp.pending; size = mp.size -64 1 })
        (erase-IsFiled tx.hash mp.pending f) (Perm.cons_inv (Perm.trans p (Perm.symm erased))) in
    elim (Option-cases (lookup tx.hash mp.pending)) [
      | inl missing ↦ absurd (missing_found tx.hash mp.pending missing found)
      | inr (u, e) ↦ (((u, e), pending), left)
    ]

-- Those that pass a test and those that do not are all of them.
pub keep-Perm :
    (p : PendingTx → Bool) (txs : List PendingTx)
    → Perm (keep (λ tx. not (p tx)) txs ++ keep p txs) txs
keep-Perm p [] = Perm.refl []
keep-Perm p (tx ∷ txs) = elim (Bool-cases (p tx)) [
  | inl passes ↦
      rw (passes, keep, ◌++◌)
        (Perm.trans (perm_middle (keep (λ tx. not (p tx)) txs) (keep p txs))
          (Perm.cons tx (keep-Perm p txs)))
  | inr other ↦ rw (other, keep, ◌++◌) (Perm.cons tx (keep-Perm p txs))
]

mem_kept :
    (p : PendingTx → Bool) (tx : PendingTx) (txs : List PendingTx)
    → Memᴰ tx (keep p txs)
    → p tx ≡ true
mem_kept p tx [] mem = absurd (Memᴰ.not-nil mem)
mem_kept p tx (u ∷ us) mem = here (p u) refl (mem_kept p tx us) mem
  where
    here :
        (b : Bool)
        → p u ≡ b
        → (Memᴰ tx (keep p us) → p tx ≡ true)
        → Memᴰ tx (elim b [ true ↦ u ∷ keep p us | false ↦ keep p us ])
        → p tx ≡ true
    here true e again (Memᴰ.head same) = ap p same ∙ e
    here true e again (Memᴰ.tail rest) = again rest
    here false e again rest = again rest

-- What a filter leaves has passed its test.
pub mem-keep :
    (p : PendingTx → Bool) (tx : PendingTx) (txs : List PendingTx)
    → Mem tx (keep p txs)
    → p tx ≡ true
mem-keep p tx txs mem = ∥∥₁_rec (hlevel) (mem_kept p tx txs) mem
