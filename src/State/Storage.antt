-- ===== src/State/Storage.antt =====
-- The state file, the genesis accounts, and the listing of transactions.
use nuvex.Base.{
  ℕ, ◌<◌, ◌≡◌, refl, ap, some, Option, List, [], ◌∷◌, arith, ok, string_key, false, take, reverse,
  newest-take-reverse,
}
use mathlib.Core.List
use nuvex.Base.Word.{Int64, half_word, is_negative}
use nuvex.State.Accounts.{AccountMap, Transaction}
use nuvex.State.Keeper.{StateKeeper, Disk, save, load, new_state_keeper, confirm, get_transactions}

-- encoding/json reads back what it has written of these contents, and the file takes every write.
pub record IsReliable (disk : Disk) (m : AccountMap) (txs : List Transaction) : Type 0 where
  pub reads_back : disk.unmarshal (disk.marshal m txs) ≡ some (m, txs)
  pub writes : (old : Option (List ℕ)) (bytes : List ℕ) → disk.write_file old bytes ≡ some bytes

new-save :
    (disk : Disk) (sk : StateKeeper)
    → IsReliable disk sk.accounts sk.txs
    → new_state_keeper disk (save disk sk).file ≡ save disk sk
unfolding new_state_keeper load save
new-save disk sk r =
    ground (arith, r.writes sk.file (disk.marshal sk.accounts sk.txs), r.reads_back)

-- A keeper that starts from the file after a confirmed transfer has the accounts and the
-- transactions that the running keeper has, the new transaction last, also where the printing
-- panicked.
pub new-confirm :
    (disk : Disk) (tx : Transaction) (sk : StateKeeper)
    → IsReliable disk sk.accounts (List.◌++◌ sk.txs (tx ∷ []))
    → let sk' = (confirm disk tx sk).0 in
      (new_state_keeper disk sk'.file ≡ sk')
      × (sk'.accounts ≡ sk.accounts)
      × (sk'.txs ≡ List.◌++◌ sk.txs (tx ∷ []))
unfolding confirm save
new-confirm disk tx sk r =
    (new-save disk (record sk { txs = List.◌++◌ sk.txs (tx ∷ []) }) r, refl, refl)

-- `GetTransactions` lists the newest transactions first, at most `limit` of them.
pub get_transactions-newest :
    (limit : Int64) (sk : StateKeeper)
    → limit < half_word
    → get_transactions limit sk ≡ ok (take limit (reverse sk.txs))
unfolding get_transactions
get_transactions-newest limit sk h =
    let e : is_negative limit ≡ false = ground arith in
    rw e (ap ok (newest-take-reverse sk.txs limit))
