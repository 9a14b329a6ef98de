-- ===== src/State/Conservation.antt =====
-- What a transfer does to the sum of the balances, and to each account.
use nuvex.Base.{
  ℕ, ◌+◌, ◌≤◌, ◌<◌, ◌≡◌, refl, none, some, String, arith, Outcome, ok, err, panic, string_key, ◌==◌,
  Bool-cases, Option-cases, inl, inr, false, true,
}
use nuvex.Base.Word.{Int64, half_word, ◌+64◌, ◌-64◌, ◌<64◌}
use nuvex.Dict.{lookup}
use nuvex.Host.{Host}
use nuvex.State.Accounts.{
  Account, Transaction, AccountMap, ensure_account, credit, debit, total_balance,
}
use nuvex.State.Balances.{
  balance-le-total_balance, total_balance-ensure, total_balance-credit, total_balance-debit,
  total_balance-bump_nonce, lookup-debit, lookup-ensure_self, lookup-ensure_old, account_or_fresh,
}
use nuvex.State.Keeper.{
  StateKeeper, StateError, unknown_address, not_enough, Disk, move_funds, confirm, transfer,
  transfer_record,
}

-- The account that is credited is there after the debit.
credited_account :
    (from to : String) (total : ℕ) (m : AccountMap)
    → (a : Account) × (lookup to (debit from total (ensure_account to m)) ≡ some a)
credited_account from to total m = elim (Bool-cases (from == to)) [
  | inl same ↦
      let b = account_or_fresh to m in
      (
        record b { balance = b.balance -64 total },
        rw (lookup-debit from to total (ensure_account to m), same, lookup-ensure_self to m),
      )
  | inr other ↦ (
    account_or_fresh to m,
    rw (lookup-debit from to total (ensure_account to m), other) (lookup-ensure_self to m),
  )
]

-- The three writes lower the sum by what exceeds the amount.
pub total_balance-move_funds :
    (from to : String) (amount fee : ℕ) (sender : Account) (m : AccountMap)
    → lookup from m ≡ some sender
    → amount + fee ≤ sender.balance
    → total_balance m < half_word
    → total_balance (move_funds from to amount (amount + fee) m) + fee ≡ total_balance m
unfolding move_funds
total_balance-move_funds from to amount fee sender m h cover bound =
    let (a, ea) = credited_account from to (amount + fee) m in
    let m1 = ensure_account to m in
    let m2 = debit from (amount + fee) m1 in
    let e1 = total_balance-ensure to m in
    let e2 =
      total_balance-debit from (amount + fee) sender m1 (lookup-ensure_old to from sender m h) cover
        (omega arith) in
    let e3 = total_balance-credit to amount a m2 ea (omega arith) in
    omega (arith, total_balance-bump_nonce from (credit to amount m2))

-- The test of the balance, on words that are not negative.
covered :
    (balance amount fee : ℕ)
    → balance < half_word
    → amount + fee < half_word
    → (balance <64 amount +64 fee) ≡ false
    → amount + fee ≤ balance
covered balance amount fee b t h = ground arith

-- A covered transfer, before it is confirmed, has lowered the sum by the fee.
pub moved_total :
    (from to : String) (amount fee : Int64) (sender : Account) (m : AccountMap)
    → lookup from m ≡ some sender
    → (sender.balance <64 amount +64 fee) ≡ false
    → amount + fee < half_word
    → total_balance m < half_word
    → total_balance (move_funds from to amount (amount +64 fee) m) + fee ≡ total_balance m
moved_total from to amount fee sender m e enough t bound =
    let exact : amount +64 fee ≡ amount + fee = omega arith in
    let cover : amount + fee ≤ sender.balance =
      covered sender.balance amount fee (omega (arith, balance-le-total_balance from sender m e)) t
        enough in
    rw exact (total_balance-move_funds from to amount fee sender m e cover bound)

-- A call that fails leaves the state as it was. Any other, also one that panics once the funds have
-- moved, lowers the sum by the fee.
abbrev pub Settles : ℕ → StateKeeper → StateKeeper × Outcome StateError Transaction → Type 0
Settles fee sk (sk', ok _) = total_balance sk'.accounts + fee ≡ total_balance sk.accounts
Settles fee sk (sk', err _) = sk' ≡ sk
Settles fee sk (sk', panic) = total_balance sk'.accounts + fee ≡ total_balance sk.accounts

module _ (host : Host) (disk : Disk) where
  pub confirm-Settles :
      (tx : Transaction) (fee : ℕ) (sk moved : StateKeeper)
      → total_balance moved.accounts + fee ≡ total_balance sk.accounts
      → Settles fee sk (confirm disk tx moved)
  unfolding confirm
  confirm-Settles tx fee sk moved h = ground arith

  -- The three ways that a transfer takes.
  pub transfer_unknown :
      (from to : String) (amount fee height : Int64) (now : String) (sk : StateKeeper)
      → lookup from sk.accounts ≡ none
      → transfer host disk from to amount fee height now sk ≡ (sk, err unknown_address)
  unfolding transfer
  transfer_unknown from to amount fee height now sk e = rw (e, transfer)

  pub transfer_short :
      (from to : String) (amount fee height : Int64) (now : String) (sk : StateKeeper)
      (sender : Account)
      → lookup from sk.accounts ≡ some sender
      → (sender.balance <64 amount +64 fee) ≡ true
      → transfer host disk from to amount fee height now sk ≡ (sk, err not_enough)
  unfolding transfer
  transfer_short from to amount fee height now sk sender e short = rw (e, transfer, short)

  pub transfer_enough :
      (from to : String) (amount fee height : Int64) (now : String) (sk : StateKeeper)
      (sender : Account)
      → lookup from sk.accounts ≡ some sender
      → (sender.balance <64 amount +64 fee) ≡ false
      → transfer host disk from to amount fee height now sk
        ≡ confirm disk
            (transfer_record host from to amount fee height now sender)
            (record sk { accounts = move_funds from to amount (amount +64 fee) sk.accounts })
  unfolding transfer
  transfer_enough from to amount fee height now sk sender e enough = rw (e, transfer, enough)

  -- A transfer whose amount and fee are not negative and do not overflow, on a state whose balances
  -- sum up to less than 2^63: it fails and changes nothing, or the sum falls by exactly the fee.
  pub transfer-Settles :
      (from to : String) (amount fee height : Int64) (now : String) (sk : StateKeeper)
      → amount + fee < half_word
      → total_balance sk.accounts < half_word
      → Settles fee sk (transfer host disk from to amount fee height now sk)
  transfer-Settles from to amount fee height now sk t bound =
      elim (Option-cases (lookup from sk.accounts)) [
        | inl missing ↦ rw (transfer_unknown from to amount fee height now sk missing) refl
        | inr (sender, e) ↦ elim (Bool-cases (sender.balance <64 amount +64 fee)) [
          | inl short ↦ rw (transfer_short from to amount fee height now sk sender e short) refl
          | inr enough ↦ rw (transfer_enough from to amount fee height now sk sender e enough) (
              confirm-Settles _ fee sk _
                (moved_total from to amount fee sender sk.accounts e enough t bound))
        ]
      ]
