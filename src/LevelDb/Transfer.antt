-- ===== src/LevelDb/Transfer.antt =====
-- x/nvx/keeper/state_leveldb.go: `TransferLDB`. It takes the lock, which the calls of `GetAccount` in
-- its body then find taken.
use Prim.Native.String.{◌++◌}
use nuvex.Base.{
  ℕ, not, ◌||◌, Option, none, some, String, if◌then◌else◌, string_key, nat_key, Outcome, ok, err,
  panic,
}
use nuvex.Base.Word.{Int64, ◌+64◌, ◌-64◌, ◌<64◌, Uint64}
use nuvex.Dict.{lookup, adjust}
use nuvex.Host.{Host}
use nuvex.State.Accounts.{Account, Transaction}
use nuvex.State.Keeper.{transfer_text, too_short}
use nuvex.LevelDb.{
  Database, Codec, free, reading, writing, Call, returned, blocked, LevelError, no_account,
  not_enough, write_failed, LevelState, allocate, get_account, set_account, save_transaction,
}

-- `*p` for a cell that is there.
abbrev pub account_at : {Db : Type 0} → ℕ → LevelState Db → Account
account_at cell s = elim (lookup cell s.heap) [
  | none ↦ record { address = ""; balance = 0; nonce = 0; public_key = "" }
  | some acc ↦ acc
]

abbrev pub write_cell : {Db : Type 0} → ℕ → (Account → Account) → LevelState Db → LevelState Db
write_cell cell f s = record s { heap = adjust cell f s.heap }

abbrev pub unlock : {Db : Type 0} → LevelState Db → LevelState Db
unlock s = record s { lock = free }

module _ {Db : Type 0} (level : Database Db) (codec : Codec) (host : Host) where
  -- After both writes of accounts: the transaction is saved, and the log line quotes the addresses.
  unfoldable pub save_and_print :
      Transaction → LevelState Db → LevelState Db × Outcome LevelError Transaction
  unfolding save_transaction too_short
  save_and_print tx s =
      let (s', written) = save_transaction level codec host tx s in
      (
        s',
        if not written
            then err write_failed
            else if too_short tx.from || too_short tx.to
            then panic
            else ok tx,
      )

  unfoldable pub ldb_record :
      String → String → Int64 → Int64 → Int64 → String → Uint64 → Transaction
  unfolding transfer_text
  ldb_record from to amount fee height now nonce = record {
    hash =
        "0x"
        ++ host.hex_encode
            (host.sha256 (host.to_bytes (transfer_text host from to amount fee nonce)));
    from = from;
    to = to;
    amount = amount;
    fee = fee;
    nonce = nonce;
    height = height;
    timestamp = now;
    status = "confirmed";
    signature = "";
  }

  -- Both accounts are written to the database, the sender's first, and then the transaction with the
  -- sender's nonce.
  unfoldable pub write_both :
      ℕ
      → ℕ
      → (Uint64 → Transaction)
      → LevelState Db
      → LevelState Db × Outcome LevelError Transaction
  unfolding save_and_print set_account
  write_both sender receiver tx s =
      let (s1, first) = set_account level codec host sender s in
      let (s2, second) = set_account level codec host receiver s1 in
      if not first
      then (s1, err write_failed)
      else if not second
      then (s2, err write_failed)
      else save_and_print (tx (account_at sender s).nonce) s2

  -- The changes of the two accounts, which may be one.
  unfoldable pub move_cells : ℕ → ℕ → Int64 → Int64 → LevelState Db → LevelState Db
  move_cells sender receiver amount total s =
      write_cell sender (λ acc. record acc { nonce = acc.nonce +64 1 })
        (write_cell receiver (λ acc. record acc { balance = acc.balance +64 amount })
          (write_cell sender (λ acc. record acc { balance = acc.balance -64 total }) s))

  -- A receiver with no account gets a new one, which is in no map yet.
  unfoldable pub receiver_cell : String → Option ℕ → LevelState Db → LevelState Db × ℕ
  receiver_cell to none s =
      allocate (record { address = to; balance = 0; nonce = 0; public_key = "" }) s
  receiver_cell to (some cell) s = (s, cell)

  unfoldable pub pay :
      String
      → String
      → Int64
      → Int64
      → Int64
      → String
      → ℕ
      → Option ℕ
      → LevelState Db
      → LevelState Db × Outcome LevelError Transaction
  unfolding move_cells write_both receiver_cell ldb_record
  pay from to amount fee height now sender found s =
      let (s', receiver) = receiver_cell to found s in
      write_both sender receiver (ldb_record from to amount fee height now)
        (move_cells sender receiver amount (amount +64 fee) s')

  -- The body after the sender's account was looked for.
  unfoldable pub pay_from :
      String
      → String
      → Int64
      → Int64
      → Int64
      → String
      → Option ℕ
      → LevelState Db
      → LevelState Db × Call (Outcome LevelError Transaction)
  unfolding get_account pay
  pay_from from to amount fee height now none s = (s, returned (err no_account))
  pay_from from to amount fee height now (some sender) s =
      let (s', call) = get_account level codec host to s in
      if (account_at sender s).balance <64 amount +64 fee
      then (s, returned (err not_enough))
      else elim call [
        | blocked ↦ (s', blocked)
        | returned found ↦
            let (paid, outcome) = pay from to amount fee height now sender found s' in
            (paid, returned outcome)
      ]

  -- The lock is given back when the body returns, and stays taken when it waits.
  unfoldable pub transfer_ldb :
      String
      → String
      → Int64
      → Int64
      → Int64
      → String
      → LevelState Db
      → LevelState Db × Call (Outcome LevelError Transaction)
  unfolding get_account pay_from
  transfer_ldb from to amount fee height now s = elim s.lock [
    | writing ↦ (s, blocked)
    | reading ↦ (s, blocked)
    | free ↦
        let (s1, call) = get_account level codec host from (record s { lock = writing }) in
        elim call [
          | blocked ↦ (s1, blocked)
          | returned found ↦
              let (s2, done) = pay_from from to amount fee height now found s1 in
              elim done [ blocked ↦ (s2, blocked) | returned o ↦ (unlock s2, returned o) ]
        ]
  ]
