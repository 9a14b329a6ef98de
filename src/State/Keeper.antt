-- ===== src/State/Keeper.antt =====
-- x/nvx/keeper/state.go: the state keeper and its operations. Each returns the state that it leaves
-- behind with its outcome, since what was written stays written after an error or a panic.
use Prim.Native.String.{◌++◌, slice}
use nuvex.Base.{
  ℕ, Bool, ◌||◌, not, Option, none, some, List, [], ◌∷◌, String, len, ltb, if◌then◌else◌, Outcome,
  ok, err, panic, newest, string_key, ◌==◌,
}
use mathlib.Core.List
use nuvex.Base.Word.{Int64, ◌+64◌, ◌<64◌, is_negative}
use nuvex.Dict.{lookup, insert, contains, values}
use nuvex.Host.{Host}
use nuvex.Signature.{TxPayload, SignatureError, verify_signature, address_from_public_key}
use nuvex.State.Accounts.{
  Account, Transaction, GenesisEntry, AccountMap, ensure_account, credit, debit, bump_nonce,
}

pub record StateKeeper : Type 0 where
  pub accounts : AccountMap
  pub txs : List Transaction
  -- the bytes of the file at `dbPath`, if there is one
  pub file : Option (List ℕ)

pub data StateError : Type 0 where
  unknown_address wrong_address not_enough : StateError
  invalid_signature bad_public_key : SignatureError → StateError

-- encoding/json on the two maps of `State`, and `os.WriteFile`, which may fail and whose error is
-- dropped: it gives the file's bytes after the call.
pub record Disk : Type 0 where
  pub marshal : AccountMap → List Transaction → List ℕ
  pub unmarshal : List ℕ → Option (AccountMap × List Transaction)
  pub write_file : Option (List ℕ) → List ℕ → Option (List ℕ)

-- An address as it is printed, `from[:16]`: it panics on a shorter text.
unfoldable pub too_short : String → Bool
too_short s = ltb (len s) 16

abbrev pub genesis_account : GenesisEntry → Account
genesis_account g = record {
  address = g.address;
  balance = g.amount;
  nonce = 0;
  public_key = g.public_key;
}

-- One round of the loop of `InitGenesis`: an address that has an account is left alone.
unfoldable pub add_entry : GenesisEntry → AccountMap → AccountMap
add_entry g accounts =
    if contains g.address accounts then accounts else insert g.address (genesis_account g) accounts

unfoldable pub add_genesis : List GenesisEntry → AccountMap → AccountMap
add_genesis [] accounts = accounts
add_genesis (g ∷ entries) accounts = add_genesis entries (add_entry g accounts)

module _ (disk : Disk) where
  unfoldable pub save : StateKeeper → StateKeeper
  save sk = record sk { file = disk.write_file sk.file (disk.marshal sk.accounts sk.txs) }

  unfoldable pub load : StateKeeper → StateKeeper
  load sk = elim sk.file [
    | none ↦ sk
    | some bytes ↦ elim (disk.unmarshal bytes) [
      | none ↦ sk
      | some (accounts, txs) ↦ record sk { accounts = accounts; txs = txs }
    ]
  ]

  unfoldable pub new_state_keeper : Option (List ℕ) → StateKeeper
  unfolding load
  new_state_keeper file = load (record { accounts = []; txs = []; file = file })

  unfoldable pub init_genesis : List GenesisEntry → StateKeeper → StateKeeper
  unfolding save
  init_genesis entries sk = save (record sk { accounts = add_genesis entries sk.accounts })

unfoldable pub get_balance : String → StateKeeper → Int64
get_balance address sk = elim (lookup address sk.accounts) [ some acc ↦ acc.balance | none ↦ 0 ]

abbrev pub get_all_accounts : StateKeeper → List Account
get_all_accounts sk = values sk.accounts

-- `make` panics on a negative length.
unfoldable pub get_transactions : Int64 → StateKeeper → Outcome StateError (List Transaction)
get_transactions limit sk = if is_negative limit then panic else ok (newest sk.txs limit)

-- The three writes of a transfer, in the source's order: a transfer to oneself touches one account.
unfoldable pub move_funds : String → String → Int64 → Int64 → AccountMap → AccountMap
move_funds from to amount total accounts =
    bump_nonce from (credit to amount (debit from total (ensure_account to accounts)))

module _ (disk : Disk) where
  -- The end of both transfers: record the transaction, save, and print the two addresses.
  unfoldable pub confirm : Transaction → StateKeeper → StateKeeper × Outcome StateError Transaction
  unfolding save too_short
  confirm tx sk = (
    save disk (record sk { txs = List.◌++◌ sk.txs (tx ∷ []) }),
    (if too_short tx.from || too_short tx.to then panic else ok tx),
  )

module _ (host : Host) where
  abbrev hex_hash : String → String
  hex_hash text = "0x" ++ host.hex_encode (host.sha256 (host.to_bytes text))

  -- The text that a transfer's hash is taken of: the fields with nothing between them.
  unfoldable pub transfer_text : String → String → Int64 → Int64 → ℕ → String
  transfer_text from to amount fee nonce =
      from ++ to ++ host.fmt_int amount ++ host.fmt_int fee ++ host.fmt_uint nonce

  -- The transaction that an unsigned transfer records.
  unfoldable pub transfer_record :
      String → String → Int64 → Int64 → Int64 → String → Account → Transaction
  unfolding transfer_text
  transfer_record from to amount fee height now sender = record {
    hash = hex_hash (transfer_text from to amount fee (sender.nonce +64 1));
    from = from;
    to = to;
    amount = amount;
    fee = fee;
    nonce = sender.nonce +64 1;
    height = height;
    timestamp = now;
    status = "confirmed";
    signature = "";
  }

  -- After the checks: the transfer, whose transaction quotes the first 16 bytes of the signature.
  unfoldable pub signed_record :
      String → String → Int64 → Int64 → Int64 → String → String → Account → Transaction
  unfolding transfer_text
  signed_record from to amount fee height signature now sender = record {
    hash = hex_hash (transfer_text from to amount fee (sender.nonce +64 1) ++ signature);
    from = from;
    to = to;
    amount = amount;
    fee = fee;
    nonce = sender.nonce +64 1;
    height = height;
    timestamp = now;
    status = "confirmed";
    signature = slice signature 0 16 ++ "...";
  }

  -- Whether the signature and the key entitle the caller to spend from the address.
  unfoldable pub authorize :
      String → String → Int64 → Int64 → String → String → Account → Outcome StateError (Unit {0})
  authorize from to amount fee public_key signature sender =
      let payload : TxPayload = record {
        from = from;
        to = to;
        amount = amount;
        fee = fee;
        nonce = sender.nonce +64 1;
      } in
      elim (verify_signature host public_key payload signature) [
        | err e ↦ err (invalid_signature e)
        | panic ↦ panic
        | ok _ ↦ elim (address_from_public_key host public_key) [
          | err e ↦ err (bad_public_key e)
          | panic ↦ panic
          | ok derived ↦ if not (derived == from) then err wrong_address else ok tt
        ]
      ]

module _ (host : Host) (disk : Disk) where
  unfoldable pub transfer :
      String
      → String
      → Int64
      → Int64
      → Int64
      → String
      → StateKeeper
      → StateKeeper × Outcome StateError Transaction
  transfer from to amount fee height now sk = elim (lookup from sk.accounts) [
    | none ↦ (sk, err unknown_address)
    | some sender ↦
        let total = amount +64 fee in
        if sender.balance <64 total
        then (sk, err not_enough)
        else confirm disk (transfer_record host from to amount fee height now sender)
            (record sk { accounts = move_funds from to amount total sk.accounts })
  ]

  unfoldable pub execute_signed :
      String
      → String
      → Int64
      → Int64
      → Int64
      → String
      → String
      → Account
      → StateKeeper
      → StateKeeper × Outcome StateError Transaction
  unfolding too_short
  execute_signed from to amount fee height signature now sender sk =
      let moved : StateKeeper = record sk {
        accounts = move_funds from to amount (amount +64 fee) sk.accounts;
      } in
      if too_short signature
      then (moved, panic)
      else confirm disk (signed_record host from to amount fee height signature now sender) moved

  unfoldable pub signed_transfer :
      String
      → String
      → Int64
      → Int64
      → Int64
      → String
      → String
      → String
      → StateKeeper
      → StateKeeper × Outcome StateError Transaction
  signed_transfer from to amount fee height public_key signature now sk =
      elim (lookup from sk.accounts) [
        | none ↦ (sk, err unknown_address)
        | some sender ↦ elim (authorize host from to amount fee public_key signature sender) [
          | err e ↦ (sk, err e)
          | panic ↦ (sk, panic)
          | ok _ ↦
              if sender.balance <64 amount +64 fee
              then (sk, err not_enough)
              else execute_signed from to amount fee height signature now sender sk
        ]
      ]
