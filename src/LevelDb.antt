-- ===== src/LevelDb.antt =====
-- x/nvx/keeper/state_leveldb.go: the state in LevelDB. The database is a parameter. Accounts are shared
-- by pointers: the cache holds numbers of the heap's cells, the caller gets such a number, and a write
-- through it is a write to the heap.
pub mod Transfer
pub mod RoundTrip
pub mod Locks
mod Tests
use nuvex.Base.{
  ℕ, zero, suc, Bool, true, false, Option, none, some, List, [], ◌∷◌, ◌++◌, String, length,
  if◌then◌else◌, string_key, nat_key, Outcome, ok, err, panic, reverse,
}
use nuvex.Base.Word.{Int64, is_negative}
use nuvex.Dict.{Dict, lookup, insert}
use nuvex.Host.{Host}
use nuvex.State.Accounts.{Account, Transaction}

-- github.com/syndtr/goleveldb: `Get`, `Put`, which may fail, and the values that an iterator over a
-- prefix goes through, in the order of their keys.
pub record Database (Db : Type 0) : Type 0 where
  pub fetch : List ℕ → Db → Option (List ℕ)
  pub store : List ℕ → List ℕ → Db → Option Db
  pub range : List ℕ → Db → List (List ℕ)

-- encoding/json, `%010d` and `string(bytes)`.
pub record Codec : Type 0 where
  pub marshal_account : Account → Option (List ℕ)
  pub unmarshal_account : List ℕ → Option Account
  pub marshal_tx : Transaction → Option (List ℕ)
  pub unmarshal_tx : List ℕ → Option Transaction
  pub pad_height : Int64 → List ℕ
  pub to_text : List ℕ → String

-- The state of `mu`.
pub data LockState : Type 0 where
  free reading writing : LockState

-- A call returns, or it waits for a lock that its own thread holds.
pub data Call (A : Type 0) : Type 0 where
  returned : A → Call A
  blocked : Call A

pub data LevelError : Type 0 where
  no_account not_enough tx_not_found bad_json write_failed : LevelError

pub record LevelState (Db : Type 0) : Type 0 where
  pub lock : LockState
  pub db : Db
  pub cache : Dict String ℕ
  pub heap : Dict ℕ Account

-- "acc:", "tx:", "txidx:", "txaddr:" and ":" in bytes.
abbrev pub acc_prefix : List ℕ
acc_prefix = 97 ∷ 99 ∷ 99 ∷ 58 ∷ []

abbrev pub tx_prefix : List ℕ
tx_prefix = 116 ∷ 120 ∷ 58 ∷ []

abbrev pub idx_prefix : List ℕ
idx_prefix = 116 ∷ 120 ∷ 105 ∷ 100 ∷ 120 ∷ 58 ∷ []

abbrev pub addr_prefix : List ℕ
addr_prefix = 116 ∷ 120 ∷ 97 ∷ 100 ∷ 100 ∷ 114 ∷ 58 ∷ []

abbrev pub colon : List ℕ
colon = 58 ∷ []

unfoldable pub new_level_state : {Db : Type 0} → Db → LevelState Db
new_level_state db = record { lock = free; db = db; cache = []; heap = [] }

-- `&acc`: a new cell.
abbrev pub allocate : {Db : Type 0} → Account → LevelState Db → LevelState Db × ℕ
allocate acc s = (record s { heap = (length s.heap, acc) ∷ s.heap }, length s.heap)

module _ {Db : Type 0} (level : Database Db) (codec : Codec) (host : Host) where
  unfoldable pub account_key : String → List ℕ
  account_key address = acc_prefix ++ host.to_bytes address

  unfoldable pub tx_key : String → List ℕ
  tx_key hash = tx_prefix ++ host.to_bytes hash

  unfoldable pub height_key : Transaction → List ℕ
  height_key tx = idx_prefix ++ codec.pad_height tx.height ++ colon ++ host.to_bytes tx.hash

  unfoldable pub address_key : String → Transaction → List ℕ
  address_key address tx =
      addr_prefix
      ++ host.to_bytes address
      ++ colon
      ++ codec.pad_height tx.height
      ++ colon
      ++ host.to_bytes tx.hash

  -- The account of a cached address, or the one in the database.
  unfoldable pub stored_account : String → Db → Option Account
  stored_account address db = elim (level.fetch (account_key address) db) [
    | none ↦ none
    | some bytes ↦ codec.unmarshal_account bytes
  ]

  -- The second half of `GetAccount`, under the lock: what is found enters the cache.
  unfoldable pub fetch_account : String → LevelState Db → LevelState Db × Call (Option ℕ)
  fetch_account address s = elim (stored_account address s.db) [
    | none ↦ (s, returned none)
    | some acc ↦
        let (s', cell) = allocate acc s in
        (record s' { cache = insert address cell s'.cache }, returned (some cell))
  ]

  -- `RLock` waits for a writer, `Lock` for readers too. Both are given back before it returns.
  unfoldable pub get_account : String → LevelState Db → LevelState Db × Call (Option ℕ)
  unfolding fetch_account
  get_account address s = elim s.lock [
    | writing ↦ (s, blocked)
    | reading ↦ elim (lookup address s.cache) [
      | some cell ↦ (s, returned (some cell))
      | none ↦ (s, blocked)
    ]
    | free ↦ elim (lookup address s.cache) [
      | some cell ↦ (s, returned (some cell))
      | none ↦ fetch_account address s
    ]
  ]

  -- The Boolean says that there was no error.
  unfoldable pub put : List ℕ → List ℕ → LevelState Db → LevelState Db × Bool
  put key value s = elim (level.store key value s.db) [
    | none ↦ (s, false)
    | some db ↦ (record s { db = db }, true)
  ]

  -- The writes up to the first that fails.
  unfoldable pub put_all : List (List ℕ × List ℕ) → LevelState Db → LevelState Db × Bool
  unfolding put
  put_all [] s = (s, true)
  put_all ((key, value) ∷ writes) s =
      let (s', written) = put key value s in
      let rest = put_all writes s' in if written then rest else (s', false)

  -- `SetAccount` on the account `acc` in the cell.
  unfoldable pub write_account : ℕ → Account → LevelState Db → LevelState Db × Bool
  write_account cell acc s = elim (codec.marshal_account acc) [
    | none ↦ (s, false)
    | some bytes ↦ elim (level.store (account_key acc.address) bytes s.db) [
      | none ↦ (s, false)
      | some db ↦ (record s { db = db; cache = insert acc.address cell s.cache }, true)
    ]
  ]

  unfoldable pub set_account : ℕ → LevelState Db → LevelState Db × Bool
  unfolding write_account
  set_account cell s = elim (lookup cell s.heap) [
    | none ↦ (s, false)
    | some acc ↦ write_account cell acc s
  ]

  unfoldable pub get_balance_ldb : String → LevelState Db → LevelState Db × Call Int64
  unfolding get_account
  get_balance_ldb address s =
      let (s', call) = get_account address s in
      elim call [
        | blocked ↦ (s', blocked)
        | returned none ↦ (s', returned 0)
        | returned (some cell) ↦ elim (lookup cell s'.heap) [
          | none ↦ (s', returned 0)
          | some acc ↦ (s', returned acc.balance)
        ]
      ]

  -- The four entries of a transaction: by its hash, by its height, and by its two addresses.
  unfoldable pub tx_writes : List ℕ → Transaction → List (List ℕ × List ℕ)
  tx_writes bytes tx =
      (tx_key tx.hash, bytes)
      ∷ (height_key tx, host.to_bytes tx.hash)
      ∷ (address_key tx.from tx, host.to_bytes tx.hash)
      ∷ (address_key tx.to tx, host.to_bytes tx.hash)
      ∷ []

  unfoldable pub save_transaction : Transaction → LevelState Db → LevelState Db × Bool
  unfolding tx_writes
  save_transaction tx s = elim (codec.marshal_tx tx) [
    | none ↦ (s, false)
    | some bytes ↦ put_all (tx_writes bytes tx) s
  ]

  unfoldable pub get_transaction : String → Db → Outcome LevelError Transaction
  get_transaction hash db = elim (level.fetch (tx_key hash) db) [
    | none ↦ err tx_not_found
    | some bytes ↦ elim (codec.unmarshal_tx bytes) [ none ↦ err bad_json | some tx ↦ ok tx ]
  ]

  -- The loop of both listings, over the hashes from the last: what cannot be read does not count.
  unfoldable pub collect : ℕ → List (List ℕ) → Db → List Transaction
  unfolding get_transaction
  collect zero hashes db = []
  collect (suc n) [] db = []
  collect (suc n) (hash ∷ hashes) db = elim (get_transaction (codec.to_text hash) db) [
    | ok tx ↦ tx ∷ collect n hashes db
    | err e ↦ collect (suc n) hashes db
    | panic ↦ []
  ]

  -- A negative limit lists nothing.
  abbrev pub budget : Int64 → ℕ
  budget limit = if is_negative limit then 0 else limit

  abbrev listing : List ℕ → Int64 → LevelState Db → Call (List Transaction)
  listing prefix limit s = elim s.lock [
    | writing ↦ blocked
    | _ ↦ returned (collect (budget limit) (reverse (level.range prefix s.db)) s.db)
  ]

  unfoldable pub get_transactions_by_address :
      String → Int64 → LevelState Db → Call (List Transaction)
  unfolding collect
  get_transactions_by_address address limit s =
      listing (addr_prefix ++ host.to_bytes address ++ colon) limit s

  unfoldable pub get_recent_transactions : Int64 → LevelState Db → Call (List Transaction)
  unfolding collect
  get_recent_transactions limit s = listing idx_prefix limit s

  abbrev pub count_accounts : Db → ℕ
  count_accounts db = length (level.range acc_prefix db)

  abbrev pub count_transactions : Db → ℕ
  count_transactions db = length (level.range tx_prefix db)

pub record LevelStats : Type 0 where
  pub accounts : ℕ
  pub transactions : ℕ
  pub cache_size : ℕ

unfoldable pub level_stats : {Db : Type 0} → Database Db → LevelState Db → LevelStats
level_stats level s = record {
  accounts = length (level.range acc_prefix s.db);
  transactions = length (level.range tx_prefix s.db);
  cache_size = length s.cache;
}
