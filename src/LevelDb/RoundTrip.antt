-- ===== src/LevelDb/RoundTrip.antt =====
-- What is written to the database is read back from it.
use nuvex.Base.{
  ℕ, ◌≡◌, ◌≢◌, refl, sym, ap, ◌∙◌, true, false, some, List, [], ◌∷◌, String, arith, inl, inr,
  ==_refl, Option-cases, Bool-cases, string_key, nat_key, ok,
}
use nuvex.Dict.{lookup}
use nuvex.Host.{Host}
use nuvex.State.Accounts.{Account, Transaction}
use nuvex.LevelDb.{
  Database, Codec, LevelState, returned, free, new_level_state, get_account, fetch_account,
  stored_account, set_account, write_account, account_key, tx_key, height_key, address_key, put,
  put_all, tx_writes, save_transaction, get_transaction,
}

-- The documented behaviour of `Put` and `Get`: a write that succeeds is read back, and changes no
-- other key.
abbrev pub IsDatabase : {Db : Type 0} → Database Db → Type 0
IsDatabase {Db} level =
    (key value : List ℕ) (db after : Db)
    → level.store key value db ≡ some after
    → (level.fetch key after ≡ some value)
      × ((other : List ℕ) → other ≢ key → level.fetch other after ≡ level.fetch other db)

-- The third byte of a key, which tells the prefixes apart.
abbrev third_byte : List ℕ → ℕ
third_byte (a ∷ b ∷ c ∷ bytes) = c
third_byte _ = 0

abbrev AllOther : List ℕ → List (List ℕ × List ℕ) → Type 0
AllOther key [] = Unit {0}
AllOther key ((k, v) ∷ writes) = (key ≢ k) × AllOther key writes

module _ {Db : Type 0} (level : Database Db) (codec : Codec) (host : Host)
    (lawful : IsDatabase level) where
  put-true :
      (key value : List ℕ) (s : LevelState Db)
      → (put level codec host key value s).1 ≡ true
      → level.store key value s.db ≡ some (put level codec host key value s).0.db
  unfolding put
  put-true key value s h = elim (Option-cases (level.store key value s.db)) [
    | inl e ↦ let failed : (put level codec host key value s).1 ≡ false = rw (e, put) refl in cc
    | inr (db, e) ↦ rw (e, put) refl
  ]

  put_all-true :
      (key value : List ℕ) (writes : List (List ℕ × List ℕ)) (s : LevelState Db)
      → (put_all level codec host ((key, value) ∷ writes) s).1 ≡ true
      → ((put level codec host key value s).1 ≡ true)
        × (put_all level codec host ((key, value) ∷ writes) s
            ≡ put_all level codec host writes (put level codec host key value s).0)
  unfolding put_all
  put_all-true key value writes s h = elim (Bool-cases (put level codec host key value s).1) [
    | inl e ↦ (e, rw (e, put_all) refl)
    | inr e ↦
        let failed : (put_all level codec host ((key, value) ∷ writes) s).1 ≡ false =
          rw (e, put_all) refl in
        cc
  ]

  put_all-other :
      (key : List ℕ) (writes : List (List ℕ × List ℕ)) (s : LevelState Db)
      → AllOther key writes
      → (put_all level codec host writes s).1 ≡ true
      → level.fetch key (put_all level codec host writes s).0.db ≡ level.fetch key s.db
  unfolding put_all
  put_all-other key [] s h e = refl
  put_all-other key ((k, v) ∷ writes) s h e =
      let (written, same) = put_all-true k v writes s e in
      let after = (put level codec host k v s).0 in
      let stored = lawful k v s.db after.db (put-true k v s written) in
      let done : (put_all level codec host writes after).1 ≡ true = sym (ap (λ p. p.1) same) ∙ e in
      ap (λ p. level.fetch key p.0.db) same
      ∙ put_all-other key writes after h.1 done
      ∙ stored.1 key h.0

  put_all-head :
      (key value : List ℕ) (writes : List (List ℕ × List ℕ)) (s : LevelState Db)
      → AllOther key writes
      → (put_all level codec host ((key, value) ∷ writes) s).1 ≡ true
      → level.fetch key (put_all level codec host ((key, value) ∷ writes) s).0.db ≡ some value
  put_all-head key value writes s h e =
      let (written, same) = put_all-true key value writes s e in
      let after = (put level codec host key value s).0 in
      let stored = lawful key value s.db after.db (put-true key value s written) in
      let done : (put_all level codec host writes after).1 ≡ true = sym (ap (λ p. p.1) same) ∙ e in
      ap (λ p. level.fetch key p.0.db) same ∙ put_all-other key writes after h done ∙ stored.0

  -- A key with another third byte is not among a transaction's index entries.
  index-other :
      (key : List ℕ) (tx : Transaction)
      → third_byte key ≢ 105
      → third_byte key ≢ 97
      → AllOther key (
          (height_key level codec host tx, host.to_bytes tx.hash)
          ∷ (address_key level codec host tx.from tx, host.to_bytes tx.hash)
          ∷ (address_key level codec host tx.to tx, host.to_bytes tx.hash)
          ∷ [])
  unfolding height_key address_key
  index-other key tx h k =
      ((λ e. h (ap third_byte e)), ((λ e. k (ap third_byte e)), ((λ e. k (ap third_byte e)), tt)))

  saved-writes :
      (tx : Transaction) (s : LevelState Db)
      → (save_transaction level codec host tx s).1 ≡ true
      → (bytes : List ℕ) × (codec.marshal_tx tx ≡ some bytes)
        × (save_transaction level codec host tx s
            ≡ put_all level codec host (tx_writes level codec host bytes tx) s)
  unfolding save_transaction
  saved-writes tx s h = elim (Option-cases (codec.marshal_tx tx)) [
    | inl e ↦
        let failed : (save_transaction level codec host tx s).1 ≡ false =
          rw (e, save_transaction) refl in
        cc
    | inr (bytes, e) ↦ (bytes, e, rw (e, save_transaction) refl)
  ]

  saved-fetch :
      (tx : Transaction) (s : LevelState Db)
      → (save_transaction level codec host tx s).1 ≡ true
      → level.fetch (tx_key level codec host tx.hash) (save_transaction level codec host tx s).0.db
        ≡ codec.marshal_tx tx
  unfolding tx_writes tx_key
  saved-fetch tx s h =
      let (bytes, marshalled, same) = saved-writes tx s h in
      let others =
        index-other (tx_key level codec host tx.hash) tx (λ e. omega (arith, e))
          (λ e. omega (arith, e)) in
      ap (λ p. level.fetch (tx_key level codec host tx.hash) p.0.db) same
      ∙ put_all-head (tx_key level codec host tx.hash) bytes _ s others
          (sym (ap (λ p. p.1) same) ∙ h)
      ∙ sym marshalled

  saved-account :
      (address : String) (tx : Transaction) (s : LevelState Db)
      → (save_transaction level codec host tx s).1 ≡ true
      → level.fetch
          (account_key level codec host address)
          (save_transaction level codec host tx s).0.db
        ≡ level.fetch (account_key level codec host address) s.db
  unfolding tx_writes tx_key account_key
  saved-account address tx s h =
      let key = account_key level codec host address in
      let (bytes, marshalled, same) = saved-writes tx s h in
      let others = index-other key tx (λ e. omega (arith, e)) (λ e. omega (arith, e)) in
      ap (λ p. level.fetch key p.0.db) same
      ∙ put_all-other key (tx_writes level codec host bytes tx) s
          ((λ e. omega (arith, ap third_byte e)), others) (sym (ap (λ p. p.1) same) ∙ h)

  -- A write of an account with no error stored what JSON makes of it.
  written-account :
      (cell : ℕ) (acc : Account) (s : LevelState Db)
      → (write_account level codec host cell acc s).1 ≡ true
      → (bytes : List ℕ) × (codec.marshal_account acc ≡ some bytes)
        × (level.store (account_key level codec host acc.address) bytes s.db
            ≡ some (write_account level codec host cell acc s).0.db)
  unfolding write_account
  written-account cell acc s h = elim (Option-cases (codec.marshal_account acc)) [
    | inl e ↦
        let failed : (write_account level codec host cell acc s).1 ≡ false =
          rw (e, write_account) refl in
        cc
    | inr (bytes, e) ↦
        elim (Option-cases (level.store (account_key level codec host acc.address) bytes s.db)) [
          | inl e' ↦
              let failed : (write_account level codec host cell acc s).1 ≡ false =
                rw (e, write_account, e') refl in
              cc
          | inr (db, e') ↦ (bytes, e, rw (e, write_account, e') refl)
        ]
  ]

  stored-written :
      (cell : ℕ) (acc : Account) (s : LevelState Db)
      → ((bytes : List ℕ)
          → codec.marshal_account acc ≡ some bytes
          → codec.unmarshal_account bytes ≡ some acc)
      → (write_account level codec host cell acc s).1 ≡ true
      → stored_account level codec host acc.address (write_account level codec host cell acc s).0.db
        ≡ some acc
  unfolding stored_account
  stored-written cell acc s trip h =
      let (bytes, marshalled, stored) = written-account cell acc s h in
      let found =
        lawful (account_key level codec host acc.address) bytes s.db
          (write_account level codec host cell acc s).0.db stored in
      rw (found.0, stored_account, trip bytes marshalled) refl

-- A transaction that was saved with no error is found under its hash, as it was saved, and saving it
-- changed no account of the database, when the database keeps what is written and JSON reads back the
-- transaction.
pub save_transaction-get_transaction :
    {Db : Type 0} (level : Database Db) (codec : Codec) (host : Host) (tx : Transaction)
    (address : String) (s : LevelState Db)
    → IsDatabase level
    → ((bytes : List ℕ) → codec.marshal_tx tx ≡ some bytes → codec.unmarshal_tx bytes ≡ some tx)
    → (save_transaction level codec host tx s).1 ≡ true
    → (get_transaction level codec host tx.hash (save_transaction level codec host tx s).0.db
        ≡ ok tx)
      × (stored_account level codec host address (save_transaction level codec host tx s).0.db
          ≡ stored_account level codec host address s.db)
unfolding get_transaction stored_account
save_transaction-get_transaction level codec host tx address s lawful trip h =
    let (bytes, marshalled, same) = saved-writes level codec host lawful tx s h in
    let found = saved-fetch level codec host lawful tx s h ∙ marshalled in
    (
      rw (found, get_transaction, trip bytes marshalled) refl,
      rw (saved-account level codec host lawful address tx s h, stored_account) refl,
    )

set-write :
    {Db : Type 0} (level : Database Db) (codec : Codec) (host : Host) (cell : ℕ) (acc : Account)
    (s : LevelState Db)
    → lookup cell s.heap ≡ some acc
    → set_account level codec host cell s ≡ write_account level codec host cell acc s
unfolding set_account
set-write level codec host cell acc s e = rw (e, set_account) refl

-- The state after a first look at the account.
abbrev looked_up : {Db : Type 0} → String → Account → Db → LevelState Db
looked_up address acc db = record {
  lock = free;
  db = db;
  cache = (address, 0) ∷ [];
  heap = (0, acc) ∷ [];
}

first-look :
    {Db : Type 0} (level : Database Db) (codec : Codec) (host : Host) (address : String)
    (acc : Account) (db : Db)
    → stored_account level codec host address db ≡ some acc
    → get_account level codec host address (new_level_state db)
      ≡ (looked_up address acc db, returned (some 0))
unfolding get_account fetch_account new_level_state
first-look level codec host address acc db e = rw (e, get_account, fetch_account) refl

second-look :
    {Db : Type 0} (level : Database Db) (codec : Codec) (host : Host) (address : String)
    (acc : Account) (db : Db)
    → get_account level codec host address (looked_up address acc db)
      ≡ (looked_up address acc db, returned (some 0))
unfolding get_account
second-look level codec host address acc db = rw (==_refl address, get_account) refl

-- An account that was set with no error is what a node finds that starts afresh on the database, with
-- nothing in its cache: it gets one cell that holds the account, and a second look finds that same
-- cell and changes nothing. The database keeps what is written and JSON reads back the account.
pub set_account-get_account :
    {Db : Type 0} (level : Database Db) (codec : Codec) (host : Host) (cell : ℕ) (acc : Account)
    (s : LevelState Db)
    → IsDatabase level
    → ((bytes : List ℕ)
        → codec.marshal_account acc ≡ some bytes
        → codec.unmarshal_account bytes ≡ some acc)
    → lookup cell s.heap ≡ some acc
    → (set_account level codec host cell s).1 ≡ true
    → let db = (set_account level codec host cell s).0.db in
      let read = get_account level codec host acc.address (new_level_state db) in
      (read.1 ≡ returned (some 0))
      × (lookup 0 read.0.heap ≡ some acc)
      × (get_account level codec host acc.address read.0 ≡ read)
set_account-get_account level codec host cell acc s lawful trip e h =
    let db = (set_account level codec host cell s).0.db in
    let write = set-write level codec host cell acc s e in
    let done : (write_account level codec host cell acc s).1 ≡ true =
      sym (ap (λ p. p.1) write) ∙ h in
    let stored : stored_account level codec host acc.address db ≡ some acc =
      ap (λ p. stored_account level codec host acc.address p.0.db) write
      ∙ stored-written level codec host lawful cell acc s trip done in
    let read = first-look level codec host acc.address acc db stored in
    rw read (refl, refl, second-look level codec host acc.address acc db)
