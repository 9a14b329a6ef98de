-- ===== src/LevelDb/Tests.antt =====
-- A database that is a function, and JSON that knows one account and one transaction.
use nuvex.Base.{
  ℕ, ◌≡◌, refl, sym, ◌∙◌, ap, Bool, true, false, Option, none, some, List, [], ◌∷◌, arith,
  if◌then◌else◌, ◌&&◌, nat_eq, nat_eq_iff, inl, inr, Bool-cases, string_key, nat_key, ok,
}
use nuvex.Dict.{lookup}
use nuvex.State.Samples.{sample_host, account, payment, alice, bob}
use nuvex.LevelDb.{
  Database, Codec, LevelState, free, writing, returned, new_level_state, get_account, set_account,
  save_transaction, get_transaction, stored_account, put_all,
}
use nuvex.LevelDb.Locks.{
  LevelCall, account_wanted, balance_wanted, history_wanted, recent_wanted, transfer_wanted,
  level_calls, AllWait, transfer_ldb-blocked,
}
use nuvex.LevelDb.RoundTrip.{IsDatabase, save_transaction-get_transaction, set_account-get_account}

abbrev same_bytes : List ℕ → List ℕ → Bool
same_bytes [] [] = true
same_bytes (a ∷ as') (b ∷ bs) = nat_eq a b && same_bytes as' bs
same_bytes _ _ = false

same_bytes_refl : (key : List ℕ) → same_bytes key key ≡ true
same_bytes_refl [] = refl
same_bytes_refl (a ∷ key) = ground (arith, nat_eq_iff a a, same_bytes_refl key)

same_bytes-true : (j k : List ℕ) → same_bytes j k ≡ true → j ≡ k
same_bytes-true [] [] h = refl
same_bytes-true [] (b ∷ k) h = cc
same_bytes-true (a ∷ j) [] h = cc
same_bytes-true (a ∷ j) (b ∷ k) h = ground (arith, nat_eq_iff a b, same_bytes-true j k)

abbrev Store : Type 0
Store = List ℕ → Option (List ℕ)

abbrev level : Database Store
level = record {
  fetch = λ key db. db key;
  store = λ key value db. some (λ j. if same_bytes j key then some value else db j);
  range = λ prefix db. [];
}

abbrev empty : Store
empty key = none

-- The database after a write.
abbrev written : List ℕ → List ℕ → Store → Store
written key value db j = if same_bytes j key then some value else db j

after-written :
    (key value : List ℕ) (db after : Store)
    → level.store key value db ≡ some after
    → written key value db ≡ after
after-written key value db after h =
    ap (λ (o : Option Store). elim o [ none ↦ db | some found ↦ found ]) h

level-IsDatabase : IsDatabase level
level-IsDatabase key value db after h =
    let here : after key ≡ written key value db key =
      sym (ap (λ (d : Store). d key) (after-written key value db after h)) in
    (
      here ∙ rw (same_bytes_refl key) refl,
      λ other ne.
          let there : after other ≡ written key value db other =
            sym (ap (λ (d : Store). d other) (after-written key value db after h)) in
          there ∙ elim (Bool-cases (same_bytes other key)) [
            | inl e ↦ absurd (ne (same_bytes-true other key e))
            | inr e ↦ rw e refl
          ],
    )

abbrev codec : Codec
codec = record {
  marshal_account = λ acc. some (1 ∷ []);
  unmarshal_account = λ bytes. some (account alice 5_000);
  marshal_tx = λ tx. some (2 ∷ []);
  unmarshal_tx = λ bytes. some payment;
  pad_height = λ height. 48 ∷ [];
  to_text = λ bytes. "0x1";
}

abbrev state : LevelState Store
state = record {
  lock = free;
  db = empty;
  cache = (alice, 0) ∷ [];
  heap = (0, account alice 5_000) ∷ [];
}

abbrev later : List LevelCall
later =
    account_wanted alice
    ∷ balance_wanted bob
    ∷ recent_wanted 20
    ∷ transfer_wanted bob alice 1 1 9 "later"
    ∷ history_wanted bob 5
    ∷ []

transfer_ldb-blocked_example :
    ((level_calls level codec sample_host
        (transfer_wanted alice bob 100 10 7 "now" ∷ later)
        state).0
      ≡ record state { lock = writing })
    × AllWait
        (level_calls level codec sample_host
          (transfer_wanted alice bob 100 10 7 "now" ∷ later)
          state).1
transfer_ldb-blocked_example =
    transfer_ldb-blocked level codec sample_host alice bob 100 10 7 "now" later state refl

save_transaction-get_transaction_example :
    (get_transaction level codec sample_host "0x1"
        (save_transaction level codec sample_host payment state).0.db
      ≡ ok payment)
    × (stored_account level codec sample_host bob
          (save_transaction level codec sample_host payment state).0.db
        ≡ stored_account level codec sample_host bob empty)
unfolding save_transaction put_all
save_transaction-get_transaction_example =
    save_transaction-get_transaction level codec sample_host payment bob state level-IsDatabase
      (λ bytes e. refl) refl

set_account-get_account_example :
    let db = (set_account level codec sample_host 0 state).0.db in
    let read = get_account level codec sample_host alice (new_level_state db) in
    (read.1 ≡ returned (some 0))
    × (lookup 0 read.0.heap ≡ some (account alice 5_000))
    × (get_account level codec sample_host alice read.0 ≡ read)
unfolding set_account
set_account-get_account_example =
    set_account-get_account level codec sample_host 0 (account alice 5_000) state level-IsDatabase
      (λ bytes e. refl) refl refl
