-- ===== src/LevelDb/Locks.antt =====
-- What a call of `TransferLDB` does to the calls after it.
use nuvex.Base.{◌≡◌, refl, ap, Bool, true, false, List, [], ◌∷◌, String}
use nuvex.Base.Word.{Int64}
use nuvex.Host.{Host}
use nuvex.State.Accounts.{Transaction}
use nuvex.LevelDb.{
  Database, Codec, free, writing, Call, returned, blocked, LevelState, get_account, get_balance_ldb,
  get_transactions_by_address, get_recent_transactions,
}
use nuvex.LevelDb.Transfer.{transfer_ldb}

-- The calls that take the lock.
pub data LevelCall : Type 0 where
  account_wanted balance_wanted : String → LevelCall
  history_wanted : String → Int64 → LevelCall
  recent_wanted : Int64 → LevelCall
  transfer_wanted : String → String → Int64 → Int64 → Int64 → String → LevelCall

abbrev pub is_blocked : {A : Type 0} → Call A → Bool
is_blocked blocked = true
is_blocked (returned _) = false

module _ {Db : Type 0} (level : Database Db) (codec : Codec) (host : Host) where
  -- The state after a call, and whether it waits.
  unfoldable pub level_call : LevelCall → LevelState Db → LevelState Db × Bool
  level_call (account_wanted address) s =
      let (s', call) = get_account level codec host address s in (s', is_blocked call)
  level_call (balance_wanted address) s =
      let (s', call) = get_balance_ldb level codec host address s in (s', is_blocked call)
  level_call (history_wanted address limit) s =
      (s, is_blocked (get_transactions_by_address level codec host address limit s))
  level_call (recent_wanted limit) s =
      (s, is_blocked (get_recent_transactions level codec host limit s))
  level_call (transfer_wanted from to amount fee height now) s =
      let (s', call) = transfer_ldb level codec host from to amount fee height now s in
      (s', is_blocked call)

  -- Calls of different threads, one after the other, each with whether it waits.
  unfoldable pub level_calls : List LevelCall → LevelState Db → LevelState Db × List Bool
  level_calls [] s = (s, [])
  level_calls (c ∷ calls) s =
      let (s1, waits) = level_call c s in
      let (s2, rest) = level_calls calls s1 in (s2, waits ∷ rest)

abbrev pub AllWait : List Bool → Type 0
AllWait [] = Unit {0}
AllWait (w ∷ ws) = (w ≡ true) × AllWait ws

module _ {Db : Type 0} (level : Database Db) (codec : Codec) (host : Host) where
  address-writing :
      (address : String) (limit : Int64) (s : LevelState Db)
      → s.lock ≡ writing
      → get_transactions_by_address level codec host address limit s ≡ blocked
  unfolding get_transactions_by_address
  address-writing address limit s h = rw (h, get_transactions_by_address) refl

  recent-writing :
      (limit : Int64) (s : LevelState Db)
      → s.lock ≡ writing
      → get_recent_transactions level codec host limit s ≡ blocked
  unfolding get_recent_transactions
  recent-writing limit s h = rw (h, get_recent_transactions) refl

  level_call-writing :
      (c : LevelCall) (s : LevelState Db)
      → s.lock ≡ writing
      → level_call level codec host c s ≡ (s, true)
  unfolding level_call get_balance_ldb get_account get_transactions_by_address
      get_recent_transactions transfer_ldb
  level_call-writing (account_wanted address) s h = simp (h, level_call, get_account)
  level_call-writing (balance_wanted address) s h =
      simp (h, level_call, get_balance_ldb, get_account)
  level_call-writing (history_wanted address limit) s h =
      ap (λ (call : Call (List Transaction)). (s, is_blocked call))
        (address-writing address limit s h)
  level_call-writing (recent_wanted limit) s h =
      ap (λ (call : Call (List Transaction)). (s, is_blocked call)) (recent-writing limit s h)
  level_call-writing (transfer_wanted from to amount fee height now) s h =
      simp (h, level_call, transfer_ldb)

  level_calls-writing :
      (calls : List LevelCall) (s : LevelState Db)
      → s.lock ≡ writing
      → ((level_calls level codec host calls s).0 ≡ s)
        × AllWait (level_calls level codec host calls s).1
  unfolding level_calls
  level_calls-writing [] s h = (refl, tt)
  level_calls-writing (c ∷ calls) s h =
      let now = level_call-writing c s h in
      let later = level_calls-writing calls s h in rw now (later.0, (refl, later.1))

  -- With the lock free, a transfer waits for ever, whatever it is asked to pay, and so does every
  -- later call that takes the lock, in whatever order they come; the lock stays a writer's, and the
  -- database, the cache and the accounts stay as they were.
  pub transfer_ldb-blocked :
      (from to : String) (amount fee height : Int64) (now : String) (calls : List LevelCall)
      (s : LevelState Db)
      → s.lock ≡ free
      → (level_calls level codec host (transfer_wanted from to amount fee height now ∷ calls) s).0
          ≡ record s { lock = writing }
        × AllWait
            (level_calls level codec host
              (transfer_wanted from to amount fee height now ∷ calls)
              s).1
  unfolding level_calls level_call transfer_ldb get_account
  transfer_ldb-blocked from to amount fee height now calls s h =
      let later = level_calls-writing calls (record s { lock = writing }) refl in
      simp (h, level_calls, level_call, transfer_ldb, get_account) (later.0, (refl, later.1))
