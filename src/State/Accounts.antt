-- ===== src/State/Accounts.antt =====
-- x/nvx/keeper/state.go: the data of the state, and the writes to an account that the keepers make.
use nuvex.Base.{ℕ, ◌+◌, String, [], ◌∷◌, if◌then◌else◌, string_key}
use nuvex.Base.Word.{Int64, Uint64, ◌+64◌, ◌-64◌}
use nuvex.Dict.{Dict, insert, adjust, contains}

pub record Account : Type 0 where
  pub address : String
  pub balance : Int64
  pub nonce : Uint64
  pub public_key : String

pub record Transaction : Type 0 where
  pub hash : String
  pub from : String
  pub to : String
  pub amount : Int64
  pub fee : Int64
  pub nonce : Uint64
  pub height : Int64
  pub timestamp : String
  pub status : String
  pub signature : String

pub record GenesisEntry : Type 0 where
  pub address : String
  pub amount : Int64
  pub public_key : String

abbrev pub AccountMap : Type 0
AccountMap = Dict String Account

-- `sk.accounts[to]` is made with a balance of 0 where it is missing.
unfoldable pub ensure_account : String → AccountMap → AccountMap
ensure_account to accounts =
    if contains to accounts
    then accounts
    else insert to (record { address = to; balance = 0; nonce = 0; public_key = "" }) accounts

-- `Balance += amount`
unfoldable pub credit : String → Int64 → AccountMap → AccountMap
credit k amount = adjust k (λ (a : Account). record a { balance = a.balance +64 amount })

-- `Balance -= amount`
unfoldable pub debit : String → Int64 → AccountMap → AccountMap
debit k amount = adjust k (λ (a : Account). record a { balance = a.balance -64 amount })

-- `Nonce++`
unfoldable pub bump_nonce : String → AccountMap → AccountMap
bump_nonce k = adjust k (λ (a : Account). record a { nonce = a.nonce +64 1 })

-- The sum of the balances, each read as its bit pattern: while it is below 2^63, no balance is
-- negative and this is the sum of the balances themselves.
abbrev pub total_balance : AccountMap → ℕ
total_balance [] = 0
total_balance ((k, a) ∷ accounts) = a.balance + total_balance accounts
