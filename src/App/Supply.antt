-- ===== src/App/Supply.antt =====
-- What the genesis puts into circulation.
use nuvex.Base.{String, ℕ, ◌+◌, ◌<◌, ◌≡◌, none, List, arith, string_key, Option}
use nuvex.Dict.{lookup}
use nuvex.State.Accounts.{total_balance}
use nuvex.State.Keeper.{Disk, StateKeeper, init_genesis, get_balance, new_state_keeper}
use nuvex.State.Genesis.{AllNew, total_balance-add_genesis}
use nuvex.Types.{max_supply}
use nuvex.App.{app_genesis, starting_state, founders}

get_balance-none :
    (address : String) (sk : StateKeeper)
    → lookup address sk.accounts ≡ none
    → get_balance address sk ≡ 0
unfolding get_balance
get_balance-none address sk e = rw (e, get_balance)

-- A state in which no address of the genesis has an account starts with 525 million NVX more than it
-- had, which is above the maximal supply.
pub starting_state_exceeds :
    (disk : Disk) (file : Option (List ℕ))
    → AllNew app_genesis (new_state_keeper disk file).accounts
    → (total_balance (starting_state disk file).accounts
        ≡ total_balance (new_state_keeper disk file).accounts + 525_000_000_000_000)
      × (max_supply < total_balance (starting_state disk file).accounts)
unfolding starting_state app_genesis init_genesis
starting_state_exceeds disk file h =
    let state = new_state_keeper disk file in
    let poor = get_balance-none founders state h.2.2.2.0 in
    let total = total_balance-add_genesis app_genesis state.accounts h in
    rw (poor, starting_state) (omega (arith, total), omega (arith, total))
