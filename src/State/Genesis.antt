-- ===== src/State/Genesis.antt =====
-- The genesis accounts: `InitGenesis` of x/nvx/keeper/state.go, and what app/app.go and
-- app/genesis.go give it.
use nuvex.Base.{
  ℕ, ◌+◌, ◌≡◌, ◌≢◌, refl, none, List, [], ◌∷◌, String, arith, string_key, ==_iff, ==_refl, true,
  false,
}
use nuvex.Dict.{lookup, contains, insert, lookup-insert}
use nuvex.State.Accounts.{Account, AccountMap, GenesisEntry, total_balance}
use nuvex.State.Balances.{total_balance-insert}
use nuvex.State.Keeper.{StateKeeper, Disk, add_entry, add_genesis, init_genesis, genesis_account}

-- Every entry's address has an account.
abbrev pub AllKnown : List GenesisEntry → AccountMap → Type 0
AllKnown [] m = Unit {0}
AllKnown (g ∷ entries) m = (contains g.address m ≡ true) × AllKnown entries m

contains-add_entry :
    (j : String) (g : GenesisEntry) (m : AccountMap)
    → contains j m ≡ true
    → contains j (add_entry g m) ≡ true
unfolding add_entry
contains-add_entry j g m h = ground (arith, lookup-insert g.address j (genesis_account g) m)

contains-add_entry_self :
    (g : GenesisEntry) (m : AccountMap) → contains g.address (add_entry g m) ≡ true
unfolding add_entry
contains-add_entry_self g m =
    ground (arith, lookup-insert g.address g.address (genesis_account g) m, ==_refl g.address)

contains-add_genesis :
    (j : String) (entries : List GenesisEntry) (m : AccountMap)
    → contains j m ≡ true
    → contains j (add_genesis entries m) ≡ true
unfolding add_genesis
contains-add_genesis j [] m h = h
contains-add_genesis j (g ∷ entries) m h =
    contains-add_genesis j entries (add_entry g m) (contains-add_entry j g m h)

AllKnown-add_genesis :
    (entries : List GenesisEntry) (m : AccountMap) → AllKnown entries (add_genesis entries m)
unfolding add_genesis
AllKnown-add_genesis [] m = tt
AllKnown-add_genesis (g ∷ entries) m = (
  contains-add_genesis g.address entries (add_entry g m) (contains-add_entry_self g m),
  AllKnown-add_genesis entries (add_entry g m),
)

add_genesis-known :
    (entries : List GenesisEntry) (m : AccountMap) → AllKnown entries m → add_genesis entries m ≡ m
unfolding add_genesis add_entry
add_genesis-known [] m h = refl
add_genesis-known (g ∷ entries) m h = rw (h.0) (add_genesis-known entries m h.1)

-- A second start with the same entries changes no account, and after the first every entry's
-- address has one.
pub init_genesis_idem :
    (disk : Disk) (entries : List GenesisEntry) (sk : StateKeeper)
    → let sk' = init_genesis disk entries sk in
      AllKnown entries sk'.accounts × ((init_genesis disk entries sk').accounts ≡ sk'.accounts)
unfolding init_genesis
init_genesis_idem disk entries sk =
    let known = AllKnown-add_genesis entries sk.accounts in
    (known, add_genesis-known entries _ known)

abbrev pub IsAbsent : String → List GenesisEntry → Type 0
IsAbsent k [] = Unit {0}
IsAbsent k (g ∷ entries) = (k ≢ g.address) × IsAbsent k entries

-- The entries' addresses differ, and none has an account.
abbrev pub AllNew : List GenesisEntry → AccountMap → Type 0
AllNew [] m = Unit {0}
AllNew (g ∷ entries) m = (lookup g.address m ≡ none) × IsAbsent g.address entries × AllNew entries m

abbrev pub total_amount : List GenesisEntry → ℕ
total_amount [] = 0
total_amount (g ∷ entries) = g.amount + total_amount entries

AllNew-insert :
    (k : String) (a : Account) (entries : List GenesisEntry) (m : AccountMap)
    → IsAbsent k entries
    → AllNew entries m
    → AllNew entries (insert k a m)
AllNew-insert k a [] m n h = tt
AllNew-insert k a (g ∷ entries) m n h =
    ground (
      arith,
      lookup-insert k g.address a m,
      ==_iff k g.address,
      AllNew-insert k a entries m n.1 h.2,
    )

-- Entries with new addresses raise the sum of the balances by the sum of their amounts.
pub total_balance-add_genesis :
    (entries : List GenesisEntry) (m : AccountMap)
    → AllNew entries m
    → total_balance (add_genesis entries m) ≡ total_balance m + total_amount entries
unfolding add_genesis add_entry
total_balance-add_genesis [] m h = omega arith
total_balance-add_genesis (g ∷ entries) m h =
    let rest =
      total_balance-add_genesis entries (insert g.address (genesis_account g) m)
        (AllNew-insert g.address _ entries m h.1 h.2) in
    let e : contains g.address m ≡ false = ground arith in
    rw e (omega (arith, rest, total_balance-insert g.address (genesis_account g) m h.0))
