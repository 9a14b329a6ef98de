-- ===== src/App/Tests.antt =====
-- The genesis of a node that starts from no file.
use nuvex.Base.{◌+◌, ◌<◌, ◌≡◌, ◌≢◌, refl, none, arith, string_key, ==_iff, ◌==◌, false, String}
use nuvex.State.Accounts.{total_balance}
use nuvex.State.Keeper.{new_state_keeper}
use nuvex.State.Genesis.{AllNew}
use nuvex.State.Samples.{sample_disk}
use nuvex.Types.{max_supply}
use nuvex.App.{app_genesis, starting_state, genesis_accounts, printed_total}
use nuvex.App.Supply.{starting_state_exceeds}

printed_run : printed_total 0 genesis_accounts ≡ 500_000_000_000_000
unfolding printed_total genesis_accounts
printed_run = refl

differ : {a b : String} → (a == b) ≡ false → a ≢ b
differ {a} {b} e = ground (arith, ==_iff a b)

empty-AllNew : AllNew app_genesis (new_state_keeper sample_disk none).accounts
unfolding app_genesis new_state_keeper
empty-AllNew = (
  refl,
  (differ refl, (differ refl, (differ refl, (differ refl, tt)))),
  (
    refl,
    (differ refl, (differ refl, (differ refl, tt))),
    (refl, (differ refl, (differ refl, tt)), (refl, (differ refl, tt), (refl, tt, tt))),
  ),
)

starting_state_exceeds_example :
    (total_balance (starting_state sample_disk none).accounts
      ≡ total_balance (new_state_keeper sample_disk none).accounts + 525_000_000_000_000)
    × (max_supply < total_balance (starting_state sample_disk none).accounts)
starting_state_exceeds_example = starting_state_exceeds sample_disk none empty-AllNew
