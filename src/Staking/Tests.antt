-- ===== src/Staking/Tests.antt =====
-- The theorem on staking at a keeper with one position.
use nuvex.Base.{ℕ, ◌≡◌, refl, true, false, none, [], ◌∷◌, ok, err, string_key}
use nuvex.Base.Word.{◌+64◌}
use nuvex.Base.Float.{Float}
use nuvex.State.Accounts.{credit}
use nuvex.State.Samples.{sample_host, account, alice}
use nuvex.Staking.{
  StakePosition, StakingKeeper, StakingError, stake, unstake, find_position, check_position,
  pay_out, settle, calculate_rewards, earned,
}
use nuvex.State.Keeper.{get_balance}
use nuvex.Staking.Payout.{unstake_once}

-- Every position earns 7.
abbrev floats : Float
floats = record {
  F = ℕ;
  of_uint = λ n. n;
  floor = λ x. 7;
  hours = λ n. n;
  literal = λ n d. n;
  add = λ x y. x;
  sub = λ x y. x;
  min = λ x y. x;
  abs = λ x. x;
  sqrt = λ x. x;
  mul = λ x y. x;
  div = λ x y. x;
  le = λ x y. true;
  lt = λ x y. true;
}

abbrev position : StakePosition
position = record {
  id = "p";
  owner = alice;
  amount = 200_000_000;
  start_time = 0;
  last_reward = 0;
  total_rewards = 0;
  is_green = true;
  is_active = true;
}

abbrev staking : StakingKeeper
staking = record {
  positions = ("p", position) ∷ [];
  state = record { accounts = (alice, account alice 500_000_000) ∷ []; txs = []; file = none };
}

abbrev paid : StakePosition
paid = record position { total_rewards = 7; last_reward = 9; is_active = false }

paid_run : (unstake floats alice "p" 9 staking).1 ≡ ok paid
unfolding unstake find_position check_position pay_out settle calculate_rewards earned
paid_run = refl

stake_run :
    (stake sample_host alice 600_000_000 true 1 1 staking).1 ≡ err StakingError.not_enough_funds
unfolding stake get_balance
stake_run = refl

unstake_once_example :
    let sk' = (unstake floats alice "p" 9 staking).0 in
    (sk'.state.accounts ≡ credit alice (paid.amount +64 paid.total_rewards) staking.state.accounts)
    × ((e : StakingError) × (unstake floats "mallory" "p" 10 sk' ≡ (sk', err e)))
unstake_once_example = unstake_once floats alice "p" "mallory" 9 10 paid staking paid_run
