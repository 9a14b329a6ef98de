-- ===== src/Staking.antt =====
-- x/nvx/keeper/staking.go: positions, their rewards, and what is paid back. A time is a count of
-- nanoseconds; a later reading of the clock is not below an earlier one.
pub mod Payout
mod Tests
use Prim.Native.String.{◌++◌, slice}
use nuvex.Base.{
  ℕ, ◌+◌, ◌-◌, Bool, true, false, not, none, some, List, [], ◌∷◌, String, len, ltb, if◌then◌else◌,
  string_key, ◌==◌, Outcome, ok, err, panic, keep,
}
use nuvex.Base.Word.{Int64, Uint64, ◌+64◌}
use nuvex.Base.Float.{Float}
use nuvex.Dict.{Dict, lookup, insert, contains, values}
use nuvex.Host.{Host}
use nuvex.State.Accounts.{AccountMap, credit, debit}
use nuvex.State.Keeper.{StateKeeper, get_balance}

-- 100 NVX
abbrev pub min_stake : Uint64
min_stake = 100_000_000

pub record StakePosition : Type 0 where
  pub id : String
  pub owner : String
  pub amount : Uint64
  pub start_time : ℕ
  pub last_reward : ℕ
  pub total_rewards : Uint64
  pub is_green : Bool
  pub is_active : Bool

pub record StakingKeeper : Type 0 where
  pub positions : Dict String StakePosition
  pub state : StateKeeper

pub data StakingError : Type 0 where
  stake_too_low not_enough_funds unknown_position not_owner inactive : StakingError

unfoldable pub new_staking_keeper : StateKeeper → StakingKeeper
new_staking_keeper state = record { positions = []; state = state }

abbrev pub write_accounts : AccountMap → StakingKeeper → StakingKeeper
write_accounts accounts sk = record sk { state = record sk.state { accounts = accounts } }

-- The position's name holds the first 10 bytes of the owner: on a shorter one the call panics when
-- the funds are gone.
unfoldable pub stake :
    Host
    → String
    → Uint64
    → Bool
    → Int64
    → ℕ
    → StakingKeeper
    → StakingKeeper × Outcome StakingError StakePosition
stake host owner amount is_green nanos now sk =
    if ltb amount min_stake
    then (sk, err stake_too_low)
    else if ltb (get_balance owner sk.state) amount
    then (sk, err not_enough_funds)
    else if not (contains owner sk.state.accounts)
    then (sk, panic)
    else let paid = write_accounts (debit owner amount sk.state.accounts) sk in
      let id = slice owner 0 10 ++ "_" ++ host.fmt_int nanos in
      let position : StakePosition = record {
        id = id;
        owner = owner;
        amount = amount;
        start_time = now;
        last_reward = now;
        total_rewards = 0;
        is_green = is_green;
        is_active = true;
      } in
      if ltb (len owner) 10
      then (paid, panic)
      else (record paid { positions = insert id position sk.positions }, ok position)

abbrev pub put_back : String → StakePosition → StakingKeeper → StakingKeeper
put_back id pos sk = record sk { positions = insert id pos sk.positions }

abbrev pub close : StakePosition → StakePosition
close pos = record pos { is_active = false }

-- The stake and its rewards go back to the owner, and the position is closed.
unfoldable pub settle :
    String
    → String
    → StakePosition
    → StakingKeeper
    → StakingKeeper × Outcome StakingError StakePosition
settle owner id pos sk =
    if not (contains owner sk.state.accounts) then (put_back id pos sk, panic) else (
      write_accounts (credit owner (pos.amount +64 pos.total_rewards) sk.state.accounts)
          (put_back id (close pos) sk),
      (if ltb (len owner) 10 then panic else ok (close pos)),
    )

unfoldable pub check_position : String → StakePosition → Outcome StakingError StakePosition
check_position owner pos =
    if not (pos.owner == owner)
    then err not_owner
    else if not pos.is_active
    then err inactive
    else ok pos

unfoldable pub find_position : String → String → StakingKeeper → Outcome StakingError StakePosition
find_position owner id sk = elim (lookup id sk.positions) [
  | none ↦ err unknown_position
  | some pos ↦ check_position owner pos
]

module _ (fl : Float) where
  apy : Bool → fl.F
  apy is_green =
      if is_green then fl.add (fl.literal 10 100) (fl.literal 5 1_000) else fl.literal 10 100

  -- What a position has earned since its last reward.
  unfoldable pub earned : ℕ → StakePosition → Uint64
  unfolding apy
  earned now pos = fl.floor (
      fl.mul (fl.mul (fl.of_uint pos.amount) (fl.div (apy pos.is_green) (fl.literal 365 1)))
        (fl.div (fl.hours (now - pos.last_reward)) (fl.literal 24 1)))

  -- The log line of a reward quotes the first 10 bytes of the owner.
  unfoldable pub calculate_rewards : ℕ → StakePosition → StakePosition × Outcome ⊥ Uint64
  calculate_rewards now pos =
      let reward = earned now pos in
      if ltb 0 reward
      then (
        record pos { total_rewards = pos.total_rewards +64 reward; last_reward = now },
        (if ltb (len pos.owner) 10 then panic else ok reward),
      )
      else (pos, ok reward)

  -- What `Unstake` does after its checks: the position is put back as it is at the end.
  unfoldable pub pay_out :
      String
      → String
      → ℕ
      → StakePosition
      → StakingKeeper
      → StakingKeeper × Outcome StakingError StakePosition
  pay_out owner id now pos sk =
      let (rewarded, outcome) = calculate_rewards now pos in
      elim outcome [
        | err e ↦ absurd e
        | panic ↦ (put_back id rewarded sk, panic)
        | ok _ ↦ settle owner id rewarded sk
      ]

  unfoldable pub unstake :
      String → String → ℕ → StakingKeeper → StakingKeeper × Outcome StakingError StakePosition
  unstake owner id now sk = elim (find_position owner id sk) [
    | err e ↦ (sk, err e)
    | panic ↦ (sk, panic)
    | ok pos ↦ pay_out owner id now pos sk
  ]

  -- One tick of `rewardLoop`: a panic leaves the rest as it is.
  unfoldable pub reward_all :
      ℕ → Uint64 → Dict String StakePosition → Dict String StakePosition × Outcome ⊥ Uint64
  reward_all now total [] = ([], ok total)
  reward_all now total ((id, pos) ∷ rest) =
      let (rewarded, outcome) = calculate_rewards now pos in
      let skipped = reward_all now total rest in
      let after = λ (reward : Uint64). reward_all now (total +64 reward) rest in
      if pos.is_active
      then elim outcome [
        | err e ↦ absurd e
        | panic ↦ ((id, rewarded) ∷ rest, panic)
        | ok reward ↦ ((id, rewarded) ∷ (after reward).0, (after reward).1)
      ]
      else ((id, pos) ∷ skipped.0, skipped.1)

  unfoldable pub pending_rewards : String → ℕ → StakingKeeper → Uint64
  pending_rewards id now sk = elim (lookup id sk.positions) [
    | none ↦ 0
    | some pos ↦ if pos.is_active then earned now pos else 0
  ]

unfoldable pub get_position : String → StakingKeeper → Outcome StakingError StakePosition
get_position id sk = elim (lookup id sk.positions) [
  | none ↦ err unknown_position
  | some pos ↦ ok pos
]

unfoldable pub get_positions_by_owner : String → StakingKeeper → List StakePosition
get_positions_by_owner owner sk = keep (λ pos. pos.owner == owner) (values sk.positions)

-- The counters of `GetStats`.
pub record StakingStats : Type 0 where
  pub total_staked : Uint64
  pub total_stakers : ℕ
  pub total_rewards_paid : Uint64

unfoldable pub count_positions : StakingStats → List StakePosition → StakingStats
count_positions stats [] = stats
count_positions stats (pos ∷ rest) =
    let paid = stats.total_rewards_paid +64 pos.total_rewards in
    count_positions
      (if pos.is_active
        then record {
          total_staked = stats.total_staked +64 pos.amount;
          total_stakers = stats.total_stakers + 1;
          total_rewards_paid = paid;
        }
        else record stats { total_rewards_paid = paid })
      rest

unfoldable pub get_stats : StakingKeeper → StakingStats
get_stats sk =
    count_positions (record { total_staked = 0; total_stakers = 0; total_rewards_paid = 0 })
      (values sk.positions)
