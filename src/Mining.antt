-- ===== src/Mining.antt =====
-- x/nvx/keeper/mining.go: block rewards and their halving.
pub mod Cap
pub mod Schedule
pub mod Events
mod Tests
use nuvex.Base.{
  ℕ, zero, suc, ◌+◌, List, [], ◌∷◌, String, len, ltb, if◌then◌else◌, Outcome, ok, err, panic,
  nat_eq,
}
use nuvex.Base.Word.{Int64, ◌+64◌, ◌-64◌, ◌*64◌, ◌<64◌, ◌≤64◌, div64}

abbrev pub initial_block_reward : Int64
initial_block_reward = 50_000_000

abbrev pub blocks_per_halving : Int64
blocks_per_halving = 78_840_000

abbrev pub genesis_year : ℕ
genesis_year = 2025

abbrev pub max_halvings : Int64
max_halvings = 10

pub record HalvingState : Type 0 where
  pub current_epoch : Int64
  pub current_reward : Int64
  pub next_halving_block : Int64
  pub total_mined : Int64
  pub max_mineable : Int64

unfoldable pub new_mining_keeper : HalvingState
new_mining_keeper = record {
  current_epoch = 0;
  current_reward = initial_block_reward;
  next_halving_block = blocks_per_halving;
  total_mined = 0;
  max_mineable = 100_000_000_000_000;
}

-- One call halves at most once.
unfoldable pub check_halving : Int64 → HalvingState → HalvingState
check_halving height s =
    if height <64 s.next_halving_block
    then s
    else if max_halvings ≤64 s.current_epoch
    then s
    else record s {
      current_reward = div64 s.current_reward 2;
      current_epoch = s.current_epoch +64 1;
      next_halving_block = s.next_halving_block +64 blocks_per_halving;
    }

-- The reward in a state where the halving has been checked.
unfoldable pub capped_reward : HalvingState → Int64
capped_reward s =
    if s.max_mineable ≤64 s.total_mined
    then 0
    else let remaining = s.max_mineable -64 s.total_mined in
      if remaining <64 s.current_reward then remaining else s.current_reward

unfoldable pub get_block_reward : Int64 → HalvingState → HalvingState × Int64
get_block_reward height s = let s' = check_halving height s in (s', capped_reward s')

-- `ProcessBlockReward` never returns an error; it prints the first 16 bytes of the address.
unfoldable pub process_block_reward : Int64 → String → HalvingState → HalvingState × Outcome ⊥ Int64
process_block_reward height validator_address s =
    let (s', reward) = get_block_reward height s in
    if nat_eq reward 0 then (s', ok 0) else (
      record s' { total_mined = s'.total_mined +64 reward },
      (if ltb (len validator_address) 16 then panic else ok reward),
    )

-- What the statistics report in whole numbers; asking for them checks the halving too.
pub record MiningStats : Type 0 where
  pub current_epoch : Int64
  pub current_reward : Int64
  pub next_halving_block : Int64
  pub next_halving_year : ℕ
  pub total_mined : Int64
  pub max_mineable : Int64

unfoldable pub get_stats : Int64 → HalvingState → HalvingState × MiningStats
get_stats height s =
    let s' = check_halving height s in
    (
      s',
      record {
        current_epoch = s'.current_epoch;
        current_reward = s'.current_reward;
        next_halving_block = s'.next_halving_block;
        next_halving_year = genesis_year +64 (s'.current_epoch +64 1) *64 5;
        total_mined = s'.total_mined;
        max_mineable = s'.max_mineable;
      },
    )

-- The states after blocks of the given heights and validators.
unfoldable pub mine : List (Int64 × String) → HalvingState → HalvingState
mine [] s = s
mine ((height, validator) ∷ blocks) s = mine blocks (process_block_reward height validator s).0
