-- ===== src/Mining/Tests.antt =====
-- Block rewards at concrete heights.
use nuvex.Base.{◌≡◌, ◌≤◌, refl, [], ◌∷◌, String, arith, ok}
use nuvex.Mining.{
  new_mining_keeper, mine, get_block_reward, process_block_reward, check_halving, capped_reward,
}
use nuvex.Mining.Cap.{mine_cap, epoch_reward}
use nuvex.Mining.Schedule.{mine_up_to, mine_up_to-epoch}

abbrev validator : String
validator = "nuvex19d85718c8da8f4213e1a2a41fe894ba928b9c9"

first_reward : (process_block_reward 1 validator new_mining_keeper).1 ≡ ok 50_000_000
unfolding process_block_reward get_block_reward check_halving capped_reward new_mining_keeper
first_reward = refl

mine_cap_example :
    let s = mine ((1, validator) ∷ (78_840_000, validator) ∷ []) new_mining_keeper in
    (s.total_mined ≤ 100_000_000_000_000)
    × (s.current_epoch ≤ 10)
    × (s.current_reward ≡ epoch_reward s.current_epoch)
mine_cap_example = mine_cap ((1, validator) ∷ (78_840_000, validator) ∷ [])

mine_up_to-epoch_example : (mine_up_to 2 validator).current_epoch ≡ 0
mine_up_to-epoch_example = mine_up_to-epoch 2 validator (omega arith)
