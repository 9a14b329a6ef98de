-- ===== src/Mining/Schedule.antt =====
-- Which epoch a block's reward belongs to.
use nuvex.Base.{ℕ, ◌/◌, ◌<◌, ◌≤◌, ◌≡◌, zero, suc, refl, String, arith}
use Prim.Native.Nat.{min}
use nuvex.Base.Word.{half_word}
use nuvex.Mining.{
  HalvingState, new_mining_keeper, check_halving, capped_reward, get_block_reward,
  process_block_reward, blocks_per_halving, max_halvings,
}
use nuvex.Mining.Cap.{IsValid, process_block_reward-IsValid, new_mining_keeper-IsValid}

-- The states of a node that sees every height, from 1 on, with one validator.
unfoldable pub mine_up_to : ℕ → String → HalvingState
mine_up_to zero validator = new_mining_keeper
mine_up_to (suc height) validator =
    (process_block_reward (suc height) validator (mine_up_to height validator)).0

mine_up_to-IsValid : (height : ℕ) (validator : String) → IsValid (mine_up_to height validator)
unfolding mine_up_to
mine_up_to-IsValid zero validator = new_mining_keeper-IsValid
mine_up_to-IsValid (suc height) validator =
    process_block_reward-IsValid (suc height) validator _ (mine_up_to-IsValid height validator)

-- One block further, the epoch is still the one that the height calls for.
epoch_step :
    (height : ℕ) (validator : String) (s : HalvingState)
    → IsValid s
    → suc height < half_word
    → s.current_epoch ≡ min max_halvings (height / blocks_per_halving)
    → (process_block_reward (suc height) validator s).0.current_epoch
      ≡ min max_halvings (suc height / blocks_per_halving)
unfolding process_block_reward get_block_reward check_halving
epoch_step height validator s v b e = ground arith

-- A node that sees every block is in the epoch of its height: a halving each 78,840,000 blocks, up to
-- the tenth.
pub mine_up_to-epoch :
    (height : ℕ) (validator : String)
    → height < half_word
    → (mine_up_to height validator).current_epoch ≡ min max_halvings (height / blocks_per_halving)
unfolding mine_up_to new_mining_keeper
mine_up_to-epoch zero validator h = refl
mine_up_to-epoch (suc height) validator h =
    epoch_step height validator _ (mine_up_to-IsValid height validator) h
      (mine_up_to-epoch height validator (omega arith))

-- The keeper's state is not stored, and a call makes one halving at most: a node that starts anew at
-- any height past the first halving pays half the first reward, however many epochs have passed.
pub get_block_reward_restarted :
    (height : ℕ)
    → blocks_per_halving ≤ height
    → height < half_word
    → (get_block_reward height new_mining_keeper).1 ≡ 25_000_000
unfolding get_block_reward check_halving capped_reward new_mining_keeper
get_block_reward_restarted height h b = ground arith
