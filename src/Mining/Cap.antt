-- ===== src/Mining/Cap.antt =====
-- The keeper's invariant, and the cap on what is mined.
use nuvex.Base.{ℕ, ◌+◌, ◌*◌, ◌/◌, zero, suc, ◌≤◌, ◌≡◌, List, [], ◌∷◌, String, arith}
use native.Mathlib.Numerals.{add-one}
use nuvex.Base.Word.{Int64}
use nuvex.Mining.{
  HalvingState, new_mining_keeper, check_halving, capped_reward, get_block_reward,
  process_block_reward, mine, initial_block_reward, blocks_per_halving, max_halvings,
}

-- The reward of an epoch: each halves the one before.
abbrev pub epoch_reward : ℕ → ℕ
epoch_reward zero = initial_block_reward
epoch_reward (suc epoch) = epoch_reward epoch / 2

pub record IsValid (s : HalvingState) : Type 0 where
  pub epoch : s.current_epoch ≤ max_halvings
  pub reward : s.current_reward ≡ epoch_reward s.current_epoch
  pub next : s.next_halving_block ≡ (s.current_epoch + 1) * blocks_per_halving
  pub mined : s.total_mined ≤ s.max_mineable
  pub pool : s.max_mineable ≡ 100_000_000_000_000

pub epoch_reward-le : (e : ℕ) → epoch_reward e ≤ initial_block_reward
epoch_reward-le zero = omega arith
epoch_reward-le (suc e) = omega (arith, epoch_reward-le e)

pub epoch_reward-add_one : (e : ℕ) → epoch_reward (e + 1) ≡ epoch_reward e / 2
epoch_reward-add_one e = rw add-one

pub check_halving-IsValid :
    (height : Int64) (s : HalvingState) → IsValid s → IsValid (check_halving height s)
unfolding check_halving
check_halving-IsValid height s v =
    ground (arith, epoch_reward-le s.current_epoch, epoch_reward-add_one s.current_epoch)

-- The reward that is paid fits in what is left of the pool, and is at most the epoch's.
pub capped_reward-le :
    (s : HalvingState)
    → IsValid s
    → (s.total_mined + capped_reward s ≤ s.max_mineable)
      × (capped_reward s ≤ epoch_reward s.current_epoch)
unfolding capped_reward
capped_reward-le s v = ground (arith, epoch_reward-le s.current_epoch)

pub process_block_reward-IsValid :
    (height : Int64) (validator : String) (s : HalvingState)
    → IsValid s
    → IsValid (process_block_reward height validator s).0
unfolding process_block_reward get_block_reward
process_block_reward-IsValid height validator s v =
    let v' = check_halving-IsValid height s v in
    ground (arith, v', capped_reward-le (check_halving height s) v')

pub new_mining_keeper-IsValid : IsValid new_mining_keeper
unfolding new_mining_keeper
new_mining_keeper-IsValid = omega arith

pub mine-IsValid :
    (blocks : List (Int64 × String)) (s : HalvingState) → IsValid s → IsValid (mine blocks s)
unfolding mine
mine-IsValid [] s v = v
mine-IsValid ((height, validator) ∷ blocks) s v =
    mine-IsValid blocks _ (process_block_reward-IsValid height validator s v)

-- After any blocks, whatever their heights, no more than the pool of 100 million NVX has been mined,
-- and the reward is the first one halved once for each epoch, of which there are ten at most.
pub mine_cap :
    (blocks : List (Int64 × String))
    → let s = mine blocks new_mining_keeper in
      (s.total_mined ≤ 100_000_000_000_000)
      × (s.current_epoch ≤ max_halvings)
      × (s.current_reward ≡ epoch_reward s.current_epoch)
mine_cap blocks =
    let v = mine-IsValid blocks new_mining_keeper new_mining_keeper-IsValid in
    (omega (arith, v.mined, v.pool), v.epoch, v.reward)
