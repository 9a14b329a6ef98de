-- ===== src/Burn/Supply.antt =====
-- What is burned and what circulates make up the supply, and how much a fee burns.
use nuvex.Base.{◌+◌, ◌*◌, ◌/◌, ◌<◌, ◌≤◌, ◌≡◌, refl, List, [], ◌∷◌, arith}
use nuvex.Base.Word.{Int64, half_word, ◌+64◌}
use nuvex.Types.{max_supply, calculate_burn_amount}
use nuvex.Burn.{BurnKeeper, new_burn_keeper, burn_from_fee, burn_fees}

-- The two counters are words, and their sum is the supply, up to the wrap-around.
pub record IsBalanced (bk : BurnKeeper) : Type 0 where
  pub total : bk.total_burned +64 bk.circulating ≡ max_supply

burn_from_fee-IsBalanced :
    (fee : Int64) (bk : BurnKeeper) → IsBalanced bk → IsBalanced (burn_from_fee fee bk)
unfolding burn_from_fee
burn_from_fee-IsBalanced fee bk b = ground arith

burn_fees-IsBalanced :
    (fees : List Int64) (bk : BurnKeeper) → IsBalanced bk → IsBalanced (burn_fees fees bk)
unfolding burn_fees
burn_fees-IsBalanced [] bk b = b
burn_fees-IsBalanced (fee ∷ fees) bk b =
    burn_fees-IsBalanced fees (burn_from_fee fee bk) (burn_from_fee-IsBalanced fee bk b)

-- Whatever fees are paid, negative or too large ones included, the burned and the circulating
-- amount sum up to the maximal supply modulo 2^64.
pub burn_fees-total :
    (fees : List Int64)
    → let bk = burn_fees fees new_burn_keeper in bk.total_burned +64 bk.circulating ≡ max_supply
unfolding new_burn_keeper
burn_fees-total fees =
    let b = burn_fees-IsBalanced fees new_burn_keeper (record { total = refl }) in b.total

-- A fee that is not negative and whose tenfold is an int64 burns a thousandth of itself, which is the
-- amount that the types module calculates, and takes it from what circulates.
pub burn_from_fee_thousandth :
    (fee : Int64) (bk : BurnKeeper)
    → fee * 10 < half_word
    → fee / 1000 ≤ bk.circulating
    → bk.total_burned + fee / 1000 < half_word
    → bk.circulating < half_word
    → let bk' = burn_from_fee fee bk in
      (bk'.total_burned ≡ bk.total_burned + calculate_burn_amount fee)
      × (bk'.circulating + calculate_burn_amount fee ≡ bk.circulating)
      × (calculate_burn_amount fee ≡ fee / 1000)
unfolding burn_from_fee calculate_burn_amount
burn_from_fee_thousandth fee bk h c t u = ground arith
