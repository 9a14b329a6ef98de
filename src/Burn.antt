-- ===== src/Burn.antt =====
-- x/nvx/keeper/burn.go: how much has been burned and how much circulates.
pub mod Supply
mod Tests
use nuvex.Base.{ℕ, List, [], ◌∷◌, if◌then◌else◌}
use nuvex.Base.Word.{Int64, ◌+64◌, ◌-64◌, ◌*64◌, ◌<64◌, div64}

pub record BurnKeeper : Type 0 where
  pub total_burned : Int64
  pub circulating : Int64

unfoldable pub new_burn_keeper : BurnKeeper
new_burn_keeper = record { total_burned = 0; circulating = 500_000_000_000_000 }

unfoldable pub burn : Int64 → BurnKeeper → BurnKeeper
burn amount bk = record {
  total_burned = bk.total_burned +64 amount;
  circulating = bk.circulating -64 amount;
}

-- `BurnFromFee`; its transaction hash and its height are not used.
unfoldable pub burn_from_fee : Int64 → BurnKeeper → BurnKeeper
unfolding burn
burn_from_fee fee bk =
    let burn_amount = div64 (fee *64 10) 10_000 in
    if 0 <64 burn_amount then burn burn_amount bk else bk

-- The fees of a history, burned one after another.
unfoldable pub burn_fees : List Int64 → BurnKeeper → BurnKeeper
burn_fees [] bk = bk
burn_fees (fee ∷ fees) bk = burn_fees fees (burn_from_fee fee bk)
