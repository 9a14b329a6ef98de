-- ===== src/Burn/Tests.antt =====
-- Fees burned at concrete amounts.
use nuvex.Base.{◌≡◌, refl, [], ◌∷◌}
use nuvex.Base.Word.{◌+64◌}
use nuvex.Types.{max_supply}
use nuvex.Burn.{BurnKeeper, new_burn_keeper, burn_from_fee, burn_fees}
use nuvex.Burn.Supply.{burn_fees-total}

abbrev half_burned : BurnKeeper
half_burned = record { total_burned = 1_000; circulating = 499_999_999_999_000 }

two_fees :
    burn_fees (5_000 ∷ 999 ∷ []) new_burn_keeper
    ≡ record { total_burned = 5; circulating = 499_999_999_999_995 }
unfolding burn_fees burn_from_fee new_burn_keeper
two_fees = refl

burn_fees-total_example :
    let bk = burn_fees (5_000 ∷ 999 ∷ []) new_burn_keeper in
    bk.total_burned +64 bk.circulating ≡ max_supply
burn_fees-total_example = burn_fees-total (5_000 ∷ 999 ∷ [])
