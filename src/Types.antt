-- ===== src/Types.antt =====
-- x/nvx/types/constants.go
use nuvex.Base.Word.{Int64, ◌*64◌, div64}

abbrev pub max_supply : Int64
max_supply = 500_000_000_000_000

abbrev pub burn_rate_bps : Int64
burn_rate_bps = 10

unfoldable pub nvx_to_micro : Int64 → Int64
nvx_to_micro nvx = nvx *64 1_000_000

unfoldable pub calculate_burn_amount : Int64 → Int64
calculate_burn_amount fee = div64 (fee *64 burn_rate_bps) 10_000
