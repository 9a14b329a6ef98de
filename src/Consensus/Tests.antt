-- ===== src/Consensus/Tests.antt =====
-- The choice of a leader among three validators, one of them not active.
use Prim.Native.Nat.{◌%◌}
use nuvex.Base.{ℕ, ◌≡◌, refl, Bool, true, false, some, List, [], ◌∷◌, String, arith}
use nuvex.Consensus.{Validator, select_by_seed, quorum_of, active_power_from, pick}
use nuvex.Consensus.Leader.{power, Owns, select_by_seed-Owns}

abbrev validator : String → ℕ → Bool → Validator
validator address voting_power is_active = record {
  address = address;
  voting_power = voting_power;
  is_active = is_active;
  is_green = false;
  commission_bps = 500;
  total_earned = 0;
}

abbrev three : List Validator
three = validator "a" 30 true ∷ validator "b" 50 false ∷ validator "c" 20 true ∷ []

quorum_run : quorum_of three ≡ 3
unfolding quorum_of
quorum_run = refl

leader_run : select_by_seed 1_040 three ≡ some (validator "c" 20 true)
unfolding select_by_seed active_power_from pick
leader_run = refl

select_by_seed-Owns_example :
    (v : Validator) × (select_by_seed 1_040 three ≡ some v) × Owns v (1_040 % power three) three
select_by_seed-Owns_example = select_by_seed-Owns 1_040 three (omega arith) (omega arith)
