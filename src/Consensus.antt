-- ===== src/Consensus.antt =====
-- x/nvx/keeper/consensus.go: the stake-weighted choice of a leader, and the reward of a block.
pub mod Leader
mod Tests
use nuvex.Base.{
  ℕ, ◌+◌, ◌*◌, ◌/◌, ◌%◌, Bool, true, false, not, Option, none, some, List, [], ◌∷◌, ◌++◌, String,
  len, ltb, if◌then◌else◌, string_key, ◌==◌, Outcome, ok, err, panic, length, take, nat_eq, ◌&&◌,
  ◌||◌,
}
use nuvex.Base.Word.{Int64, ◌+64◌, ◌*64◌, ◌<64◌, word, div64}
use nuvex.Host.{Host}
use nuvex.Signature.{big_endian}
use nuvex.Burn.{BurnKeeper, new_burn_keeper, burn_from_fee}
use nuvex.Mining.{HalvingState, new_mining_keeper, process_block_reward}

pub record Validator : Type 0 where
  pub address : String
  pub voting_power : Int64
  pub is_active : Bool
  pub is_green : Bool
  pub commission_bps : Int64
  pub total_earned : Int64

pub record ConsensusEngine : Type 0 where
  pub validators : List Validator
  pub quorum : ℕ
  pub burn_keeper : BurnKeeper
  pub mining_keeper : HalvingState

-- `(2*n/3) + 1`
unfoldable pub quorum_of : List Validator → ℕ
quorum_of validators = 2 * length validators / 3 + 1

unfoldable pub new_consensus_engine : List Validator → ConsensusEngine
unfolding quorum_of
new_consensus_engine validators = record {
  validators = validators;
  quorum = quorum_of validators;
  burn_keeper = new_burn_keeper;
  mining_keeper = new_mining_keeper;
}

-- The voting power of the active validators.
unfoldable pub active_power_from : Int64 → List Validator → Int64
active_power_from total [] = total
active_power_from total (v ∷ validators) =
    active_power_from (if v.is_active then total +64 v.voting_power else total) validators

-- The first active validator whose cumulated power lies above the slot.
unfoldable pub pick : Int64 → Int64 → List Validator → Option Validator
pick slot cum [] = none
pick slot cum (v ∷ validators) =
    let skipped = pick slot cum validators in
    let cum' = cum +64 v.voting_power in
    let later = pick slot cum' validators in
    if not v.is_active then skipped else if slot <64 cum' then some v else later

-- `seed` is the number in the first eight bytes of the hash.
unfoldable pub select_by_seed : ℕ → List Validator → Option Validator
unfolding active_power_from
select_by_seed seed [] = none
select_by_seed seed (first ∷ rest) =
    let total = active_power_from 0 (first ∷ rest) in
    if nat_eq total 0
    then some first
    else elim (pick (seed % total) 0 (first ∷ rest)) [ none ↦ some first | some v ↦ some v ]

-- The eight bytes of `binary.BigEndian.PutUint64`.
abbrev pub height_bytes : ℕ → List ℕ
height_bytes h =
    (h / 72_057_594_037_927_936 % 256)
    ∷ (h / 281_474_976_710_656 % 256)
    ∷ (h / 1_099_511_627_776 % 256)
    ∷ (h / 4_294_967_296 % 256)
    ∷ (h / 16_777_216 % 256)
    ∷ (h / 65_536 % 256)
    ∷ (h / 256 % 256)
    ∷ (h % 256)
    ∷ []

unfoldable pub select_leader : Host → List ℕ → Int64 → List Validator → Option Validator
unfolding select_by_seed
select_leader host prev_hash height validators =
    select_by_seed (big_endian (take 8 (host.sha256 (prev_hash ++ height_bytes height)))) validators

-- Every validator with the leader's address earns the reward.
unfoldable pub pay : String → Int64 → List Validator → List Validator
pay address reward [] = []
pay address reward (v ∷ validators) =
    (if v.address == address then record v { total_earned = v.total_earned +64 reward } else v)
    ∷ pay address reward validators

-- A green leader gets half a percent more.
unfoldable pub with_bonus : Bool → Int64 → Int64
with_bonus is_green reward =
    if is_green && (0 <64 reward) then reward +64 div64 (reward *64 5) 1000 else reward

-- The log lines quote the first 16 bytes of the leader's address, here and in the mining keeper.
unfoldable pub process_block :
    Host → Int64 → Int64 → ConsensusEngine → ConsensusEngine × Outcome ⊥ (Unit {0})
process_block host height total_fees ce =
    elim (select_leader host (host.to_bytes "prevhash") height ce.validators) [
      | none ↦ (ce, ok tt)
      | some leader ↦
          let burned = burn_from_fee total_fees ce.burn_keeper in
          let (mining, outcome) = process_block_reward height leader.address ce.mining_keeper in
          elim outcome [
            | err e ↦ absurd e
            | panic ↦ (record ce { burn_keeper = burned; mining_keeper = mining }, panic)
            | ok reward ↦ (
              record ce {
                validators = pay leader.address (with_bonus leader.is_green reward) ce.validators;
                burn_keeper = burned;
                mining_keeper = mining;
              },
              (if ltb (len leader.address) 16 then panic else ok tt),
            )
          ]
    ]
