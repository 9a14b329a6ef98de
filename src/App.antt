-- ===== src/App.antt =====
-- app/app.go and app/genesis.go: the genesis entries, and the node that wires the keepers together.
-- The keepers share the chain, the pool and the state by pointers: here the BFT consensus holds the
-- chain and the pool, and governance holds the state. The keepers that the loop does not use are left
-- out; the node of Api holds them all.
pub mod Supply
mod Tests
use nuvex.Base.{
  ℕ, zero, suc, ◌+◌, Bool, true, false, none, Option, List, [], ◌∷◌, String, Outcome, ok, err,
  panic, nat_eq, if◌then◌else◌, ◌==◌, string_key,
}
use nuvex.Base.Word.{Int64, ◌+64◌}
use nuvex.Host.{Host}
use nuvex.State.Accounts.{GenesisEntry}
use nuvex.State.Keeper.{Disk, StateKeeper, new_state_keeper, init_genesis, get_balance}
use nuvex.Blockchain.Chain.{BlockDisk, new_blockchain, chain_height}
use nuvex.Burn.{BurnKeeper, new_burn_keeper}
use nuvex.Consensus.{Validator, ConsensusEngine, new_consensus_engine, process_block}
use nuvex.Mempool.{PendingTx, new_mempool}
use nuvex.Bft.{BftConsensus, new_bft_consensus}
use nuvex.Bft.Rounds.{start_round, propose_block}
use nuvex.Governance.{GovernanceKeeper, new_governance_keeper}

pub record GenesisAccount : Type 0 where
  pub address : String
  pub amount : Int64
  pub label : String

abbrev pub founders : String
founders = "nuvex19d85718c8da8f4213e1a2a41fe894ba928b9c9"

-- The accounts that `PrintGenesis` lists.
unfoldable pub genesis_accounts : List GenesisAccount
genesis_accounts =
    record {
      address = "nuvex1cac179655ab9fd3543fe537675a3c3eb447691";
      amount = 275_000_000_000_000;
      label = "Community Fair Launch — 275,000,000 NVX (55%)";
    }
    ∷ record {
      address = "nuvex1f81358e9a3840c5ca4647f2bc90b0e8b7b7a70";
      amount = 100_000_000_000_000;
      label = "Ecosystem Fund — 100,000,000 NVX (20%)";
    }
    ∷ record {
      address = "nuvex1c22e41daadec8a5856631fbdd11a40b69b0248";
      amount = 100_000_000_000_000;
      label = "Staking Rewards — 100,000,000 NVX (20%)";
    }
    ∷ record {
      address = founders;
      amount = 25_000_000_000_000;
      label = "Founders Anonymous — 25,000,000 NVX (5%)";
    }
    ∷ []

-- The total that `PrintGenesis` prints.
unfoldable pub printed_total : Int64 → List GenesisAccount → Int64
printed_total total [] = total
printed_total total (acc ∷ rest) = printed_total (total +64 acc.amount) rest

-- The entries that the node writes into an empty state.
unfoldable pub app_genesis : List GenesisEntry
app_genesis =
    record {
      address = "nuvex1cac179655ab9fd3543fe537675a3c3eb447691";
      amount = 275_000_000_000_000;
      public_key = "";
    }
    ∷ record {
      address = "nuvex1f81358e9a3840c5ca4647f2bc90b0e8b7b7a70";
      amount = 100_000_000_000_000;
      public_key = "";
    }
    ∷ record {
      address = "nuvex1c22e41daadec8a5856631fbdd11a40b69b0248";
      amount = 100_000_000_000_000;
      public_key = "";
    }
    ∷ record { address = founders; amount = 25_000_000_000_000; public_key = "" }
    ∷ record {
      address = "nuvex1af7c2f39fd1751be635ff6141a4c4aea8cda91";
      amount = 25_000_000_000_000;
      public_key = "";
    }
    ∷ []

abbrev pub app_validators : List Validator
app_validators =
    record {
      address = founders;
      voting_power = 25_000_000;
      is_active = true;
      is_green = true;
      commission_bps = 0;
      total_earned = 0;
    }
    ∷ []

pub record NuvexApp : Type 0 where
  pub burns : BurnKeeper
  pub bft : BftConsensus
  pub engine : ConsensusEngine
  pub governance : GovernanceKeeper
  pub height : Int64

module _ (disk : Disk) where
  -- The state at the start of the node: the genesis is written if the founders have no balance.
  unfoldable pub starting_state : Option (List ℕ) → StateKeeper
  unfolding app_genesis
  starting_state file =
      let state = new_state_keeper disk file in
      if nat_eq (get_balance founders state) 0 then init_genesis disk app_genesis state else state

  unfoldable pub new_nuvex_app :
      Host → BlockDisk → Option (List ℕ) → Option (List ℕ) → NuvexApp × Outcome ⊥ (Unit {0})
  unfolding starting_state
  new_nuvex_app host block_disk chain_file state_file =
      let (chain, outcome) = new_blockchain host block_disk chain_file in
      (
        record {
          burns = new_burn_keeper;
          bft = new_bft_consensus app_validators chain new_mempool true founders;
          engine = new_consensus_engine app_validators;
          governance = new_governance_keeper (starting_state state_file);
          height = chain_height chain;
        },
        outcome,
      )

module _ (host : Host) (sort : List PendingTx → List PendingTx) where
  -- The whole of `StartRound`, when no other thread takes the lock meanwhile: a node that is the
  -- leader proposes a block.
  unfoldable pub start_and_propose :
      Int64 → Int64 → ℕ → String → BftConsensus → BftConsensus × Outcome ⊥ (Unit {0})
  start_and_propose height round time now bft =
      let (opened, outcome) = start_round host height round time bft in
      elim outcome [
        | err e ↦ absurd e
        | panic ↦ (opened, panic)
        | ok leader ↦
            if leader.address == opened.node_addr
            then propose_block host sort time now opened
            else (opened, ok tt)
      ]

  -- One round of the loop of `Run`.
  unfoldable pub run_block : ℕ → String → NuvexApp → NuvexApp × Outcome ⊥ (Unit {0})
  run_block time now app =
      let height = app.height +64 1 in
      let (bft, started) = start_and_propose height 0 time now app.bft in
      let (engine, processed) = process_block host height 0 app.engine in
      elim started [
        | err e ↦ absurd e
        | panic ↦ (record app { bft = bft; height = height }, panic)
        | ok _ ↦ (record app { bft = bft; engine = engine; height = height }, processed)
      ]

  unfoldable pub run_blocks : ℕ → ℕ → String → NuvexApp → NuvexApp × Outcome ⊥ (Unit {0})
  run_blocks zero time now app = (app, ok tt)
  run_blocks (suc n) time now app =
      let (app', outcome) = run_block time now app in
      let rest = run_blocks n time now app' in
      elim outcome [ err e ↦ absurd e | panic ↦ (app', panic) | ok _ ↦ rest ]
