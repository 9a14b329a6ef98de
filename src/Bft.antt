-- ===== src/Bft.antt =====
-- x/nvx/keeper/consensus_bft.go: the rounds of the consensus, with their data and votes.
pub mod Rounds
pub mod Threads
pub mod Finality
pub mod Tasks
pub mod Steps
pub mod Soundness
pub mod Abuse
mod Tests
use Prim.Native.String.{◌++◌}
use mathlib.Core.List
use nuvex.Base.{
  ℕ, ◌*◌, ◌/◌, ◌%◌, ◌+◌, Bool, true, false, not, Option, none, some, List, [], ◌∷◌, String,
  if◌then◌else◌, string_key, ◌==◌, Outcome, ok, err, panic, length, map, get_elem?, nat_eq, leb,
}
use nuvex.Base.Word.{Int64, ◌+64◌, ◌*64◌, div64}
use nuvex.Dict.{Dict, insert}
use nuvex.Host.{Host}
use nuvex.Blockchain.Block.{Block, calculate_state_root}
use nuvex.Blockchain.Chain.{Blockchain}
use nuvex.Consensus.{Validator, quorum_of}
use nuvex.Mempool.{Mempool, PendingTx}

pub data ConsensusPhase : Type 0 where
  new_round propose prepare commit finalized : ConsensusPhase

unfoldable pub phase_name : ConsensusPhase → String
phase_name new_round = "NEW_ROUND"
phase_name propose = "PROPOSE"
phase_name prepare = "PREPARE"
phase_name commit = "COMMIT"
phase_name finalized = "FINALIZED"

abbrev pub is_commit : ConsensusPhase → Bool
is_commit commit = true
is_commit new_round = false
is_commit propose = false
is_commit prepare = false
is_commit finalized = false

pub record ConsensusVote : Type 0 where
  pub validator_addr : String
  pub block_hash : String
  pub height : Int64
  pub round : Int64
  pub phase : String
  pub timestamp : ℕ

pub record ConsensusRound : Type 0 where
  pub height : Int64
  pub round : Int64
  pub phase : ConsensusPhase
  pub leader_addr : String
  pub proposed_block : Option Block
  pub prepare_votes : Dict String ConsensusVote
  pub commit_votes : Dict String ConsensusVote
  pub start_time : ℕ
  pub finalized_at : Option ℕ

-- Where a thread of the node stands that will go on: before `StartRound`, with the height that the
-- loop read from the chain; after `StartRound` found the node to be the
-- leader; after the block was proposed, with this block; before `ReceivePrepareVote` with the
-- leader's vote; at the start of the goroutine `submitCommitVote`; and before `ReceiveCommitVote`
-- with the node's vote. At each of them the lock is free.
pub data Task : Type 0 where
  round_due : Int64 → Task
  propose_due : Task
  prepare_due : Block → Task
  prepare_vote_due : ConsensusVote → Task
  commit_due : Task
  commit_vote_due : ConsensusVote → Task

-- `tasks` are the threads that will go on, and `sent` lists the blocks given to
-- `p2p.BroadcastBlock`. The chain and the pool are shared with other parts of the node; here are
-- their states.
pub record BftConsensus : Type 0 where
  pub validators : List Validator
  pub quorum : ℕ
  pub current_round : Option ConsensusRound
  pub blockchain : Blockchain
  pub mempool : Mempool
  pub has_p2p : Bool
  pub node_addr : String
  pub total_blocks : Int64
  pub failed_rounds : Int64
  pub tasks : List Task
  pub sent : List Block

pub record BftStats : Type 0 where
  pub phase : String
  pub height : Int64
  pub round : Int64
  pub leader : String
  pub prepare_votes : ℕ
  pub commit_votes : ℕ
  pub quorum : ℕ
  pub total_blocks : Int64
  pub failed_rounds : Int64
  pub validator_count : ℕ

-- The quorum is at least 1, so the code's correction to 1 never applies.
unfoldable pub new_bft_consensus :
    List Validator → Blockchain → Mempool → Bool → String → BftConsensus
unfolding quorum_of
new_bft_consensus validators blockchain mempool has_p2p node_addr = record {
  validators = validators;
  quorum = quorum_of validators;
  current_round = none;
  blockchain = blockchain;
  mempool = mempool;
  has_p2p = has_p2p;
  node_addr = node_addr;
  total_blocks = 0;
  failed_rounds = 0;
  tasks = [];
  sent = [];
}

unfoldable pub add_validator : Validator → BftConsensus → BftConsensus
unfolding quorum_of
add_validator v bft =
    let validators = List.◌++◌ bft.validators (v ∷ []) in
    record bft { validators = validators; quorum = quorum_of validators }

-- The first byte of the hash; a SHA-256 sum is never empty.
abbrev first_byte : List ℕ → ℕ
first_byte [] = 0
first_byte (b ∷ bytes) = b

module _ (host : Host) where
  leader_index : Int64 → Int64 → ℕ → ℕ
  leader_index height round n =
      first_byte (
        host.sha256
          (host.to_bytes (host.fmt_int height ++ ":" ++ host.fmt_int round ++ ":nuvex-1")))
      % n

  -- With no validators the remainder is a division by zero.
  unfoldable pub select_leader : Int64 → Int64 → List Validator → Outcome ⊥ Validator
  unfolding leader_index
  select_leader height round validators =
      elim (get_elem? validators (leader_index height round (length validators))) [
        | none ↦ panic
        | some v ↦ ok v
      ]

  -- Not the hash of the chain: the fees are not part of it.
  unfoldable pub hash_block : Block → String
  hash_block b = host.hex_encode (
      host.sha256 (
        host.to_bytes (
          host.fmt_int b.height
          ++ b.prev_hash
          ++ b.timestamp
          ++ b.validator
          ++ host.fmt_int b.tx_count
          ++ host.fmt_int b.mining_reward
          ++ b.state_root)))

  sum_fees : Int64 → List PendingTx → Int64
  sum_fees total [] = total
  sum_fees total (tx ∷ txs) = sum_fees (total +64 tx.fee) txs

  tx_hash : PendingTx → String
  tx_hash tx = tx.hash

  prev_hash_of : Option Block → String
  prev_hash_of none = "GENESIS"
  prev_hash_of (some b) = b.hash

  -- The block that a leader proposes, with the chain's latest block and the clock's text.
  unfoldable pub proposal : Int64 → String → Option Block → String → List PendingTx → Block
  unfolding hash_block sum_fees tx_hash prev_hash_of
  proposal height node_addr latest now txs =
      let fees = sum_fees 0 txs in
      let block : Block = record {
        height = height;
        hash = "";
        prev_hash = prev_hash_of latest;
        timestamp = now;
        validator = node_addr;
        transactions = map tx_hash txs;
        tx_count = length txs;
        total_fees = fees;
        burned_amount = div64 (fees *64 10) 10_000;
        mining_reward = 50_000_000;
        state_root = calculate_state_root host (map tx_hash txs);
        signature = "";
      } in
      record block { hash = hash_block block }

unfoldable pub stats : BftConsensus → BftStats
unfolding phase_name
stats bft =
    let idle : BftStats = record {
      phase = "IDLE";
      height = 0;
      round = 0;
      leader = "";
      prepare_votes = 0;
      commit_votes = 0;
      quorum = bft.quorum;
      total_blocks = bft.total_blocks;
      failed_rounds = bft.failed_rounds;
      validator_count = length bft.validators;
    } in
    elim bft.current_round [
      | none ↦ idle
      | some r ↦ record idle {
        phase = phase_name r.phase;
        height = r.height;
        round = r.round;
        leader = r.leader_addr;
        prepare_votes = length r.prepare_votes;
        commit_votes = length r.commit_votes;
      }
    ]
