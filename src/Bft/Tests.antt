-- ===== src/Bft/Tests.antt =====
-- The theorems on the consensus at a node with three validators whose chain is the genesis block.
use nuvex.Base.{
  ◌*◌, ◌<◌, ◌≡◌, ◌⊎◌, refl, true, false, none, some, List, [], ◌∷◌, String, arith, length,
  string_key,
}
use nuvex.State.Samples.{sample_host}
use nuvex.Blockchain.Block.{Block}
use nuvex.Blockchain.Chain.{
  Blockchain, BlockDisk, genesis_block, validate_chain, validate_blocks, validate_from,
}
use nuvex.Consensus.{Validator}
use nuvex.Mempool.{new_mempool}
use nuvex.Bft.{
  commit, finalized, ConsensusVote, ConsensusRound, BftConsensus, new_bft_consensus, proposal,
}
use nuvex.Bft.Rounds.{receive_commit_vote, receive_prepare_vote}
use nuvex.Bft.Threads.{started, resumed, prepare_arrived, commit_arrived, step, run, Event}
use nuvex.Bft.Finality.{extended}
use nuvex.Bft.Steps.{ChainKept, CarriesReady, Finalized, step-Finalizes, run_quorum}
use nuvex.Bft.Soundness.{IsSound, run-IsSound}
use nuvex.Bft.Abuse.{receive_commit_vote_again}

abbrev disk : BlockDisk
disk = record {
  marshal = λ b. 1 ∷ [];
  unmarshal = λ line. none;
  append_file = λ old bytes. some bytes;
  create_file = λ old bytes. some bytes;
}

chain : Blockchain
chain = record { blocks = genesis_block sample_host ∷ []; file = none }

abbrev validator : String → Validator
validator address = record {
  address = address;
  voting_power = 1;
  is_active = true;
  is_green = false;
  commission_bps = 0;
  total_earned = 0;
}

abbrev node : BftConsensus
node =
    new_bft_consensus (validator "v1" ∷ validator "v2" ∷ validator "v3" ∷ []) chain new_mempool true
      "v1"

abbrev vote : String → ConsensusVote
vote sender = record {
  validator_addr = sender;
  block_hash = "whatever";
  height = 1;
  round = 0;
  phase = "COMMIT";
  timestamp = 9;
}

block : Block
block = proposal sample_host 1 "v1" none "now" []

-- The first round of the node, with its leader's block.
abbrev round : ConsensusRound
round = record {
  height = 1;
  round = 0;
  phase = commit;
  leader_addr = "v1";
  proposed_block = some block;
  prepare_votes = ("v1", vote "v1") ∷ ("v2", vote "v2") ∷ ("v3", vote "v3") ∷ [];
  commit_votes = ("x", vote "x") ∷ ("y", vote "y") ∷ [];
  start_time = 1;
  finalized_at = none;
}

abbrev committing : BftConsensus
committing = record node { current_round = some round }

abbrev finished : BftConsensus
finished = record node {
  current_round = some (record round {
    phase = finalized;
    commit_votes = ("v1", vote "v1") ∷ ("v2", vote "v2") ∷ ("v3", vote "v3") ∷ [];
  });
}

step-Finalizes_example :
    (ChainKept sample_host disk committing
        (step sample_host disk (commit_arrived 9 "now" (vote "z")) committing).0
      × ¬ CarriesReady sample_host disk (commit_arrived 9 "now" (vote "z")) committing)
    ⊎ Finalized sample_host disk
        (commit_arrived 9 "now" (vote "z"))
        committing
        (step sample_host disk (commit_arrived 9 "now" (vote "z")) committing).0
step-Finalizes_example =
    step-Finalizes sample_host disk (commit_arrived 9 "now" (vote "z")) committing

abbrev history : List Event
history =
    started
    ∷ resumed 0 (λ txs. txs) 1 "now"
    ∷ resumed 0 (λ txs. txs) 2 "now"
    ∷ resumed 0 (λ txs. txs) 2 "now"
    ∷ resumed 0 (λ txs. txs) 2 "now"
    ∷ prepare_arrived (vote "v2")
    ∷ prepare_arrived (vote "v3")
    ∷ resumed 0 (λ txs. txs) 3 "now"
    ∷ resumed 0 (λ txs. txs) 3 "now"
    ∷ commit_arrived 4 "now" (vote "v2")
    ∷ commit_arrived 5 "now" (vote "v3")
    ∷ []

run_quorum_example :
    2 * length (run sample_host disk history node).0.validators
    < 3 * (run sample_host disk history node).0.quorum
unfolding new_bft_consensus
run_quorum_example = run_quorum sample_host disk history node refl

node-IsSound : IsSound sample_host disk 1 node.blockchain node.total_blocks
unfolding new_bft_consensus chain validate_chain validate_blocks validate_from
node-IsSound = record { valid = refl; started_at = omega arith; counted = refl }

run-IsSound_example :
    IsSound sample_host disk 1
      (run sample_host disk history node).0.blockchain
      (run sample_host disk history node).0.total_blocks
run-IsSound_example = run-IsSound sample_host disk 1 history node node-IsSound

receive_commit_vote_again_example :
    (receive_commit_vote sample_host disk 9 "now"
      (vote "v1")
      (receive_prepare_vote (vote "v3") finished)).0.blockchain
    ≡ extended sample_host disk block "now" finished.blockchain
unfolding new_bft_consensus
receive_commit_vote_again_example =
    receive_commit_vote_again sample_host disk 9 "now" (vote "v3") (vote "v1") _ block finished refl
      refl refl (omega arith) refl (omega arith)
