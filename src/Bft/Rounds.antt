-- ===== src/Bft/Rounds.antt =====
-- x/nvx/keeper/consensus_bft.go: what a round does under the lock. A time is a count of nanoseconds;
-- `now` texts are the clock's, as the chain's blocks hold them.
use nuvex.Base.{
  ℕ, not, Option, none, some, List, [], ◌∷◌, ◌++◌, String, if◌then◌else◌, string_key, Outcome, ok,
  err, panic, length, nat_eq, leb, ◌&&◌,
}
use nuvex.Base.Word.{Int64, ◌+64◌}
use nuvex.Dict.{insert}
use nuvex.Host.{Host}
use nuvex.Blockchain.Block.{Block}
use nuvex.Blockchain.Chain.{BlockDisk, add_block, get_latest_block}
use nuvex.Consensus.{Validator}
use nuvex.Mempool.{PendingTx, select_for_block}
use nuvex.Bft.{
  new_round, propose, prepare, commit, finalized, is_commit, ConsensusVote, ConsensusRound,
  BftConsensus, commit_due, select_leader, proposal,
}

-- Reaching the quorum starts a goroutine that will vote to commit.
unfoldable pub count_prepare_vote : ConsensusVote → ConsensusRound → BftConsensus → BftConsensus
count_prepare_vote vote r bft =
    let votes = insert vote.validator_addr vote r.prepare_votes in
    if not (nat_eq vote.height r.height)
    then bft
    else if leb bft.quorum (length votes)
    then record bft {
      current_round = some (record r { prepare_votes = votes; phase = commit });
      tasks = bft.tasks ++ commit_due ∷ [];
    }
    else record bft { current_round = some (record r { prepare_votes = votes; phase = prepare }) }

unfoldable pub receive_prepare_vote : ConsensusVote → BftConsensus → BftConsensus
receive_prepare_vote vote bft = elim bft.current_round [
  | none ↦ bft
  | some r ↦ count_prepare_vote vote r bft
]

-- The node's own vote to commit, if a block was proposed.
unfoldable pub own_commit_vote : ℕ → BftConsensus → Option ConsensusVote
own_commit_vote time bft = elim bft.current_round [
  | none ↦ none
  | some r ↦ elim r.proposed_block [
    | none ↦ none
    | some block ↦ some (record {
      validator_addr = bft.node_addr;
      block_hash = block.hash;
      height = r.height;
      round = r.round;
      phase = "COMMIT";
      timestamp = time;
    })
  ]
]

-- What `StartRound` does under its lock.
unfoldable pub start_round :
    Host → Int64 → Int64 → ℕ → BftConsensus → BftConsensus × Outcome ⊥ Validator
start_round host height round time bft = elim (select_leader host height round bft.validators) [
  | err e ↦ absurd e
  | panic ↦ (bft, panic)
  | ok leader ↦ (
    record bft {
      current_round = some (record {
        height = height;
        round = round;
        phase = new_round;
        leader_addr = leader.address;
        proposed_block = none;
        prepare_votes = [];
        commit_votes = [];
        start_time = time;
        finalized_at = none;
      });
    },
    ok leader,
  )
]

-- What `proposeBlock` does under its lock; a slice of transactions is never cut at a negative index.
unfoldable pub propose_under_lock :
    Host
    → (List PendingTx → List PendingTx)
    → ℕ
    → String
    → ConsensusRound
    → BftConsensus
    → BftConsensus × Outcome ⊥ Block
propose_under_lock host sort time now r bft =
    let (mempool, selected) = select_for_block sort 1_000 time bft.mempool in
    elim selected [
      | err e ↦ absurd e
      | panic ↦ (record bft { mempool = mempool }, panic)
      | ok txs ↦
          let block =
            proposal host r.height bft.node_addr (get_latest_block bft.blockchain) now txs in
          (
            record bft {
              mempool = mempool;
              current_round = some (record r { proposed_block = some block; phase = propose });
            },
            ok block,
          )
    ]

abbrev pub leader_vote : String → ℕ → Int64 → Block → ConsensusVote
leader_vote node_addr time round block = record {
  validator_addr = node_addr;
  block_hash = block.hash;
  height = block.height;
  round = round;
  phase = "PREPARE";
  timestamp = time;
}

-- The leader's vote for the block that was proposed. The lock is free here, and the round's number is
-- that of the round that stands now.
abbrev pub own_prepare_vote : ℕ → Block → BftConsensus → Outcome ⊥ ConsensusVote
own_prepare_vote time block bft = elim bft.current_round [
  | none ↦ panic
  | some r ↦ ok (leader_vote bft.node_addr time r.round block)
]

prepare_own : ℕ → BftConsensus × Outcome ⊥ Block → BftConsensus × Outcome ⊥ (Unit {0})
prepare_own time (bft, err e) = absurd e
prepare_own time (bft, panic) = (bft, panic)
prepare_own time (bft, ok block) = elim (own_prepare_vote time block bft) [
  | err e ↦ absurd e
  | panic ↦ (bft, panic)
  | ok vote ↦ (receive_prepare_vote vote bft, ok tt)
]

-- The whole of `proposeBlock`, when no other thread takes the lock meanwhile.
unfoldable pub propose_block :
    Host
    → (List PendingTx → List PendingTx)
    → ℕ
    → String
    → BftConsensus
    → BftConsensus × Outcome ⊥ (Unit {0})
unfolding prepare_own
propose_block host sort time now bft = elim bft.current_round [
  | none ↦ (bft, ok tt)
  | some r ↦ prepare_own time (propose_under_lock host sort time now r bft)
]

module _ (host : Host) (disk : BlockDisk) where
  -- The proposed block's data go to the chain, which makes a block of its own; the proposed one is
  -- sent to the peers.
  unfoldable pub finalize_block :
      ℕ → String → ConsensusRound → BftConsensus → BftConsensus × Outcome ⊥ (Unit {0})
  finalize_block time now r bft = elim r.proposed_block [
    | none ↦ (record bft { current_round = some r }, ok tt)
    | some block ↦
        let (chain, outcome) =
          add_block host disk block.validator block.transactions block.total_fees
            block.burned_amount block.mining_reward now bft.blockchain in
        let done = record bft {
          current_round = some (record r { finalized_at = some time; phase = finalized });
          total_blocks = bft.total_blocks +64 1;
          blockchain = chain;
        } in
        elim outcome [
          | err e ↦ absurd e
          | panic ↦ (done, panic)
          | ok added ↦ (
            record done { sent = (if bft.has_p2p then bft.sent ++ block ∷ [] else bft.sent) },
            ok tt,
          )
        ]
  ]

  unfoldable pub count_commit_vote :
      ℕ
      → String
      → ConsensusVote
      → ConsensusRound
      → BftConsensus
      → BftConsensus × Outcome ⊥ (Unit {0})
  count_commit_vote time now vote r bft =
      let votes = insert vote.validator_addr vote r.commit_votes in
      let r' = record r { commit_votes = votes } in
      if not (nat_eq vote.height r.height)
      then (bft, ok tt)
      else if leb bft.quorum (length votes) && is_commit r.phase
      then finalize_block time now r' bft
      else (record bft { current_round = some r' }, ok tt)

  unfoldable pub receive_commit_vote :
      ℕ → String → ConsensusVote → BftConsensus → BftConsensus × Outcome ⊥ (Unit {0})
  receive_commit_vote time now vote bft = elim bft.current_round [
    | none ↦ (bft, ok tt)
    | some r ↦ count_commit_vote time now vote r bft
  ]
