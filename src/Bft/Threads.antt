-- ===== src/Bft/Threads.antt =====
-- x/nvx/keeper/consensus_bft.go: the threads of a node. A step holds the lock at most once, so other
-- threads come between the parts of `StartRound`, `proposeBlock` and `submitCommitVote`.
use nuvex.Base.{
  ℕ, zero, suc, ◌==◌, Option, none, some, List, [], ◌∷◌, ◌++◌, String, if◌then◌else◌, string_key,
  Outcome, ok, err, panic,
}
use nuvex.Base.Word.{◌+64◌}
use nuvex.Host.{Host}
use nuvex.Blockchain.Block.{Block}
use nuvex.Blockchain.Chain.{BlockDisk, chain_height}
use nuvex.Consensus.{Validator}
use nuvex.Mempool.{PendingTx}
use nuvex.Bft.{
  Task, round_due, propose_due, prepare_due, prepare_vote_due, commit_due, commit_vote_due,
  ConsensusVote, BftConsensus, add_validator,
}
use nuvex.Bft.Rounds.{
  receive_prepare_vote, receive_commit_vote, own_commit_vote, own_prepare_vote, start_round,
  propose_under_lock,
}

-- What can happen to a node: its loop reads the chain's height for a new round, one of its threads
-- goes on, votes arrive, the loop times out, and a validator is added.
pub data Event : Type 0 where
  started : Event
  resumed : ℕ → (List PendingTx → List PendingTx) → ℕ → String → Event
  prepare_arrived : ConsensusVote → Event
  commit_arrived : ℕ → String → ConsensusVote → Event
  timed_out : Event
  joined : Validator → Event

-- The thread that goes on, with the others; any of them may.
unfoldable pub resume_at {ℓ} : {A : Type ℓ} → ℕ → List A → Option (A × List A)
resume_at i [] = none
resume_at zero (x ∷ xs) = some (x, xs)
resume_at (suc i) (x ∷ xs) = elim (resume_at i xs) [ none ↦ none | some (y, ys) ↦ some (y, x ∷ ys) ]

abbrev pub with_task : Task → BftConsensus → BftConsensus
with_task task bft = record bft { tasks = bft.tasks ++ task ∷ [] }

-- `StartRound` after its lock: the leader is the one that was found under the lock.
unfoldable pub after_start :
    BftConsensus × Outcome ⊥ Validator → BftConsensus × Outcome ⊥ (Unit {0})
after_start (bft, err e) = absurd e
after_start (bft, panic) = (bft, panic)
after_start (bft, ok leader) =
    (if leader.address == bft.node_addr then with_task propose_due bft else bft, ok tt)

unfoldable pub after_propose : BftConsensus × Outcome ⊥ Block → BftConsensus × Outcome ⊥ (Unit {0})
after_propose (bft, err e) = absurd e
after_propose (bft, panic) = (bft, panic)
after_propose (bft, ok block) = (with_task (prepare_due block) bft, ok tt)

-- Reading the round of a node that has none is a nil dereference.
unfoldable pub after_vote :
    BftConsensus → Outcome ⊥ ConsensusVote → BftConsensus × Outcome ⊥ (Unit {0})
after_vote bft (err e) = absurd e
after_vote bft panic = (bft, panic)
after_vote bft (ok vote) = (with_task (prepare_vote_due vote) bft, ok tt)

module _ (host : Host) (disk : BlockDisk) where
  -- A thread goes on until it next frees the lock.
  unfoldable pub run_task :
      Task
      → (List PendingTx → List PendingTx)
      → ℕ
      → String
      → BftConsensus
      → BftConsensus × Outcome ⊥ (Unit {0})
  run_task (round_due height) sort time now bft = after_start (start_round host height 0 time bft)
  run_task propose_due sort time now bft = elim bft.current_round [
    | none ↦ (bft, ok tt)
    | some r ↦ after_propose (propose_under_lock host sort time now r bft)
  ]
  run_task (prepare_due block) sort time now bft = after_vote bft (own_prepare_vote time block bft)
  run_task (prepare_vote_due vote) sort time now bft = (receive_prepare_vote vote bft, ok tt)
  run_task commit_due sort time now bft = elim (own_commit_vote time bft) [
    | none ↦ (bft, ok tt)
    | some vote ↦ (with_task (commit_vote_due vote) bft, ok tt)
  ]
  run_task (commit_vote_due vote) sort time now bft =
      receive_commit_vote host disk time now vote bft

  unfoldable pub step : Event → BftConsensus → BftConsensus × Outcome ⊥ (Unit {0})
  unfolding add_validator
  step started bft = (with_task (round_due (chain_height bft.blockchain +64 1)) bft, ok tt)
  step (resumed i sort time now) bft = elim (resume_at i bft.tasks) [
    | none ↦ (bft, ok tt)
    | some (task, others) ↦ run_task task sort time now (record bft { tasks = others })
  ]
  step (prepare_arrived vote) bft = (receive_prepare_vote vote bft, ok tt)
  step (commit_arrived time now vote) bft = receive_commit_vote host disk time now vote bft
  step timed_out bft = (record bft { failed_rounds = bft.failed_rounds +64 1 }, ok tt)
  step (joined v) bft = (add_validator v bft, ok tt)

  -- A panic ends the process.
  unfoldable pub run : List Event → BftConsensus → BftConsensus × Outcome ⊥ (Unit {0})
  run [] bft = (bft, ok tt)
  run (event ∷ events) bft =
      let (bft', outcome) = step event bft in
      let rest = run events bft' in
      elim outcome [ err e ↦ absurd e | panic ↦ (bft', panic) | ok _ ↦ rest ]
