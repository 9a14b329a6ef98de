-- ===== src/Bft/Tasks.antt =====
-- What a thread of a node does to its chain until it next frees the lock.
use nuvex.Base.{
  ℕ, ◌≡◌, refl, ◌⊎◌, inl, inr, List, String, Bool-cases, Option-cases, string_key, ◌==◌, Outcome,
  ok, err, panic,
}
use nuvex.Host.{Host}
use nuvex.Blockchain.Block.{Block}
use nuvex.Blockchain.Chain.{BlockDisk}
use nuvex.Mempool.{PendingTx}
use nuvex.Consensus.{Validator}
use nuvex.Bft.{
  Task, round_due, propose_due, prepare_due, prepare_vote_due, commit_due, commit_vote_due,
  ConsensusVote, BftConsensus,
}
use nuvex.Bft.Rounds.{own_commit_vote, own_prepare_vote, propose_under_lock, start_round}
use nuvex.Bft.Threads.{after_start, after_propose, after_vote, run_task}
use nuvex.Bft.Finality.{
  Keeps, Handles, start_round-Keeps, propose_under_lock-Keeps, receive_prepare_vote-Keeps,
  receive_commit_vote-Handles,
}

module _ (host : Host) (disk : BlockDisk) where
  after_start-Keeps :
      (bft : BftConsensus) (x : BftConsensus × Outcome ⊥ Validator)
      → Keeps host disk bft x.0
      → Keeps host disk bft (after_start x).0
  unfolding after_start
  after_start-Keeps bft (bft', err e) k = absurd e
  after_start-Keeps bft (bft', panic) k = k
  after_start-Keeps bft (bft', ok leader) k = elim (Bool-cases (leader.address == bft'.node_addr)) [
    | inl mine ↦ rw (mine, after_start) k
    | inr other ↦ rw (other, after_start) k
  ]

  after_propose-Keeps :
      (bft : BftConsensus) (x : BftConsensus × Outcome ⊥ Block)
      → Keeps host disk bft x.0
      → Keeps host disk bft (after_propose x).0
  unfolding after_propose
  after_propose-Keeps bft (bft', err e) k = absurd e
  after_propose-Keeps bft (bft', panic) k = k
  after_propose-Keeps bft (bft', ok block) k = k

  after_vote-Keeps :
      (bft : BftConsensus) (x : Outcome ⊥ ConsensusVote) → Keeps host disk bft (after_vote bft x).0
  unfolding after_vote
  after_vote-Keeps bft (err e) = absurd e
  after_vote-Keeps bft panic = (refl, refl, refl, refl)
  after_vote-Keeps bft (ok vote) = (refl, refl, refl, refl)

  propose_due-Keeps :
      (sort : List PendingTx → List PendingTx) (time : ℕ) (now : String) (bft : BftConsensus)
      → Keeps host disk bft (run_task host disk propose_due sort time now bft).0
  unfolding run_task
  propose_due-Keeps sort time now bft = elim (Option-cases bft.current_round) [
    | inl e ↦ simp (e, run_task) (refl, refl, refl, refl)
    | inr (r, e) ↦
        simp (e, run_task)
          (after_propose-Keeps bft (propose_under_lock host sort time now r bft)
            (propose_under_lock-Keeps host disk sort time now r bft))
  ]

  commit_due-Keeps :
      (sort : List PendingTx → List PendingTx) (time : ℕ) (now : String) (bft : BftConsensus)
      → Keeps host disk bft (run_task host disk commit_due sort time now bft).0
  unfolding run_task
  commit_due-Keeps sort time now bft = elim (Option-cases (own_commit_vote time bft)) [
    | inl e ↦ rw (e, run_task) (refl, refl, refl, refl)
    | inr (vote, e) ↦ rw (e, run_task) (refl, refl, refl, refl)
  ]

  -- A thread that comes with the node's vote to commit does what this vote does, and every other
  -- leaves the chain alone.
  pub run_task-Handles :
      (task : Task) (sort : List PendingTx → List PendingTx) (time : ℕ) (now : String)
      (bft : BftConsensus)
      → (Keeps host disk bft (run_task host disk task sort time now bft).0
          × ¬ ((vote : ConsensusVote) × (task ≡ commit_vote_due vote)))
        ⊎ (vote : ConsensusVote) × (task ≡ commit_vote_due vote)
          × Handles host disk vote now bft (run_task host disk task sort time now bft).0
  unfolding run_task
  run_task-Handles (round_due height) sort time now bft = inl (
    after_start-Keeps bft (start_round host height 0 time bft)
        (start_round-Keeps host disk height 0 time bft),
    λ (vote, e). cc,
  )
  run_task-Handles propose_due sort time now bft =
      inl (propose_due-Keeps sort time now bft, λ (vote, e). cc)
  run_task-Handles (prepare_due block) sort time now bft =
      inl (after_vote-Keeps bft (own_prepare_vote time block bft), λ (vote, e). cc)
  run_task-Handles (prepare_vote_due own) sort time now bft =
      inl (receive_prepare_vote-Keeps host disk own bft, λ (vote, e). cc)
  run_task-Handles commit_due sort time now bft =
      inl (commit_due-Keeps sort time now bft, λ (vote, e). cc)
  run_task-Handles (commit_vote_due vote) sort time now bft =
      inr (vote, refl, receive_commit_vote-Handles host disk time now vote bft)
