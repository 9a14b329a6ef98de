-- ===== src/Bft/Steps.antt =====
-- What the steps of a node do to its chain.
use nuvex.Base.{
  String, ◌*◌, ℕ, ◌<◌, ◌≡◌, refl, sym, ap, ◌∙◌, ◌⊎◌, inl, inr, some, none, List, [], ◌∷◌, arith,
  Option-cases, string_key, subst, ok, Outcome-cases, length,
}
use nuvex.Host.{Host}
use nuvex.Blockchain.Chain.{BlockDisk}
use nuvex.Mempool.{PendingTx}
use nuvex.Consensus.{Validator, quorum_of}
use nuvex.Bft.{Task, commit_vote_due, ConsensusVote, BftConsensus, add_validator}
use nuvex.Bft.Threads.{
  Event, started, resumed, prepare_arrived, commit_arrived, timed_out, joined, resume_at, run_task,
  step, run,
}
use nuvex.Bft.Finality.{
  Keeps, Ready, Finalizes, Handles, receive_prepare_vote-Keeps, receive_commit_vote-Handles,
}
use nuvex.Bft.Tasks.{run_task-Handles}

module _ (host : Host) (disk : BlockDisk) where
  -- The chain and the count of finalized blocks stay as they are.
  abbrev pub ChainKept : BftConsensus → BftConsensus → Type 0
  ChainKept bft bft' = (bft'.blockchain ≡ bft.blockchain) × (bft'.total_blocks ≡ bft.total_blocks)

  abbrev KeepsQuorum : BftConsensus → BftConsensus → Type 0
  KeepsQuorum bft bft' =
      bft.quorum ≡ quorum_of bft.validators → bft'.quorum ≡ quorum_of bft'.validators

  keeps_quorum :
      {vs vs' : List Validator} {q q' : ℕ}
      → vs' ≡ vs
      → q' ≡ q
      → q ≡ quorum_of vs
      → q' ≡ quorum_of vs'
  keeps_quorum v q h = q ∙ h ∙ ap quorum_of (sym v)

  -- The vote to commit that an event comes with, and the clock's text: one that arrives, or the
  -- node's own, of the thread that goes on.
  abbrev pub Carries : Event → BftConsensus → ConsensusVote → String → Type 0
  Carries started bft vote now = ⊥
  Carries (resumed i sort time text) bft vote now =
      ((others : List Task) × (resume_at i bft.tasks ≡ some (commit_vote_due vote, others)))
      × (now ≡ text)
  Carries (prepare_arrived v) bft vote now = ⊥
  Carries (commit_arrived time text v) bft vote now = (vote ≡ v) × (now ≡ text)
  Carries timed_out bft vote now = ⊥
  Carries (joined v) bft vote now = ⊥

  -- The event comes with a vote that can finalize.
  abbrev pub CarriesReady : Event → BftConsensus → Type 0
  CarriesReady event bft =
      (vote : ConsensusVote) × (now : String) × Carries event bft vote now
      × Ready host disk vote bft

  abbrev pub Finalized : Event → BftConsensus → BftConsensus → Type 0
  Finalized event bft bft' =
      (vote : ConsensusVote) × (now : String) × Carries event bft vote now
      × Finalizes host disk vote now bft bft'

  abbrev Steps : Event → BftConsensus → BftConsensus → Type 0
  Steps event bft bft' =
      ((ChainKept bft bft' × ¬ CarriesReady event bft) ⊎ Finalized event bft bft')
      × KeepsQuorum bft bft'

  Keeps-Steps :
      (event : Event) (bft bft' : BftConsensus)
      → Keeps host disk bft bft'
      → ¬ CarriesReady event bft
      → Steps event bft bft'
  Keeps-Steps event bft bft' (c, t, v, q) refused = (inl ((c, t), refused), keeps_quorum v q)

  Finalized-Steps :
      (event : Event) (bft bft' : BftConsensus) → Finalized event bft bft' → Steps event bft bft'
  Finalized-Steps event bft bft' (vote, now, carried, (ready, c, t, v, q)) =
      (inr (vote, now, carried, (ready, c, t, v, q)), keeps_quorum v q)

  Handles-Steps :
      (event : Event) (vote : ConsensusVote) (now : String) (bft bft' : BftConsensus)
      → Carries event bft vote now
      → ((other : ConsensusVote) (text : String) → Carries event bft other text → other ≡ vote)
      → Handles host disk vote now bft bft'
      → Steps event bft bft'
  Handles-Steps event vote now bft bft' carried only (inl (kept, refused)) =
      Keeps-Steps event bft bft' kept (λ (other, text, c, ready).
        refused (subst (λ v. Ready host disk v bft) (only other text c) ready))
  Handles-Steps event vote now bft bft' carried only (inr done) =
      Finalized-Steps event bft bft' (vote, now, carried, done)

  resume_at_once :
      (i : ℕ) (bft : BftConsensus) (task task' : Task) (others others' : List Task)
      → resume_at i bft.tasks ≡ some (task, others)
      → resume_at i bft.tasks ≡ some (task', others')
      → task ≡ task'
  resume_at_once i bft task task' others others' e e' = cc

  commit_vote_due_once :
      (vote vote' : ConsensusVote) → commit_vote_due vote ≡ commit_vote_due vote' → vote ≡ vote'
  commit_vote_due_once vote vote' e = cc

  step_resumed :
      (i : ℕ) (sort : List PendingTx → List PendingTx) (time : ℕ) (now : String) (task : Task)
      (others : List Task) (bft : BftConsensus)
      → resume_at i bft.tasks ≡ some (task, others)
      → step host disk (resumed i sort time now) bft
        ≡ run_task host disk task sort time now (record bft { tasks = others })
  unfolding step
  step_resumed i sort time now task others bft e = simp (e, step)

  step_resumed_none :
      (i : ℕ) (sort : List PendingTx → List PendingTx) (time : ℕ) (now : String)
      (bft : BftConsensus)
      → resume_at i bft.tasks ≡ none
      → step host disk (resumed i sort time now) bft ≡ (bft, ok tt)
  unfolding step
  step_resumed_none i sort time now bft e = simp (e, step)

  step_resumed-cases :
      (i : ℕ) (sort : List PendingTx → List PendingTx) (time : ℕ) (now : String) (task : Task)
      (others : List Task) (bft : BftConsensus)
      → resume_at i bft.tasks ≡ some (task, others)
      → Steps
          (resumed i sort time now)
          bft
          (run_task host disk task sort time now (record bft { tasks = others })).0
  step_resumed-cases i sort time now task others bft e =
      let event = resumed i sort time now in
      let bft' = (run_task host disk task sort time now (record bft { tasks = others })).0 in
      elim (run_task-Handles host disk task sort time now (record bft { tasks = others })) [
        | inl (kept, without) ↦
            Keeps-Steps event bft bft' kept (λ (vote, text, ((others', e'), _), ready).
              without (vote, resume_at_once i bft task (commit_vote_due vote) others others' e e'))
        | inr (vote, same, handled) ↦
            Handles-Steps event vote now bft bft'
              ((others, e ∙ ap (λ t. some (t, others)) same), refl)
              (λ other text ((others', e'), _).
                commit_vote_due_once other vote
                  (resume_at_once i bft (commit_vote_due other) task others' others e' e ∙ same))
              handled
      ]

  step-cases : (event : Event) (bft : BftConsensus) → Steps event bft (step host disk event bft).0
  unfolding step add_validator
  step-cases started bft = (inl ((refl, refl), λ (vote, now, c, ready). c), λ h. h)
  step-cases (resumed i sort time now) bft = elim (Option-cases (resume_at i bft.tasks)) [
    | inl e ↦
        let refused : ¬ CarriesReady (resumed i sort time now) bft =
          λ (vote, text, ((others, e'), _), ready). cc in
        subst (λ s. Steps (resumed i sort time now) bft s.0)
          (sym (step_resumed_none i sort time now bft e)) (inl ((refl, refl), refused), λ h. h)
    | inr ((task, others), e) ↦
        subst (λ s. Steps (resumed i sort time now) bft s.0)
          (sym (step_resumed i sort time now task others bft e))
          (step_resumed-cases i sort time now task others bft e)
  ]
  step-cases (prepare_arrived vote) bft =
      Keeps-Steps (prepare_arrived vote) bft (step host disk (prepare_arrived vote) bft).0
        (receive_prepare_vote-Keeps host disk vote bft) (λ (v, now, c, ready). c)
  step-cases (commit_arrived time now vote) bft =
      Handles-Steps (commit_arrived time now vote) vote now bft
        (step host disk (commit_arrived time now vote) bft).0 (refl, refl)
        (λ other text (same, _). same) (receive_commit_vote-Handles host disk time now vote bft)
  step-cases timed_out bft = (inl ((refl, refl), λ (v, now, c, ready). c), λ h. h)
  step-cases (joined v) bft = (inl ((refl, refl), λ (u, now, c, ready). c), λ h. refl)

  -- A step of the node finalizes just when it comes with a vote to commit with which the round can be
  -- finalized: the round stands in the phase of commits with a proposed block, and this vote has the
  -- round's height and makes the commit votes a quorum. Then that block's data extend the chain and
  -- the count of finalized blocks rises by one; otherwise both stay as they are.
  pub step-Finalizes :
      (event : Event) (bft : BftConsensus)
      → (ChainKept bft (step host disk event bft).0 × ¬ CarriesReady event bft)
        ⊎ Finalized event bft (step host disk event bft).0
  step-Finalizes event bft = (step-cases event bft).0

  step-quorum :
      (event : Event) (bft : BftConsensus)
      → bft.quorum ≡ quorum_of bft.validators
      → (step host disk event bft).0.quorum ≡ quorum_of (step host disk event bft).0.validators
  step-quorum event bft = (step-cases event bft).1

  -- Whatever happens to a node with the right quorum, more than two thirds of its validators make a
  -- quorum afterwards.
  pub run_quorum :
      (events : List Event) (bft : BftConsensus)
      → bft.quorum ≡ quorum_of bft.validators
      → 2 * length (run host disk events bft).0.validators < 3 * (run host disk events bft).0.quorum
  unfolding run quorum_of
  run_quorum [] bft h = omega (arith, h)
  run_quorum (event ∷ events) bft h =
      let next = step-quorum event bft h in
      elim (Outcome-cases (step host disk event bft).1) [
        | inl (_, e) ↦ rw (e, run) (run_quorum events (step host disk event bft).0 next)
        | inr (inl (x, _)) ↦ absurd x
        | inr (inr e) ↦ rw (e, run) (omega (arith, next))
      ]
