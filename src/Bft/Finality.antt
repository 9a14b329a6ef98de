-- ===== src/Bft/Finality.antt =====
-- When a block is finalized.
use mathlib.Core.Option.{some_inj}
use nuvex.Base.{
  ℕ, ◌≤◌, ◌≡◌, refl, sym, ◌⊎◌, inl, inr, true, false, some, List, String, arith, Bool-cases,
  Option-cases, ap, ◌∙◌, none, string_key, Outcome-cases, length, nat_eq, nat_eq_iff, subst, leb,
  ◌&&◌,
}
use nuvex.Base.Word.{Int64, ◌+64◌}
use nuvex.Dict.{insert}
use nuvex.Host.{Host}
use nuvex.Blockchain.Block.{Block}
use nuvex.Blockchain.Chain.{Blockchain, BlockDisk, add_block}
use nuvex.Mempool.{PendingTx, select_for_block}
use nuvex.Bft.{
  ConsensusPhase, commit, is_commit, ConsensusVote, ConsensusRound, BftConsensus, select_leader,
}
use nuvex.Bft.Rounds.{
  receive_prepare_vote, count_prepare_vote, count_commit_vote, start_round, propose_under_lock,
  finalize_block, receive_commit_vote,
}

is_commit_phase : (p : ConsensusPhase) → is_commit p ≡ true → p ≡ commit
is_commit_phase commit h = refl
is_commit_phase ConsensusPhase.new_round h = cc
is_commit_phase ConsensusPhase.propose h = cc
is_commit_phase ConsensusPhase.prepare h = cc
is_commit_phase ConsensusPhase.finalized h = cc

module _ (host : Host) (disk : BlockDisk) where
  -- What the chain becomes when a block is finalized.
  abbrev pub extended : Block → String → Blockchain → Blockchain
  extended b now chain =
      (add_block host disk b.validator b.transactions b.total_fees b.burned_amount b.mining_reward
        now chain).0

  pub finalize_block-extended :
      (time : ℕ) (now : String) (r : ConsensusRound) (bft : BftConsensus) {block : Block}
      → r.proposed_block ≡ some block
      → ((finalize_block host disk time now r bft).0.blockchain ≡ extended block now bft.blockchain)
        × ((finalize_block host disk time now r bft).0.total_blocks ≡ bft.total_blocks +64 1)
        × ((finalize_block host disk time now r bft).0.validators ≡ bft.validators)
        × ((finalize_block host disk time now r bft).0.quorum ≡ bft.quorum)
  unfolding finalize_block
  finalize_block-extended time now r bft {block} e =
      elim (Outcome-cases
        (add_block host disk block.validator block.transactions block.total_fees block.burned_amount
          block.mining_reward now bft.blockchain).1) [
            | inl (b, added) ↦ rw (e, added, finalize_block) (refl, refl, refl, refl)
            | inr (inl (x, _)) ↦ absurd x
            | inr (inr failed) ↦ rw (e, failed, finalize_block) (refl, refl, refl, refl)
          ]

  -- The chain, its count, the validators and the quorum are as before.
  abbrev pub Keeps : BftConsensus → BftConsensus → Type 0
  Keeps bft bft' =
      (bft'.blockchain ≡ bft.blockchain)
      × (bft'.total_blocks ≡ bft.total_blocks)
      × (bft'.validators ≡ bft.validators)
      × (bft'.quorum ≡ bft.quorum)

  -- The round stands in the phase of commits, a block was proposed, and this vote has the round's
  -- height and makes the votes a quorum.
  abbrev pub Ready : ConsensusVote → BftConsensus → Type 0
  Ready vote bft =
      (r : ConsensusRound) × (block : Block) × (bft.current_round ≡ some r)
      × (r.phase ≡ commit)
      × (r.proposed_block ≡ some block)
      × (vote.height ≡ r.height)
      × (bft.quorum ≤ length (insert vote.validator_addr vote r.commit_votes))

  -- With this vote the block's data extend the chain.
  abbrev pub Finalizes : ConsensusVote → String → BftConsensus → BftConsensus → Type 0
  Finalizes vote now bft bft' =
      (ready : Ready vote bft) × (bft'.blockchain ≡ extended ready.1 now bft.blockchain)
      × (bft'.total_blocks ≡ bft.total_blocks +64 1)
      × (bft'.validators ≡ bft.validators)
      × (bft'.quorum ≡ bft.quorum)

  abbrev pub Handles : ConsensusVote → String → BftConsensus → BftConsensus → Type 0
  Handles vote now bft bft' = (Keeps bft bft' × ¬ Ready vote bft) ⊎ Finalizes vote now bft bft'

  refused_idle :
      (vote : ConsensusVote) (bft : BftConsensus) → bft.current_round ≡ none → ¬ Ready vote bft
  refused_idle vote bft e (r, block, e', p, b, h, q) = cc

  refused_empty :
      (vote : ConsensusVote) (r : ConsensusRound) (bft : BftConsensus)
      → bft.current_round ≡ some r
      → r.proposed_block ≡ none
      → ¬ Ready vote bft
  refused_empty vote r bft e n (r', block, e', p, b, h, q) = cc

  refused_height :
      (vote : ConsensusVote) (r : ConsensusRound) (bft : BftConsensus)
      → bft.current_round ≡ some r
      → nat_eq vote.height r.height ≡ false
      → ¬ Ready vote bft
  refused_height vote r bft e n (r', block, e', p, b, h, q) =
      let same : r' ≡ r = (some_inj {a = r'} {b = r}).0 (sym e' ∙ e) in
      let equal =
        (nat_eq_iff vote.height r.height).1 (h ∙ ap (λ (x : ConsensusRound). x.height) same) in
      cc

  not_early :
      (vote : ConsensusVote) (r : ConsensusRound) (quorum : ℕ)
      → r.phase ≡ commit
      → quorum ≤ length (insert vote.validator_addr vote r.commit_votes)
      → (leb quorum (length (insert vote.validator_addr vote r.commit_votes)) && is_commit r.phase)
        ≡ false
      → ⊥
  not_early vote r quorum p q n = ground (arith, ap is_commit p)

  refused_early :
      (vote : ConsensusVote) (r : ConsensusRound) (bft : BftConsensus)
      → bft.current_round ≡ some r
      → (leb bft.quorum (length (insert vote.validator_addr vote r.commit_votes))
          && is_commit r.phase)
        ≡ false
      → ¬ Ready vote bft
  refused_early vote r bft e n (r', block, e', p, b, h, q) =
      let same : r' ≡ r = (some_inj {a = r'} {b = r}).0 (sym e' ∙ e) in
      let p' = ap (λ (x : ConsensusRound). x.phase) (sym same) ∙ p in
      let q' =
        subst
          (λ (x : ConsensusRound).
            bft.quorum ≤ length (insert vote.validator_addr vote x.commit_votes))
          same q in
      not_early vote r bft.quorum p' q' n

  pub receive_prepare_vote-Keeps :
      (vote : ConsensusVote) (bft : BftConsensus) → Keeps bft (receive_prepare_vote vote bft)
  unfolding receive_prepare_vote count_prepare_vote
  receive_prepare_vote-Keeps vote bft = elim (Option-cases bft.current_round) [
    | inl e ↦ rw (e, receive_prepare_vote) (refl, refl, refl, refl)
    | inr (r, e) ↦
        rw (e, receive_prepare_vote)
          (elim (Bool-cases (nat_eq vote.height r.height)) [
            | inr other ↦ rw (other, count_prepare_vote) (refl, refl, refl, refl)
            | inl same ↦
                elim (Bool-cases
                  (leb bft.quorum (length (insert vote.validator_addr vote r.prepare_votes)))) [
                    | inl full ↦ rw (same, full, count_prepare_vote) (refl, refl, refl, refl)
                    | inr few ↦ rw (same, few, count_prepare_vote) (refl, refl, refl, refl)
                  ]
          ])
  ]

  finalize_block-Handles :
      (time : ℕ) (now : String) (vote : ConsensusVote) (r : ConsensusRound) (bft : BftConsensus)
      → bft.current_round ≡ some r
      → vote.height ≡ r.height
      → bft.quorum ≤ length (insert vote.validator_addr vote r.commit_votes)
      → r.phase ≡ commit
      → let r' = record r { commit_votes = insert vote.validator_addr vote r.commit_votes } in
        Handles vote now bft (finalize_block host disk time now r' bft).0
  unfolding finalize_block
  finalize_block-Handles time now vote r bft e same full committed =
      elim (Option-cases r.proposed_block) [
        | inl nothing ↦
            let refused = refused_empty vote r bft e nothing in
            rw (nothing, finalize_block) (inl ((refl, refl, refl, refl), refused))
        | inr (block, has_block) ↦
            let (chain, total, validators, quorum) =
              finalize_block-extended time now _ bft has_block in
            inr ((r, block, e, committed, has_block, same, full), chain, total, validators, quorum)
      ]

  count_commit_vote_dropped :
      (time : ℕ) (now : String) (vote : ConsensusVote) (r : ConsensusRound) (bft : BftConsensus)
      → nat_eq vote.height r.height ≡ false
      → Keeps bft (count_commit_vote host disk time now vote r bft).0
  unfolding count_commit_vote
  count_commit_vote_dropped time now vote r bft e =
      rw (e, count_commit_vote) (refl, refl, refl, refl)

  count_commit_vote-Handles :
      (time : ℕ) (now : String) (vote : ConsensusVote) (r : ConsensusRound) (bft : BftConsensus)
      → bft.current_round ≡ some r
      → Handles vote now bft (count_commit_vote host disk time now vote r bft).0
  unfolding count_commit_vote
  count_commit_vote-Handles time now vote r bft e =
      elim (Bool-cases (nat_eq vote.height r.height)) [
        | inr other ↦
            inl (
              count_commit_vote_dropped time now vote r bft other,
              refused_height vote r bft e other,
            )
        | inl same ↦
            elim (Bool-cases (
              leb bft.quorum (length (insert vote.validator_addr vote r.commit_votes))
              && is_commit r.phase)) [
                | inr early ↦
                    let refused = refused_early vote r bft e early in
                    rw (same, early, count_commit_vote) (inl ((refl, refl, refl, refl), refused))
                | inl full ↦
                    rw (same, full, count_commit_vote)
                      (finalize_block-Handles time now vote r bft e
                        ((nat_eq_iff vote.height r.height).0 same) (ground (arith, full))
                        (is_commit_phase r.phase (ground (arith, full))))
              ]
      ]

  pub receive_commit_vote_counted :
      (time : ℕ) (now : String) (vote : ConsensusVote) (r : ConsensusRound) (bft : BftConsensus)
      → bft.current_round ≡ some r
      → receive_commit_vote host disk time now vote bft
        ≡ count_commit_vote host disk time now vote r bft
  unfolding receive_commit_vote
  receive_commit_vote_counted time now vote r bft e = simp (e, receive_commit_vote)

  receive_commit_vote_idle :
      (time : ℕ) (now : String) (vote : ConsensusVote) (bft : BftConsensus)
      → bft.current_round ≡ none
      → Keeps bft (receive_commit_vote host disk time now vote bft).0
  unfolding receive_commit_vote
  receive_commit_vote_idle time now vote bft e =
      rw (e, receive_commit_vote) (refl, refl, refl, refl)

  pub receive_commit_vote-Handles :
      (time : ℕ) (now : String) (vote : ConsensusVote) (bft : BftConsensus)
      → Handles vote now bft (receive_commit_vote host disk time now vote bft).0
  unfolding receive_commit_vote
  receive_commit_vote-Handles time now vote bft = elim (Option-cases bft.current_round) [
    | inl e ↦ inl (receive_commit_vote_idle time now vote bft e, refused_idle vote bft e)
    | inr (r, e) ↦
        subst (λ s. Handles vote now bft s.0)
          (sym (receive_commit_vote_counted time now vote r bft e))
          (count_commit_vote-Handles time now vote r bft e)
  ]

  pub start_round-Keeps :
      (height round : Int64) (time : ℕ) (bft : BftConsensus)
      → Keeps bft (start_round host height round time bft).0
  unfolding start_round
  start_round-Keeps height round time bft =
      elim (Outcome-cases (select_leader host height round bft.validators)) [
        | inl (v, e) ↦ rw (e, start_round) (refl, refl, refl, refl)
        | inr (inl (x, _)) ↦ absurd x
        | inr (inr e) ↦ rw (e, start_round) (refl, refl, refl, refl)
      ]

  pub propose_under_lock-Keeps :
      (sort : List PendingTx → List PendingTx) (time : ℕ) (now : String) (r : ConsensusRound)
      (bft : BftConsensus)
      → Keeps bft (propose_under_lock host sort time now r bft).0
  unfolding propose_under_lock
  propose_under_lock-Keeps sort time now r bft =
      elim (Outcome-cases (select_for_block sort 1_000 time bft.mempool).1) [
        | inl (txs, e) ↦ rw (e, propose_under_lock) (refl, refl, refl, refl)
        | inr (inl (x, _)) ↦ absurd x
        | inr (inr e) ↦ rw (e, propose_under_lock) (refl, refl, refl, refl)
      ]
